-- ===== src/Yml/Scalars.antt =====
-- What the scalar helpers of internal/yml/parser.go promise: quoting round trips, and a split that
-- loses nothing.
use mathlib.Core.List.{append_assoc, append-nil}
use gopherd.Prelude.{
  ℕ, eqb, Text, Bool, true, false, ◌&&◌, some, List, [], ◌∷◌, ◌++◌, if◌then◌else◌, ◌≡◌, refl, subst,
  arith, ◌⊎◌, inl, inr, length, Option-cases, Bool-cases,
}
use gopherd.Yml.{
  decode_escape, unescape_double, split_last, unquote, Scan, outside, scan, split_from, split_csv,
  find_colon, starts_apart,
}

-- A writer for double-quoted values: the inverse of the reader.
abbrev pub escape : Text → Text
escape [] = []
escape (c ∷ s) =
    if eqb c b'\n'
    then b'\\' ∷ b'n' ∷ escape s
    else if eqb c b'\t'
    then b'\\' ∷ b't' ∷ escape s
    else if eqb c b'\r'
    then b'\\' ∷ b'r' ∷ escape s
    else if eqb c b'\\'
    then b'\\' ∷ b'\\' ∷ escape s
    else if eqb c b'"'
    then b'\\' ∷ b'"' ∷ escape s
    else c ∷ escape s

unescape_plain :
    (c : ℕ) (s : Text) → eqb c b'\\' ≡ false → unescape_double (c ∷ s) ≡ c ∷ unescape_double s
unfolding unescape_double
unescape_plain c [] h = refl
unescape_plain c (d ∷ s) h = ground arith

unescape_double-escape : (s : Text) → unescape_double (escape s) ≡ s
unfolding unescape_double decode_escape
unescape_double-escape [] = refl
unescape_double-escape (c ∷ s) =
    ground (arith, unescape_double-escape s, unescape_plain c (escape s))

split_last-append : (c last : ℕ) (s : Text) → split_last c (s ++ last ∷ []) ≡ (c ∷ s, last)
unfolding split_last
split_last-append c last [] = refl
split_last-append c last (d ∷ s) = ground (arith, split_last-append d last s)

-- Any text survives being written between double quotes, with its special characters escaped.
pub unquote-escape : (s : Text) → unquote (b'"' ∷ escape s ++ b'"' ∷ []) ≡ s
unfolding unquote split_last unescape_double
unquote-escape s = go (escape s) (unescape_double-escape s)
  where
    go : (t : Text) → unescape_double t ≡ s → unquote (b'"' ∷ t ++ b'"' ∷ []) ≡ s
    go [] h = h
    go (c ∷ t) h = ground (arith, split_last-append c b'"' t, h)

-- Any text survives being written between single quotes, as it is.
pub unquote_single : (s : Text) → unquote (b'\'' ∷ s ++ b'\'' ∷ []) ≡ s
unfolding unquote split_last
unquote_single [] = refl
unquote_single (c ∷ t) = ground (arith, split_last-append c b'\'' t)

-- The parts, each with a comma behind it.
abbrev terminated : List Text → Text
terminated [] = []
terminated (p ∷ ps) = p ++ b',' ∷ terminated ps

-- The parts, in order and with their commas, are the text, with or without a last comma.
abbrev pub IsSplit : Text → List Text → Type 0
IsSplit s parts = (terminated parts ≡ s) ⊎ (terminated parts ≡ s ++ b',' ∷ [])

terminated-append :
    (ps : List Text) (p : Text) → terminated (ps ++ p ∷ []) ≡ terminated ps ++ p ++ b',' ∷ []
terminated-append [] p = refl
terminated-append (q ∷ ps) p = rw (terminated-append ps p) (simp (append_assoc) refl)

scan_comma : (c : ℕ) (st : Scan) → (scan c st).1 ≡ true → c ≡ b','
unfolding scan
scan_comma c st h = ground arith

split_from-IsSplit :
    (st : Scan) (current : Text) (parts : List Text) (s : Text)
    → IsSplit (terminated parts ++ current ++ s) (split_from st current parts s)
unfolding split_from
split_from-IsSplit st [] parts [] = inl (simp append-nil refl)
split_from-IsSplit st (c ∷ current) parts [] =
    inr (rw (terminated-append parts (c ∷ current)) (simp (append-nil, append_assoc) refl))
split_from-IsSplit st current parts (c ∷ s) =
    let (st', splits) = scan c st in
    either splits
      (λ h.
        subst (λ x. IsSplit x (split_from st' [] (parts ++ current ∷ []) s)) (at_comma h)
          (split_from-IsSplit st' [] (parts ++ current ∷ []) s))
      (subst (λ x. IsSplit x (split_from st' (current ++ c ∷ []) parts s)) within
        (split_from-IsSplit st' (current ++ c ∷ []) parts s))
  where
    at_comma :
        (scan c st).1 ≡ true
        → terminated (parts ++ current ∷ []) ++ [] ++ s ≡ terminated parts ++ current ++ c ∷ s
    at_comma h = rw (terminated-append parts current, scan_comma c st h) (simp append_assoc refl)

    within : terminated parts ++ (current ++ c ∷ []) ++ s ≡ terminated parts ++ current ++ c ∷ s
    within = simp append_assoc refl

    either :
        (b : Bool)
        → (b ≡ true
            → IsSplit
                (terminated parts ++ current ++ c ∷ s)
                (split_from (scan c st).0 [] (parts ++ current ∷ []) s))
        → IsSplit
            (terminated parts ++ current ++ c ∷ s)
            (split_from (scan c st).0 (current ++ c ∷ []) parts s)
        → IsSplit (terminated parts ++ current ++ c ∷ s) (
            if b
            then split_from (scan c st).0 [] (parts ++ current ∷ []) s
            else split_from (scan c st).0 (current ++ c ∷ []) parts s)
    either true x y = x refl
    either false x y = y

-- Splitting an inline value loses nothing: its parts, each with a comma behind it, are the value, or
-- the value with a comma behind it.
pub split_csv-IsSplit : (s : Text) → IsSplit s (split_csv s)
unfolding split_csv
split_csv-IsSplit s = split_from-IsSplit outside [] [] s

-- Where `find_colon` finds a key, the text is the key, as long as the index that it returns, a colon,
-- and a rest that is empty or begins with a space.
pub find_colon-splits :
    (s : Text) (i : ℕ)
    → find_colon s ≡ some i
    → (key rest : Text) × (s ≡ key ++ b':' ∷ rest) × (length key ≡ i) × (starts_apart rest ≡ true)
unfolding find_colon
find_colon-splits [] i h = absurd (cc)
find_colon-splits (c ∷ s) i h = elim (Bool-cases (eqb c b':' && starts_apart s)) [
  | inl e ↦ ([], s, ground arith, ground arith, ground arith)
  | inr e ↦ elim (Option-cases (find_colon s)) [
    | inl n ↦ absurd (ground arith)
    | inr (j, n) ↦
        let (key, rest, whole, len, apart) = find_colon-splits s j n in
        (c ∷ key, rest, ground (arith, whole), ground (arith, len), apart)
  ]
]
