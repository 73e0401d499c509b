-- ===== src/Logger/Recent.antt =====
-- The ring of a PrefixWriter: Recent returns the last 200 lines.
use gopherd.Prelude.{
  ℕ, zero, suc, ◌+◌, ◌-◌, ◌≤◌, ◌<◌, ltb, leb, Text, Bool, true, false, List, [], ◌∷◌, ◌++◌,
  if◌then◌else◌, length, length-append, ◌≡◌, refl, sym, ◌∙◌, ap, arith, Bool-cases, inl, inr,
}
use gopherd.Logger.{sanitize_keep_colors}
use gopherd.Logger.Writer.{
  PrefixWriter, default_ring_size, set_slot, push_ring, emit, pass_on, prefix_parts, slots, recent,
}

-- The last `n` of the lines.
unfoldable pub keep_last : ℕ → List Text → List Text
keep_last n [] = []
keep_last n (x ∷ xs) = if ltb n (length (x ∷ xs)) then keep_last n xs else x ∷ xs

keep_last_all : (n : ℕ) (xs : List Text) → length xs ≤ n → keep_last n xs ≡ xs
unfolding keep_last
keep_last_all n [] h = refl
keep_last_all n (x ∷ xs) h = ground arith

keep_last_one_less : (n : ℕ) (x : Text) (xs : List Text) → length xs ≡ n → keep_last n (x ∷ xs) ≡ xs
unfolding keep_last
keep_last_one_less n x xs h = ground (arith, keep_last_all n xs (omega (arith, h)))

module _ (ring : ℕ → Text) where
  length-slots : (i n : ℕ) → length (slots ring i n) ≡ n
  unfolding slots
  length-slots i zero = refl
  length-slots i (suc n) = ap suc (length-slots (suc i) n)

  slots_behind : (i n j : ℕ) (c : Text) → j < i → slots (set_slot ring j c) i n ≡ slots ring i n
  unfolding slots
  slots_behind i zero j c h = refl
  slots_behind i (suc n) j c h = ground (arith, slots_behind (suc i) n j c (omega (arith, h)))

  slots_before : (i n j : ℕ) (c : Text) → i + n ≤ j → slots (set_slot ring j c) i n ≡ slots ring i n
  unfolding slots
  slots_before i zero j c h = refl
  slots_before i (suc n) j c h = ground (arith, slots_before (suc i) n j c (omega (arith, h)))

slots_snoc :
    (ring : ℕ → Text) (i n : ℕ) → slots ring i (suc n) ≡ slots ring i n ++ ring (i + n) ∷ []
unfolding slots
slots_snoc ring i zero = ap (λ k. ring k ∷ []) (omega arith)
slots_snoc ring i (suc n) =
    ap (λ xs. ring i ∷ xs)
      (slots_snoc ring (suc i) n ∙ ap (λ k. slots ring (suc i) n ++ ring k ∷ []) (omega arith))

-- The slots up to a new line.
slots_pushed :
    (ring : ℕ → Text) (n : ℕ) (c : Text)
    → slots (set_slot ring n c) 0 (suc n) ≡ slots ring 0 n ++ c ∷ []
slots_pushed ring n c =
    let whole = slots_snoc (set_slot ring n c) 0 n in
    let old = slots_before ring 0 n n c (omega arith) in
    let new : set_slot ring n c (0 + n) ≡ c = ground arith in
    whole
    ∙ ap (λ xs. xs ++ set_slot ring n c (0 + n) ∷ []) old
    ∙ ap (λ x. slots ring 0 n ++ x ∷ []) new

append_assoc : (xs ys zs : List Text) → (xs ++ ys) ++ zs ≡ xs ++ (ys ++ zs)
append_assoc [] ys zs = refl
append_assoc (x ∷ xs) ys zs = ap (λ r. x ∷ r) (append_assoc xs ys zs)

append_nil : (xs : List Text) → xs ++ [] ≡ xs
append_nil [] = refl
append_nil (x ∷ xs) = ap (λ r. x ∷ r) (append_nil xs)

slots_first : (ring : ℕ → Text) (i n : ℕ) → slots ring i (suc n) ≡ ring i ∷ slots ring (suc i) n
unfolding slots
slots_first ring i n = refl

slots_none : (ring : ℕ → Text) (i : ℕ) → slots ring i 0 ≡ []
unfolding slots
slots_none ring i = refl

head_dropped :
    (x : Text) (xs ys : List Text) (c : Text)
    → length xs + length ys ≡ 199
    → keep_last 200 (((x ∷ xs) ++ ys) ++ c ∷ []) ≡ xs ++ (ys ++ c ∷ [])
head_dropped x xs ys c h =
    keep_last_one_less 200 x ((xs ++ ys) ++ c ∷ [])
      (omega (arith, h, length-append (xs ++ ys) (c ∷ []), length-append xs ys))
    ∙ append_assoc xs ys (c ∷ [])

-- The next slot of the ring exists.
abbrev pub IsInRing : PrefixWriter → Type 0
IsInRing w = w.ring_pos < default_ring_size

-- The lines of a ring, by its parts.
abbrev lines_of : Bool → (ℕ → Text) → ℕ → List Text
lines_of full ring i = if full then slots ring i (200 - i) ++ slots ring 0 i else slots ring 0 i

lines_inside :
    (full : Bool) (ring : ℕ → Text) (i : ℕ) (c : Text)
    → suc i < 200
    → lines_of full (set_slot ring i c) (suc i) ≡ keep_last 200 (lines_of full ring i ++ c ∷ [])
lines_inside false ring i c h =
    slots_pushed ring i c
    ∙ sym (
        keep_last_all 200 (slots ring 0 i ++ c ∷ [])
          (omega (arith, h, length-append (slots ring 0 i) (c ∷ []), length-slots ring 0 i)))
lines_inside true ring i c h =
    let n = 199 - i in
    let more : 200 - i ≡ suc n = omega (arith, h) in
    let fewer : 200 - suc i ≡ n = omega (arith, h) in
    ap (λ k. slots (set_slot ring i c) (suc i) k ++ slots (set_slot ring i c) 0 (suc i)) fewer
    ∙ ap (λ xs. xs ++ slots (set_slot ring i c) 0 (suc i))
        (slots_behind ring (suc i) n i c (omega arith))
    ∙ ap (λ xs. slots ring (suc i) n ++ xs) (slots_pushed ring i c)
    ∙ sym (
        head_dropped (ring i) (slots ring (suc i) n) (slots ring 0 i) c
          (omega (arith, h, length-slots ring (suc i) n, length-slots ring 0 i)))
    ∙ ap (λ xs. keep_last 200 ((xs ++ slots ring 0 i) ++ c ∷ [])) (sym (slots_first ring i n))
    ∙ ap (λ k. keep_last 200 ((slots ring i k ++ slots ring 0 i) ++ c ∷ [])) (sym more)

lines_wrapped :
    (full : Bool) (ring : ℕ → Text) (i : ℕ) (c : Text)
    → suc i ≡ 200
    → lines_of true (set_slot ring i c) 0 ≡ keep_last 200 (lines_of full ring i ++ c ∷ [])
lines_wrapped full ring i c h =
    ap (λ k. slots (set_slot ring i c) 0 k ++ slots (set_slot ring i c) 0 0) (sym h)
    ∙ ap (λ xs. slots (set_slot ring i c) 0 (suc i) ++ xs) (slots_none (set_slot ring i c) 0)
    ∙ append_nil (slots (set_slot ring i c) 0 (suc i))
    ∙ slots_pushed ring i c
    ∙ kept full
  where
    kept : (b : Bool) → slots ring 0 i ++ c ∷ [] ≡ keep_last 200 (lines_of b ring i ++ c ∷ [])
    kept false = sym (
        keep_last_all 200 (slots ring 0 i ++ c ∷ [])
          (omega (arith, h, length-append (slots ring 0 i) (c ∷ []), length-slots ring 0 i)))
    kept true =
        let one : 200 - i ≡ 1 = omega (arith, h) in
        sym (
          head_dropped (ring i) (slots ring (suc i) 0) (slots ring 0 i) c
            (omega (arith, h, length-slots ring (suc i) 0, length-slots ring 0 i))
          ∙ ap (λ xs. xs ++ (slots ring 0 i ++ c ∷ [])) (slots_none ring (suc i)))
        ∙ ap (λ xs. keep_last 200 ((xs ++ slots ring 0 i) ++ c ∷ [])) (sym (slots_first ring i 0))
        ∙ ap (λ k. keep_last 200 ((slots ring i k ++ slots ring 0 i) ++ c ∷ [])) (sym one)

push_ring-recent :
    (w : PrefixWriter) (c : Text)
    → IsInRing w
    → recent (push_ring c w) ≡ keep_last default_ring_size (recent w ++ c ∷ [])
unfolding recent
push_ring-recent w c h = elim (Bool-cases (leb 200 (suc w.ring_pos))) [
  | inl wraps ↦ rw wraps (lines_wrapped w.ring_full w.ring w.ring_pos c (ground arith))
  | inr room ↦ rw room (lines_inside w.ring_full w.ring w.ring_pos c (ground arith))
]

push_ring-IsInRing : (w : PrefixWriter) (c : Text) → IsInRing w → IsInRing (push_ring c w)
push_ring-IsInRing w c h = ground arith

-- After any line, Recent returns the last 200 of the lines that it returned before and of the new one,
-- which is prefixed and has no escapes but colors; and the next slot stays one of the ring.
pub emit-recent :
    (stamp line : Text) (w : PrefixWriter)
    → IsInRing w
    → (recent (emit stamp line w)
        ≡ keep_last default_ring_size
            (recent w ++ sanitize_keep_colors (prefix_parts w.name stamp w.parts line) ∷ []))
      × IsInRing (emit stamp line w)
unfolding emit pass_on recent
emit-recent stamp line w h =
    let clean = sanitize_keep_colors (prefix_parts w.name stamp w.parts line) in
    (
      push_ring-recent (pass_on stamp line w) clean h,
      push_ring-IsInRing (pass_on stamp line w) clean h,
    )
