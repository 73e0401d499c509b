-- ===== src/Logger/Clean.antt =====
-- logger/target.go: what sanitizing keeps of a text: every newline, and no byte below 0x20 but newlines
-- and tabs. DEL and the bytes from 0x80 on pass.
use gopherd.Prelude.Strings.{take, drop}
use gopherd.Prelude.{
  ℕ, zero, suc, ◌+◌, ◌≤◌, eqb, Text, Bool, true, false, ◌&&◌, ◌||◌, [], ◌∷◌, ◌++◌, if◌then◌else◌,
  length, ◌≡◌, refl, ◌∙◌, ap, arith,
}
use gopherd.Logger.{
  is_plain, csi_len, osc_len, short_len, seq_len, ansi_seq_len, clean_from, split_plain,
  sanitize_seq, sanitize, escape_byte,
}

-- All bytes of the text are newlines, tabs or at least 0x20.
abbrev pub all_plain : Text → Bool
all_plain [] = true
all_plain (b ∷ s) = is_plain b && all_plain s

-- The number of newlines.
abbrev pub newlines : Text → ℕ
newlines [] = 0
newlines (b ∷ s) = (if eqb b b'\n' then 1 else 0) + newlines s

newlines-append : (s t : Text) → newlines (s ++ t) ≡ newlines s + newlines t
newlines-append [] t = omega arith
newlines-append (b ∷ s) t = omega (arith, newlines-append s t)

newlines-parts : (n : ℕ) (s : Text) → newlines (take n s) + newlines (drop n s) ≡ newlines s
newlines-parts zero s = omega arith
newlines-parts (suc n) [] = omega arith
newlines-parts (suc n) (b ∷ s) = omega (arith, newlines-parts n s)

csi_len-newlines : (sgr : Bool) (s : Text) → newlines (take (csi_len sgr s).0 s) ≡ 0
unfolding csi_len
csi_len-newlines sgr [] = refl
csi_len-newlines sgr (b ∷ s) = ground (arith, csi_len-newlines sgr s, csi_len-newlines false s)

osc_len-newlines : (s : Text) → newlines (take (osc_len s) s) ≡ 0
unfolding osc_len
osc_len-newlines [] = refl
osc_len-newlines (b ∷ []) = ground arith
osc_len-newlines (b ∷ c ∷ s) = ground (arith, osc_len-newlines (c ∷ s))

short_len-newlines : (s : Text) → newlines (take (short_len s) s) ≡ 0
unfolding short_len
short_len-newlines [] = refl
short_len-newlines (b ∷ s) = ground (arith, short_len-newlines s)

-- The sequence has its first two bytes, and none of these is a newline where it is of that kind.
seq_len-newlines :
    (csi osc : Bool) (b c : ℕ) (s : Text)
    → eqb b b'\n' ≡ false
    → ((csi || osc) ≡ true → eqb c b'\n' ≡ false)
    → newlines (take (seq_len csi osc c s).0 (b ∷ c ∷ s)) ≡ 0
unfolding seq_len
seq_len-newlines true osc b c s h k = ground (arith, csi_len-newlines true s, k refl)
seq_len-newlines false true b c s h k = ground (arith, osc_len-newlines s, k refl)
seq_len-newlines false false b c s h k = ground (arith, short_len-newlines (c ∷ s))

ansi_seq_len-newlines :
    (b : ℕ) (s : Text) → eqb b escape_byte ≡ true → newlines (take (ansi_seq_len s).0 (b ∷ s)) ≡ 0
unfolding ansi_seq_len
ansi_seq_len-newlines b [] h = ground arith
ansi_seq_len-newlines b (c ∷ s) h =
    seq_len-newlines (eqb c b'[') (eqb c b']') b c s (ground arith) (λ k. ground arith)

-- The sequence is not empty.
ansi_seq_len-positive : (s : Text) → 1 ≤ (ansi_seq_len s).0
unfolding ansi_seq_len seq_len
ansi_seq_len-positive [] = omega arith
ansi_seq_len-positive (c ∷ s) = positive (eqb c b'[') (eqb c b']')
  where
    positive : (x y : Bool) → 1 ≤ (seq_len x y c s).0
    positive true y = omega arith
    positive false true = omega arith
    positive false false = omega arith

length-drop-le : (n : ℕ) (s : Text) → length (drop n s) ≤ length s
length-drop-le zero s = omega arith
length-drop-le (suc n) [] = omega arith
length-drop-le (suc n) (b ∷ s) = omega (arith, length-drop-le n s)

length-drop-lt : (n b : ℕ) (s : Text) → 1 ≤ n → length (drop n (b ∷ s)) ≤ length s
length-drop-lt zero b s h = absurd (omega arith)
length-drop-lt (suc n) b s h = length-drop-le n s

clean_from-newlines :
    (keep : Bool) (fuel : ℕ) (s : Text)
    → length s ≤ fuel
    → newlines (clean_from keep fuel s) ≡ newlines s
unfolding clean_from
clean_from-newlines keep fuel [] h = refl
clean_from-newlines keep zero (b ∷ s) h = absurd (omega arith)
clean_from-newlines keep (suc fuel) (b ∷ s) h =
    let n = (ansi_seq_len s).0 in
    ground (
      arith,
      clean_from-newlines keep fuel s (omega (arith, h)),
      clean_from-newlines keep fuel (drop n (b ∷ s))
          (omega (arith, h, length-drop-lt n b s (ansi_seq_len-positive s))),
      ansi_seq_len-newlines b s,
      newlines-parts n (b ∷ s),
      newlines-append (take n (b ∷ s)) (clean_from keep fuel (drop n (b ∷ s))),
    )

all_plain-append :
    (s t : Text) → all_plain s ≡ true → all_plain t ≡ true → all_plain (s ++ t) ≡ true
all_plain-append [] t h k = k
all_plain-append (b ∷ s) t h k = ground (arith, all_plain-append s t)

clean_from-all_plain : (fuel : ℕ) (s : Text) → all_plain (clean_from false fuel s) ≡ true
unfolding clean_from
clean_from-all_plain fuel [] = refl
clean_from-all_plain zero (b ∷ s) = refl
clean_from-all_plain (suc fuel) (b ∷ s) = ground (
  arith,
  clean_from-all_plain fuel s,
  clean_from-all_plain fuel (drop (ansi_seq_len s).0 (b ∷ s)),
)

split_plain-all_plain : (s : Text) → all_plain (split_plain s).0 ≡ true
unfolding split_plain
split_plain-all_plain [] = refl
split_plain-all_plain (b ∷ s) = ground (arith, split_plain-all_plain s)

split_plain-newlines :
    (s : Text) → newlines (split_plain s).0 + newlines (split_plain s).1 ≡ newlines s
unfolding split_plain
split_plain-newlines [] = omega arith
split_plain-newlines (b ∷ s) = ground (arith, split_plain-newlines s)

plain_is_kept : (s : Text) → all_plain s ≡ true → split_plain s ≡ (s, [])
unfolding split_plain
plain_is_kept [] h = refl
plain_is_kept (b ∷ s) h = ground (arith, plain_is_kept s)

append_nothing : (s : Text) → s ++ [] ≡ s
append_nothing [] = refl
append_nothing (b ∷ s) = ap (λ t. b ∷ t) (append_nothing s)

sanitize_plain : (s : Text) → all_plain s ≡ true → sanitize s ≡ s
unfolding sanitize_seq clean_from
sanitize_plain s h =
    ap (λ (p : Text × Text). p.0 ++ clean_from false (length p.1) p.1) (plain_is_kept s h)
    ∙ append_nothing s

-- A text that is written to a log file or to syslog has no byte below 0x20 but newlines and tabs, and
-- is then not changed any more. Sanitizing neither adds a line to a text nor takes one away: the
-- number of newlines stays, in these and in the lines for the control socket, which keep colors.
pub sanitize-IsPlain :
    (keep : Bool) (s : Text)
    → (all_plain (sanitize s) ≡ true)
      × (sanitize (sanitize s) ≡ sanitize s)
      × (newlines (sanitize_seq keep s) ≡ newlines s)
unfolding sanitize_seq
sanitize-IsPlain keep s = (plain, sanitize_plain (sanitize s) plain, lines)
  where
    plain : all_plain (sanitize s) ≡ true
    plain =
        all_plain-append (split_plain s).0
          (clean_from false (length (split_plain s).1) (split_plain s).1) (split_plain-all_plain s)
          (clean_from-all_plain (length (split_plain s).1) (split_plain s).1)

    lines : newlines (sanitize_seq keep s) ≡ newlines s
    lines =
        let (good, rest) = split_plain s in
        omega (
          arith,
          newlines-append (split_plain s).0
              (clean_from keep (length (split_plain s).1) (split_plain s).1),
          clean_from-newlines keep (length (split_plain s).1) (split_plain s).1 (omega arith),
          split_plain-newlines s,
        )
