-- ===== src/Prelude/Bytes.antt =====
-- A Go string is a sequence of bytes. Equality of texts is decided and runs in tests.
use Prim.Native.Nat.{ℕ}
use Prim.Native.Char.{code}
use Prim.Native.String.{String}
use mathlib.Core.Path.{◌≡◌, refl}
use mathlib.Core.Bool.{Bool, true, false}
use mathlib.Core.List.{List, [], ◌∷◌}
use native.Mathlib.Decide.{ℕ_discrete}
use native.Mathlib.Omega.{arith}

abbrev pub Text : Type 0
Text = List ℕ

-- The bytes of an ASCII literal.
abbrev pub codes : String → Text
codes String.[] = []
codes (String.◌∷◌ c s) = code c ∷ codes s

-- Two texts that begin with a byte are equal if both their bytes and their rests are.
abbrev both_equal : {a b : ℕ} {s t : Text} → Dec (a ≡ b) → Dec (s ≡ t) → Dec ((a ∷ s) ≡ (b ∷ t))
both_equal (yes p) (yes q) = yes (cc)
both_equal (yes p) (no n) = no (λ e. n (cc))
both_equal (no n) d = no (λ e. n (cc))

unfoldable pub text_discrete : Discrete Text
unfolding ℕ_discrete
text_discrete [] [] = yes refl
text_discrete (a ∷ s) (b ∷ t) = both_equal (ℕ_discrete a b) (text_discrete s t)
text_discrete [] (b ∷ t) = no (λ e. cc)
text_discrete (a ∷ s) [] = no (λ e. cc)

infix 50 ◌==◌
abbrev pub ◌==◌ : Text → Text → Bool
s == t = elim (text_discrete s t) [ yes _ ↦ true | no _ ↦ false ]

pub ==→eq : (s t : Text) → (s == t) ≡ true → s ≡ t
==→eq s t h = ground arith

pub eq→== : (s t : Text) → s ≡ t → (s == t) ≡ true
eq→== s t h = ground arith

pub ==_refl : (s : Text) → (s == s) ≡ true
==_refl s = ground arith

differ : (codes "ab" == codes "abc") ≡ false
unfolding text_discrete
differ = refl
