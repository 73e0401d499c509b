-- ===== src/Yml/Result.antt =====
-- internal/yml/parser.go: what its functions return. An error carries its line, 0 where the caller
-- adds it.
use gopherd.Prelude.{ℕ, Text}

pub data Reason : Type 0 where
  tab_indentation folded_block unknown_indicator no_colon : Reason
  duplicate_key : (key : Text) → Reason
  too_deep unexpected_indentation : Reason
  -- The model's loops give it; the code has no such error.
  out_of_fuel : Reason

pub data Result {ℓ} (A : Type ℓ) : Type ℓ where
  ok : A → Result A
  err : (line : ℕ) → Reason → Result A

module _ {ℓ κ} {A : Type ℓ} {B : Type κ} where
  infixl 5 ◌>>=◌
  abbrev pub ◌>>=◌ : Result A → (A → Result B) → Result B
  ok a >>= f = f a
  err l why >>= f = err l why

-- A result that satisfies `P`, or an error of the code.
abbrev pub Yields : {A : Type 0} → (A → Type 0) → Result A → Type 0
Yields P (ok a) = P a
Yields P (err l out_of_fuel) = ⊥
Yields P (err l why) = Unit

pub Yields-bind :
    {A B : Type 0} (P : A → Type 0) (Q : B → Type 0) (m : Result A) (f : A → Result B)
    → Yields P m
    → ((a : A) → P a → Yields Q (f a))
    → Yields Q (m >>= f)
Yields-bind P Q (ok a) f h k = k a h
Yields-bind P Q (err l out_of_fuel) f h k = absurd h
Yields-bind P Q (err l tab_indentation) f h k = tt
Yields-bind P Q (err l folded_block) f h k = tt
Yields-bind P Q (err l unknown_indicator) f h k = tt
Yields-bind P Q (err l no_colon) f h k = tt
Yields-bind P Q (err l (duplicate_key key)) f h k = tt
Yields-bind P Q (err l too_deep) f h k = tt
Yields-bind P Q (err l unexpected_indentation) f h k = tt

-- fmt.Errorf("line %d: %w", line, err)
abbrev pub at_line {ℓ} : {A : Type ℓ} → ℕ → Result A → Result A
at_line l (ok a) = ok a
at_line l (err k why) = err l why

pub Yields-at_line :
    {A : Type 0} (P : A → Type 0) (l : ℕ) (m : Result A) → Yields P m → Yields P (at_line l m)
Yields-at_line P l (ok a) h = h
Yields-at_line P l (err k out_of_fuel) h = h
Yields-at_line P l (err k tab_indentation) h = tt
Yields-at_line P l (err k folded_block) h = tt
Yields-at_line P l (err k unknown_indicator) h = tt
Yields-at_line P l (err k no_colon) h = tt
Yields-at_line P l (err k (duplicate_key key)) h = tt
Yields-at_line P l (err k too_deep) h = tt
Yields-at_line P l (err k unexpected_indentation) h = tt
