-- ===== src/Prelude/Outcome.antt =====
-- Results with an error of the program, and what they yield.
use mathlib.Core.Bool.{Bool, true, false}
use mathlib.Core.Option.{Option, none, some}
use mathlib.Core.Path.{◌≡◌, refl}

pub data Outcome {ℓ} (E : Type 0) (A : Type ℓ) : Type ℓ where
  accept : A → Outcome E A
  reject : E → Outcome E A

module _ {ℓ κ} {E : Type 0} {A : Type ℓ} {B : Type κ} where
  infixl 5 ◌>>=◌
  abbrev pub ◌>>=◌ : Outcome E A → (A → Outcome E B) → Outcome E B
  accept a >>= f = f a
  reject e >>= f = reject e

module _ {ℓ} {E : Type 0} {A : Type ℓ} where
  -- A result behind a test, and a value that may be missing.
  abbrev pub unless : Bool → E → Outcome E A → Outcome E A
  unless true e r = reject e
  unless false e r = r

  abbrev pub need : Option A → E → Outcome E A
  need none e = reject e
  need (some a) e = accept a

-- A value that satisfies `P`, or an error.
abbrev pub Yields : {E A : Type 0} → (A → Type 0) → Outcome E A → Type 0
Yields P (accept a) = P a
Yields P (reject e) = Unit

module _ {E A B : Type 0} where
  pub Yields-bind :
      (P : A → Type 0) (Q : B → Type 0) (m : Outcome E A) (f : A → Outcome E B)
      → Yields P m
      → ((a : A) → P a → Yields Q (f a))
      → Yields Q (m >>= f)
  Yields-bind P Q (accept a) f h k = k a h
  Yields-bind P Q (reject e) f h k = tt

  -- A bind that only remembers where its value comes from.
  pub Yields-from :
      (Q : B → Type 0) (m : Outcome E A) (f : A → Outcome E B)
      → ((a : A) → m ≡ accept a → Yields Q (f a))
      → Yields Q (m >>= f)
  Yields-from Q (accept a) f k = k a refl
  Yields-from Q (reject e) f k = tt

module _ {E A : Type 0} where
  pub Yields-unless :
      (Q : A → Type 0) (b : Bool) (e : E) (r : Outcome E A)
      → (b ≡ false → Yields Q r)
      → Yields Q (unless b e r)
  Yields-unless Q true e r k = tt
  Yields-unless Q false e r k = k refl

  -- What follows from what holds of a value.
  pub Yields-map :
      (P Q : A → Type 0) (m : Outcome E A) → ((a : A) → P a → Q a) → Yields P m → Yields Q m
  Yields-map P Q (accept a) f h = f a h
  Yields-map P Q (reject e) f h = tt
