-- ===== src/Cron/Steps.antt =====
-- The loop of parseField as a set: the bits that it adds are the values of the range at the distance
-- of the step.
use gopherd.Prelude.Int.{pos}
use gopherd.Prelude.{
  ℕ, zero, suc, ◌+◌, ◌*◌, ◌^◌, ◌≤◌, ◌<◌, leb, true, some, ◌≡◌, ◌∙◌, arith, Bool-cases, ◌⊎◌, inl,
  inr, ◌↔◌,
}
use gopherd.Cron.{Mask, set_bit, fill, fill_fuel}
use gopherd.Cron.Fill.{fill_add, fill_stop}

-- n is v, v + step, v + 2 * step or so on.
abbrev pub OnStep : (v step n : ℕ) → Type 0
OnStep v step n = (k : ℕ) × (n ≡ v + k * step)

-- The bits of `m` are those of `mask` and the steps from `v` up to `hi`.
abbrev pub AddsSteps : (v hi step : ℕ) → Mask → Mask → Type 0
AddsSteps v hi step mask m =
    (n : ℕ) → (m n ≡ true) ↔ ((mask n ≡ true) ⊎ ((n ≤ hi) × OnStep v step n))

steps_past : (v hi step : ℕ) (mask : Mask) → hi < v → AddsSteps v hi step mask mask
steps_past v hi step mask h n = (λ b. inl b, λ o. keeps o)
  where
    keeps : (mask n ≡ true) ⊎ ((n ≤ hi) × OnStep v step n) → mask n ≡ true
    keeps (inl b) = b
    keeps (inr (le, (k, e))) = absurd (omega arith)

bit_set : (v : ℕ) (mask : Mask) (n : ℕ) → set_bit (pos v) mask n ≡ true → (n ≡ v) ⊎ (mask n ≡ true)
bit_set v mask n h = ground arith

-- The first step is v itself.
steps_next :
    (v hi step : ℕ) (mask m : Mask)
    → v ≤ hi
    → v < 64
    → AddsSteps (v + step) hi step (set_bit (pos v) mask) m
    → AddsSteps v hi step mask m
steps_next v hi step mask m h w a n = (λ b. there ((a n).0 b), λ o. (a n).1 (back o))
  where
    there :
        (set_bit (pos v) mask n ≡ true) ⊎ ((n ≤ hi) × OnStep (v + step) step n)
        → (mask n ≡ true) ⊎ ((n ≤ hi) × OnStep v step n)
    there (inl b) = elim (bit_set v mask n b) [
      | inl e ↦ inr (omega (arith, e), (0, omega (arith, e)))
      | inr b ↦ inl b
    ]
    there (inr (le, (k, e))) = inr (le, (suc k, omega (arith, e)))

    back :
        (mask n ≡ true) ⊎ ((n ≤ hi) × OnStep v step n)
        → (set_bit (pos v) mask n ≡ true) ⊎ ((n ≤ hi) × OnStep (v + step) step n)
    back (inl b) = inl (ground arith)
    back (inr (le, (zero, e))) = inl (ground arith)
    back (inr (le, (suc k, e))) = inr (le, (k, omega (arith, e)))

fill_steps :
    (f v hi step : ℕ) (mask : Mask)
    → hi < 64
    → 0 < step
    → step < 2 ^ 62
    → suc hi ≤ v + f
    → (m : Mask) × (fill (suc f) (pos v) hi step mask ≡ some m) × AddsSteps v hi step mask m
fill_steps zero v hi step mask b p s h =
    (mask, fill_stop 0 v hi step mask (omega arith), steps_past v hi step mask (omega arith))
fill_steps (suc f) v hi step mask b p s h = elim (Bool-cases (leb v hi)) [
  | inr past ↦ (
    mask,
    fill_stop (suc f) v hi step mask (ground arith),
    steps_past v hi step mask (ground arith),
  )
  | inl within ↦
      let (m, returned, bits) =
        fill_steps f (v + step) hi step (set_bit (pos v) mask) b p s (omega arith) in
      let le : v ≤ hi = ground arith in
      (
        m,
        fill_add (suc f) v hi step mask le (omega (arith, le)) ∙ returned,
        steps_next v hi step mask m le (omega (arith, le)) bits,
      )
]

-- For an item with a step below 2 ^ 62 the loop returns a mask that keeps the bits it had, and has in
-- addition those of the range from lo to hi whose distance to lo is a multiple of the step, and no
-- other.
pub fill_exact :
    (lo hi step : ℕ) (mask : Mask)
    → lo < 64
    → hi < 64
    → 0 < step
    → step < 2 ^ 62
    → (m : Mask) × (fill fill_fuel (pos lo) hi step mask ≡ some m) × AddsSteps lo hi step mask m
fill_exact lo hi step mask l b p s = fill_steps 69 lo hi step mask b p s (omega arith)
