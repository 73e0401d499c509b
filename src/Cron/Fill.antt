-- ===== src/Cron/Fill.antt =====
-- The loop of parseField: it ends for every step, and for steps without overflow it sets the bits of
-- the range at that distance.
use gopherd.Prelude.Int.{pos, negsuc}
use gopherd.Prelude.{
  ℕ, zero, suc, ◌+◌, ◌-◌, ◌^◌, ◌≤◌, ◌<◌, ltb, leb, Bool, true, false, Option, none, some, ◌≡◌, sym,
  subst, arith, Bool-cases, inl, inr,
}
use gopherd.Cron.{Mask, set_bit, fill, fill_fuel}

-- The loop ends within the fuel.
abbrev pub ends : Option Mask → Bool
ends none = false
ends (some mask) = true

fill_past :
    (f v hi step : ℕ) (mask : Mask) → hi < v → ends (fill (suc f) (pos v) hi step mask) ≡ true
unfolding fill
fill_past f v hi step mask h = ground arith

fill_small :
    (f v hi step : ℕ) (mask : Mask)
    → hi < 64
    → 0 < step
    → step < 2 ^ 62
    → suc hi ≤ v + f
    → ends (fill (suc f) (pos v) hi step mask) ≡ true
unfolding fill
fill_small zero v hi step mask b p s h = ground arith
fill_small (suc f) v hi step mask b p s h =
    ground (arith, fill_small f (v + step) hi step (set_bit (pos v) mask) b p s)

-- One round, by whether the addition overflows and by whether a negative value gets past 0.
module _ (f v hi step : ℕ) (mask : Mask) where
  pub fill_stop : hi < v → fill (suc f) (pos v) hi step mask ≡ some mask
  unfolding fill
  fill_stop a = ground arith

  pub fill_add :
      v ≤ hi
      → v + step < 2 ^ 63
      → fill (suc f) (pos v) hi step mask ≡ fill f (pos (v + step)) hi step (set_bit (pos v) mask)
  unfolding fill
  fill_add a b = ground arith

  fill_wrap :
      v ≤ hi
      → 2 ^ 63 ≤ v + step
      → fill (suc f) (pos v) hi step mask
        ≡ fill f (negsuc (2 ^ 64 - 1 - (v + step))) hi step (set_bit (pos v) mask)
  unfolding fill
  fill_wrap a b = ground arith

  fill_return :
      v < step
      → fill (suc f) (negsuc v) hi step mask
        ≡ fill f (pos (step - suc v)) hi step (set_bit (negsuc v) mask)
  unfolding fill
  fill_return a = ground arith

  fill_below :
      step ≤ v
      → fill (suc f) (negsuc v) hi step mask
        ≡ fill f (negsuc (v - step)) hi step (set_bit (negsuc v) mask)
  unfolding fill
  fill_below a = ground arith

fill_negative :
    (f v hi step : ℕ) (mask : Mask)
    → hi < 64
    → 2 ^ 62 ≤ step
    → v < 64
    → ends (fill (suc (suc f)) (negsuc v) hi step mask) ≡ true
fill_negative f v hi step mask b p h =
    let past : ends (fill (suc f) (pos (step - suc v)) hi step (set_bit (negsuc v) mask)) ≡ true =
      fill_past f (step - suc v) hi step (set_bit (negsuc v) mask) (omega arith) in
    ground (arith, fill_return (suc f) v hi step mask)

fill_negative_at :
    (f v hi step : ℕ) (mask : Mask)
    → hi < 64
    → 2 ^ 62 ≤ step
    → v < 64
    → 1 ≤ f
    → ends (fill (suc f) (negsuc v) hi step mask) ≡ true
fill_negative_at zero v hi step mask b p h g = absurd (omega arith)
fill_negative_at (suc f) v hi step mask b p h g = fill_negative f v hi step mask b p h

-- The rounds behind an overflow, which lead to a smaller value or past the range.
fill_wrapped :
    (f v hi step : ℕ) (mask : Mask)
    → hi < 64
    → 2 ^ 62 ≤ step
    → step < 2 ^ 63
    → v < 64
    → v + 4 ≤ suc (suc f)
    → 2 ^ 63 ≤ v + step
    → ((u : ℕ) (m : Mask) → u + 2 ≤ v → ends (fill f (pos u) hi step m) ≡ true)
    → ends (fill (suc f) (negsuc (2 ^ 64 - 1 - (v + step))) hi step mask) ≡ true
fill_wrapped zero v hi step mask b p s w h o again = absurd (omega arith)
fill_wrapped (suc f) v hi step mask b p s w h o again =
    let low = 2 ^ 64 - 1 - (v + step) in
    elim (Bool-cases (ltb low step)) [
      | inl positive ↦
          subst (λ o. ends o ≡ true) (sym (fill_return (suc f) low hi step mask (ground arith)))
            (again (step - suc low) (set_bit (negsuc low) mask) (ground arith))
      | inr negative ↦
          subst (λ o. ends o ≡ true) (sym (fill_below (suc f) low hi step mask (ground arith)))
            (fill_negative_at f (low - step) hi step (set_bit (negsuc low) mask) b p (omega arith)
              (omega arith))
    ]

fill_big :
    (f v hi step : ℕ) (mask : Mask)
    → hi < 64
    → 2 ^ 62 ≤ step
    → step < 2 ^ 63
    → v < 64
    → v + 4 ≤ f
    → ends (fill f (pos v) hi step mask) ≡ true
fill_big zero v hi step mask b p s w h = absurd (omega arith)
fill_big (suc zero) v hi step mask b p s w h = absurd (omega arith)
fill_big (suc (suc f)) v hi step mask b p s w h = elim (Bool-cases (leb v hi)) [
  | inr past ↦ fill_past (suc f) v hi step mask (ground arith)
  | inl within ↦ elim (Bool-cases (ltb (v + step) (2 ^ 63))) [
    | inl fits ↦
        subst (λ o. ends o ≡ true)
          (sym (fill_add (suc f) v hi step mask (ground arith) (ground arith)))
          (fill_past f (v + step) hi step (set_bit (pos v) mask) (omega arith))
    | inr wraps ↦
        subst (λ o. ends o ≡ true)
          (sym (fill_wrap (suc f) v hi step mask (ground arith) (ground arith)))
          (fill_wrapped f v hi step (set_bit (pos v) mask) b p s w h (ground arith)
            (λ u m smaller. fill_big f u hi step m b p s (omega arith) (omega arith)))
  ]
]

-- For a step that is positive and fits into an int64, and a range within the mask, the loop ends, also
-- where `v += step` overflows.
pub fill-ends :
    (lo hi step : ℕ) (mask : Mask)
    → lo < 64
    → hi < 64
    → 0 < step
    → step < 2 ^ 63
    → ends (fill fill_fuel (pos lo) hi step mask) ≡ true
fill-ends lo hi step mask l b p s = elim (Bool-cases (ltb step (2 ^ 62))) [
  | inl small ↦ fill_small 69 lo hi step mask b p (ground arith) (omega arith)
  | inr big ↦ fill_big 70 lo hi step mask b (ground arith) s l (omega arith)
]
