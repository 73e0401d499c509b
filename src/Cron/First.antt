-- ===== src/Cron/First.antt =====
-- Next finds the first time that the schedule matches.
use gopherd.Prelude.{
  ℕ, zero, suc, ◌+◌, ◌≤◌, ◌<◌, ltb, Bool, true, false, Option, none, some, if◌then◌else◌, ◌≡◌, refl,
  arith, Bool-cases, inl, inr,
}
use gopherd.Cron.{Schedule}
use gopherd.Cron.Next.{
  Calendar, IsCalendar, search_limit, step_from, search_from, next, matches, continue_with,
}

-- The first match between `t` and `limit`, or that there is none.
abbrev pub IsFirst : Calendar → Schedule → (t limit : ℕ) → Option ℕ → Type 0
IsFirst cal s t limit none = (w : ℕ) → t ≤ w → w ≤ limit → matches cal s w ≡ false
IsFirst cal s t limit (some r) =
    (matches cal s r ≡ true)
    × (t ≤ r)
    × (r ≤ limit)
    × ((w : ℕ) → t ≤ w → w < r → matches cal s w ≡ false)

module _ (cal : Calendar) (s : Schedule) (laws : IsCalendar cal) where
  step_matches : (t : ℕ) → step_from cal s t ≡ none → matches cal s t ≡ true
  step_matches t e = ground arith

  step_later : (t u : ℕ) → step_from cal s t ≡ some u → t < u
  step_later t u e = ground (arith, (laws.months t).0, (laws.days t).0, (laws.hours t).0)

  step_skips :
      (t u : ℕ) → step_from cal s t ≡ some u → (w : ℕ) → t ≤ w → w < u → matches cal s w ≡ false
  step_skips t u e w a b = ground (
    arith,
    (laws.months t).1 w a,
    (laws.days t).1 w a,
    (laws.weekdays t).1 w a,
    (laws.hours t).1 w a,
  )

  continue_with-IsFirst :
      (f limit t : ℕ)
      → t ≤ limit
      → (o : Option ℕ) → step_from cal s t ≡ o
      → ((u : ℕ) → t < u → IsFirst cal s u limit (search_from cal s f limit u))
      → IsFirst cal s t limit (continue_with (search_from cal s f limit) t o)
  continue_with-IsFirst f limit t le none e more =
      (step_matches t e, omega arith, le, λ w a b. absurd (omega arith))
  continue_with-IsFirst f limit t le (some u) e more =
      extend (search_from cal s f limit u) (more u (step_later t u e))
    where
      early : (w : ℕ) → t ≤ w → w < u → matches cal s w ≡ false
      early = step_skips t u e

      extend : (o : Option ℕ) → IsFirst cal s u limit o → IsFirst cal s t limit o
      extend none h = λ w a b. elim (Bool-cases (ltb w u)) [
        | inl x ↦ early w a (ground arith)
        | inr x ↦ h w (ground arith) b
      ]
      extend (some r) (m, a, b, h) = (
        m,
        omega (arith, step_later t u e),
        b,
        λ w c d. elim (Bool-cases (ltb w u)) [
          | inl x ↦ early w c (ground arith)
          | inr x ↦ h w (ground arith) d
        ],
      )

  search_from-IsFirst :
      (f limit t : ℕ) → suc limit ≤ t + f → IsFirst cal s t limit (search_from cal s f limit t)
  unfolding search_from
  search_from-IsFirst zero limit t h = λ w a b. absurd (omega arith)
  search_from-IsFirst (suc f) limit t h =
      ended (ltb limit t) refl (λ u later. search_from-IsFirst f limit u (omega (arith, later, h)))
    where
      ended :
          (b : Bool)
          → ltb limit t ≡ b
          → ((u : ℕ) → t < u → IsFirst cal s u limit (search_from cal s f limit u))
          → IsFirst cal s t limit
              (if b then none else continue_with (search_from cal s f limit) t (step_from cal s t))
      ended true past more = λ w a b. absurd (ground arith)
      ended false e more =
          continue_with-IsFirst f limit t (ground arith) (step_from cal s t) refl more

-- In a location whose clock does not change, Next returns the first time after `after`, up to its
-- limit, whose month, hour and minute the schedule allows and whose day it does: by the day of the month
-- or the day of the week, if both are restricted, and by both otherwise. It returns the zero time exactly
-- if there is no such time. It is assumed that time.Date goes on to the next month, day or hour for values
-- one too far.
pub next-IsFirst :
    (cal : Calendar) (s : Schedule)
    → IsCalendar cal
    → (after : ℕ) → IsFirst cal s (suc after) (search_limit cal after) (next cal s after)
unfolding next
next-IsFirst cal s laws after =
    search_from-IsFirst cal s laws _ (search_limit cal after) (suc after) (omega arith)
