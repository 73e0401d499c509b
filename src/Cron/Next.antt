-- ===== src/Cron/Next.antt =====
-- The search of Next over a calendar. Times are whole minutes, counted from some begin; the calendar,
-- Go's package time in the location of `after`, is a parameter.
use gopherd.Prelude.{
  ℕ, zero, suc, ◌+◌, ◌-◌, ◌≤◌, ◌<◌, ltb, Bool, ◌&&◌, ◌||◌, not, Option, none, some, if◌then◌else◌,
  ◌≡◌,
}
use gopherd.Cron.{Schedule, day_matches}

-- Package time in a location: the parts of a time, the time that time.Date makes of a year, a month, a
-- day, an hour and a minute, with its rule for values outside their ranges, and AddDate for years alone.
pub record Calendar : Type 0 where
  pub year_of : ℕ → ℕ
  pub month_of : ℕ → ℕ
  pub day_of : ℕ → ℕ
  pub weekday_of : ℕ → ℕ
  pub hour_of : ℕ → ℕ
  pub minute_of : ℕ → ℕ
  pub date : (year month day hour minute : ℕ) → ℕ
  pub add_years : (years : ℕ) → ℕ → ℕ

-- The times that Next jumps to.
abbrev pub next_month : Calendar → ℕ → ℕ
next_month cal t = cal.date (cal.year_of t) (cal.month_of t + 1) 1 0 0

abbrev pub next_day : Calendar → ℕ → ℕ
next_day cal t = cal.date (cal.year_of t) (cal.month_of t) (cal.day_of t + 1) 0 0

abbrev pub next_hour : Calendar → ℕ → ℕ
next_hour cal t = cal.date (cal.year_of t) (cal.month_of t) (cal.day_of t) (cal.hour_of t + 1) 0

-- nextLimitYears
abbrev pub next_limit_years : ℕ
next_limit_years = 9

-- The end of the search.
abbrev pub search_limit : Calendar → ℕ → ℕ
search_limit cal after = cal.add_years next_limit_years after

-- What Next does at a time: go on with a later one, or return it.
abbrev day_ok : Calendar → Schedule → ℕ → Bool
day_ok cal s t = day_matches s (cal.day_of t) (cal.weekday_of t)

abbrev pub step_from : Calendar → Schedule → ℕ → Option ℕ
step_from cal s t =
    if not (s.month (cal.month_of t))
    then some (next_month cal t)
    else if not (day_ok cal s t)
    then some (next_day cal t)
    else if not (s.hour (cal.hour_of t))
    then some (next_hour cal t)
    else if not (s.minute (cal.minute_of t))
    then some (suc t)
    else none

-- The loop, with `none` for the zero time, and `more` for the rounds behind.
abbrev pub continue_with : (ℕ → Option ℕ) → ℕ → Option ℕ → Option ℕ
continue_with more t none = some t
continue_with more t (some u) = more u

unfoldable pub search_from : Calendar → Schedule → (fuel limit : ℕ) → ℕ → Option ℕ
search_from cal s zero limit t = none
search_from cal s (suc fuel) limit t =
    if ltb limit t then none else continue_with (search_from cal s fuel limit) t (step_from cal s t)

-- The search begins a minute later, seconds stripped; each round gets later by a minute at least.
unfoldable pub next : Calendar → Schedule → (after : ℕ) → Option ℕ
unfolding search_from
next cal s after =
    search_from cal s (suc (search_limit cal after) - after) (search_limit cal after) (suc after)

-- The rule for days: if the schedule restricts both the day of the month and the day of the week, one of
-- them is enough, otherwise both must allow the day.
abbrev pub is_due_on : Schedule → (day weekday : ℕ) → Bool
is_due_on s day weekday =
    if s.dom_star || s.dow_star then s.dom day && s.dow weekday else s.dom day || s.dow weekday

-- The fields for the month, the hour and the minute allow the time, and the rule for days does.
abbrev pub matches : Calendar → Schedule → ℕ → Bool
matches cal s t =
    s.month (cal.month_of t)
    && (is_due_on s (cal.day_of t) (cal.weekday_of t)
        && (s.hour (cal.hour_of t) && s.minute (cal.minute_of t)))

-- A jump goes to a later time, and the times before it agree in the part of the date.
abbrev Jumps : (ℕ → ℕ) → (ℕ → ℕ) → Type 0
Jumps jump part = (t : ℕ) → (t < jump t) × ((u : ℕ) → t ≤ u → u < jump t → part u ≡ part t)

-- What Next relies on, in a location without changes of the clock: what time.Date makes of a month, a
-- day or an hour one too far is the begin of the one that follows, and until then these parts stay.
pub record IsCalendar (cal : Calendar) : Type 0 where
  pub months : Jumps (next_month cal) (cal.month_of)
  pub days : Jumps (next_day cal) (cal.day_of)
  pub weekdays : Jumps (next_day cal) (cal.weekday_of)
  pub hours : Jumps (next_hour cal) (cal.hour_of)
