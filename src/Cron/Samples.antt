-- ===== src/Cron/Samples.antt =====
-- Tests and samples for internal/cron: expressions that are parsed and searched for.
use gopherd.Prelude.Int.{pos}
use gopherd.Prelude.{
  ℕ, suc, ◌+◌, ◌-◌, ◌*◌, ◌/◌, ◌%◌, eqb, codes, ◌≡◌, refl, true, false, Bool, some, arith,
}
use gopherd.Cron.{
  Mask, Schedule, no_bits, fill, fill_fuel, parse_field, parse_items, minutes, weekdays, Parsed,
  done, failed,
}
use gopherd.Cron.Steps.{AddsSteps, fill_exact}
use gopherd.Cron.Next.{Calendar, IsCalendar, search_limit, next, search_from}
use gopherd.Cron.First.{IsFirst, next-IsFirst}

abbrev bit_of : Parsed (Mask × Bool) → ℕ → Bool
bit_of (failed e) n = false
bit_of (done m) n = m.0 n

-- A huge step sets bits that the range does not have.
overflowed : bit_of (parse_field minutes (codes "10-20/9223372036854775807")) 8 ≡ true
unfolding parse_field parse_items
overflowed = refl

weekend : bit_of (parse_field weekdays (codes "fri-6,0")) 5 ≡ true
unfolding parse_field parse_items
weekend = refl

fill_exact_example :
    (m : Mask) × (fill fill_fuel (pos 10) 20 3 no_bits ≡ some m) × AddsSteps 10 20 3 no_bits m
fill_exact_example =
    fill_exact 10 20 3 no_bits (omega arith) (omega arith) (omega arith) (omega arith)

-- A calendar whose months have 30 days.
abbrev plain_calendar : Calendar
plain_calendar = record {
  year_of = λ t. t / 518400;
  month_of = λ t. suc (t / 43200 % 12);
  day_of = λ t. suc (t / 1440 % 30);
  weekday_of = λ t. t / 1440 % 7;
  hour_of = λ t. t / 60 % 24;
  minute_of = λ t. t % 60;
  date = λ y m d h n. y * 518400 + (m - 1) * 43200 + (d - 1) * 1440 + h * 60 + n;
  add_years = λ n t. t + n * 518400;
}

plain_calendar-IsCalendar : IsCalendar plain_calendar
plain_calendar-IsCalendar = record {
  months = λ t. (omega arith, λ u a b. omega arith);
  days = λ t. (omega arith, λ u a b. omega arith);
  weekdays = λ t. (omega arith, λ u a b. omega arith);
  hours = λ t. (omega arith, λ u a b. omega arith);
}

-- 04:30 on each day.
abbrev nightly : Schedule
nightly = record {
  minute = λ n. eqb n 30;
  hour = λ n. eqb n 4;
  dom = λ n. true;
  month = λ n. true;
  dow = λ n. true;
  dom_star = true;
  dow_star = true;
}

found : next plain_calendar nightly 300 ≡ some 1710
unfolding next search_from
found = refl

next-IsFirst_example :
    IsFirst plain_calendar nightly 301
      (search_limit plain_calendar 300)
      (next plain_calendar nightly 300)
next-IsFirst_example = next-IsFirst plain_calendar nightly plain_calendar-IsCalendar 300
