-- ===== src/Cron.antt =====
-- internal/cron/cron.go: the fields of a cron expression as sets of values. A mask of 64 bits is the
-- function that tells which bits are set.
pub mod Fill
pub mod Steps
pub mod Next
pub mod First
mod Samples
use gopherd.Prelude.Strings.{split_on, split_first, cut, lower, fields_from, atoi, digits_from}
use gopherd.Prelude.Int.{ℤ, pos, negsuc}
use gopherd.Prelude.{
  ℕ, zero, suc, ◌+◌, ◌-◌, ◌^◌, ltb, leb, eqb, Text, codes, ◌==◌, text_discrete, Bool, true, false,
  ◌&&◌, ◌||◌, not, Option, none, some, List, [], ◌∷◌, if◌then◌else◌, length,
}

-- The five fields, in the order of fieldDefs.
pub data Field : Type 0 where
  minutes hours days months weekdays : Field

abbrev pub min_of : Field → ℕ
min_of minutes = 0
min_of hours = 0
min_of days = 1
min_of months = 1
min_of weekdays = 0

abbrev pub max_of : Field → ℕ
max_of minutes = 59
max_of hours = 23
max_of days = 31
max_of months = 12
max_of weekdays = 7

abbrev names_of : Field → List (Text × ℕ)
names_of minutes = []
names_of hours = []
names_of days = []
names_of months =
    (codes "jan", 1)
    ∷ (codes "feb", 2)
    ∷ (codes "mar", 3)
    ∷ (codes "apr", 4)
    ∷ (codes "may", 5)
    ∷ (codes "jun", 6)
    ∷ (codes "jul", 7)
    ∷ (codes "aug", 8)
    ∷ (codes "sep", 9)
    ∷ (codes "oct", 10)
    ∷ (codes "nov", 11)
    ∷ (codes "dec", 12)
    ∷ []
names_of weekdays =
    (codes "sun", 0)
    ∷ (codes "mon", 1)
    ∷ (codes "tue", 2)
    ∷ (codes "wed", 3)
    ∷ (codes "thu", 4)
    ∷ (codes "fri", 5)
    ∷ (codes "sat", 6)
    ∷ []

pub data CronError : Type 0 where
  field_count : ℕ → CronError
  empty_item invalid_step invalid_value value_out_of_range reversed_range : Field → CronError
  step_not_positive : Field → ℤ → CronError
  loop_fuel : CronError

-- A value, or the error.
pub data Parsed {ℓ} (A : Type ℓ) : Type ℓ where
  done : A → Parsed A
  failed : CronError → Parsed A

module _ {ℓ κ} {A : Type ℓ} {B : Type κ} where
  infixl 5 ◌>>=◌
  abbrev pub ◌>>=◌ : Parsed A → (A → Parsed B) → Parsed B
  done a >>= f = f a
  failed e >>= f = failed e

-- The values of def.names, by a key in small letters.
abbrev look_up : Text → List (Text × ℕ) → Option ℕ
look_up s [] = none
look_up s ((name, v) ∷ names) = if name == s then some v else look_up s names

abbrev check_bounds : Field → Option ℤ → Parsed ℕ
check_bounds f none = failed (invalid_value f)
check_bounds f (some (negsuc n)) = failed (value_out_of_range f)
check_bounds f (some (pos v)) =
    if ltb v (min_of f) || ltb (max_of f) v then failed (value_out_of_range f) else done v

abbrev named_or : Option ℕ → Parsed ℕ → Parsed ℕ
named_or (some v) other = done v
named_or none other = other

unfoldable pub parse_value : Field → Text → Parsed ℕ
unfolding lower atoi text_discrete
parse_value f s = named_or (look_up (lower s) (names_of f)) (check_bounds f (atoi s))

-- A uint64 as the set of its bits. A shift by 64 or more, as that by a negative number is, gives 0.
abbrev pub Mask : Type 0
Mask = ℕ → Bool

abbrev pub no_bits : Mask
no_bits n = false

abbrev pub set_bit : ℤ → Mask → Mask
set_bit (pos v) mask n = (ltb v 64 && eqb n v) || mask n
set_bit (negsuc v) mask n = mask n

-- v + step in 64 bits, for a step that is not negative.
abbrev pub add64 : ℤ → ℕ → ℤ
add64 (pos v) step =
    if ltb (v + step) (2 ^ 63) then pos (v + step) else negsuc (2 ^ 64 - 1 - (v + step))
add64 (negsuc v) step = if ltb v step then pos (step - suc v) else negsuc (v - step)

abbrev pub at_most : ℤ → ℕ → Bool
at_most (pos v) hi = leb v hi
at_most (negsuc v) hi = true

-- The loop `for v := lo; v <= hi; v += step`, with `none` if the fuel does not suffice.
unfoldable pub fill : (fuel : ℕ) → ℤ → (hi step : ℕ) → Mask → Option Mask
fill zero v hi step mask = none
fill (suc fuel) v hi step mask =
    let rest = fill fuel (add64 v step) hi step (set_bit v mask) in
    if at_most v hi then rest else some mask

-- Enough for any lo and hi within a mask.
abbrev pub fill_fuel : ℕ
fill_fuel = 70

abbrev step_of : Field → Option ℤ → Parsed ℕ
step_of f none = failed (invalid_step f)
step_of f (some (negsuc n)) = failed (step_not_positive f (negsuc n))
step_of f (some (pos zero)) = failed (step_not_positive f (pos zero))
step_of f (some (pos (suc n))) = done (suc n)

-- The step of an item: what its second part says, if there is one.
unfoldable pub parse_step : Field → Option Text → Parsed ℕ
unfolding atoi
parse_step f none = done 1
parse_step f (some s) = step_of f (atoi s)

abbrev is_star : Text → Bool
is_star s = s == codes "*"

abbrev ordered : Field → ℕ → ℕ → Parsed (ℕ × ℕ)
ordered f lo hi = if ltb hi lo then failed (reversed_range f) else done (lo, hi)

-- The range of an item that is no star: one value, to the maximum if there is a step, or both ends.
abbrev range_of : Field → (has_step : Bool) → Text → Option (Text × Text) → Parsed (ℕ × ℕ)
range_of f has_step s none = parse_value f s >>= λ v. done (v, if has_step then max_of f else v)
range_of f has_step s (some (lo, hi)) =
    parse_value f lo >>= λ l. (parse_value f hi >>= λ h. ordered f l h)

unfoldable pub parse_range : Field → (has_step : Bool) → Text → Parsed (ℕ × ℕ)
unfolding parse_value cut text_discrete
parse_range f has_step s =
    if is_star s then done (min_of f, max_of f) else range_of f has_step s (cut b'-' s)

abbrev filled : Option Mask → Parsed Mask
filled none = failed loop_fuel
filled (some mask) = done mask

-- The bits of an item, added to a mask.
abbrev add_item : Field → (item : Text) → (step : Option Text) → Mask → Parsed Mask
add_item f item step mask = do
  st ← parse_step f step
  r ← parse_range f (elim step [ none ↦ false | some s ↦ true ]) item
  filled (fill fill_fuel (pos (r.0)) (r.1) st mask)

abbrev cut_item : Text → Text × Option Text
cut_item s = elim (cut b'/' s) [ none ↦ (s, none) | some (a, b) ↦ (a, some b) ]

abbrev parse_item : Field → Text → Mask → Parsed Mask
parse_item f [] mask = failed (empty_item f)
parse_item f (c ∷ s) mask = let (item, step) = cut_item (c ∷ s) in add_item f item step mask

unfoldable pub parse_items : Field → List Text → Mask → Parsed Mask
unfolding cut parse_step parse_range fill
parse_items f [] mask = done mask
parse_items f (s ∷ ss) mask = parse_item f s mask >>= parse_items f ss

-- The mask of a field, and whether it is a bare star.
unfoldable pub parse_field : Field → Text → Parsed (Mask × Bool)
unfolding parse_items split_on text_discrete
parse_field f s = parse_items f (split_on b',' s) no_bits >>= λ mask. done (mask, is_star s)

pub record Schedule : Type 0 where
  pub minute : Mask
  pub hour : Mask
  pub dom : Mask
  pub month : Mask
  pub dow : Mask
  pub dom_star : Bool
  pub dow_star : Bool

-- Day 7 is an alias of Sunday.
abbrev pub fold_sunday : Mask → Mask
fold_sunday mask n = if mask 7 then eqb n 0 || (not (eqb n 7) && mask n) else mask n

abbrev schedule_of : (minute hour dom month dow : Mask × Bool) → Schedule
schedule_of mi h d mo w = record {
  minute = mi.0;
  hour = h.0;
  dom = d.0;
  month = mo.0;
  dow = fold_sunday w.0;
  dom_star = d.1;
  dow_star = w.1;
}

unfoldable pub parse_fields : List Text → Parsed Schedule
unfolding parse_field
parse_fields (mi ∷ h ∷ d ∷ mo ∷ w ∷ []) = do
  minute ← parse_field minutes mi
  hour ← parse_field hours h
  dom ← parse_field days d
  month ← parse_field months mo
  dow ← parse_field weekdays w
  done (schedule_of minute hour dom month dow)
parse_fields fields = failed (field_count (length fields))

unfoldable pub parse : Text → Parsed Schedule
unfolding fields_from parse_fields
parse expr = parse_fields (fields_from [] expr)

-- The rule for days, from the day of the month and the day of the week.
abbrev pub day_matches : Schedule → (day weekday : ℕ) → Bool
day_matches s day weekday =
    if not s.dom_star && not s.dow_star
    then s.dom day || s.dow weekday
    else s.dom day && s.dow weekday
