-- ===== src/Prelude/Strings.antt =====
-- Functions of Go's strings package on byte texts.
use Prim.Native.Nat.{ℕ, zero, suc, ◌+◌, ◌-◌, ◌*◌, ◌^◌}
use mathlib.Core.Path.{◌≡◌, refl}
use mathlib.Core.Bool.{Bool, true, false, ◌&&◌, ◌||◌}
use mathlib.Core.Option.{Option, none, some}
use mathlib.Core.List.{List, [], ◌∷◌, ◌++◌}
use gopherd.Prelude.Tests.{ltb, leb, eqb, if◌then◌else◌}
use gopherd.Prelude.Bytes.{Text}
use gopherd.Prelude.Int.{ℤ, pos, negsuc}

abbrev pub has_prefix : Text → Text → Bool
has_prefix [] s = true
has_prefix (c ∷ p) [] = false
has_prefix (c ∷ p) (d ∷ s) = eqb c d && has_prefix p s

-- s[n:], where n is not past the end.
abbrev pub drop : ℕ → Text → Text
drop zero s = s
drop (suc n) [] = []
drop (suc n) (c ∷ s) = drop n s

-- s[:n]
abbrev pub take : ℕ → Text → Text
take zero s = []
take (suc n) [] = []
take (suc n) (c ∷ s) = c ∷ take n s

abbrev pub ends_with : ℕ → Text → Bool
ends_with b [] = false
ends_with b (c ∷ []) = eqb c b
ends_with b (c ∷ d ∷ s) = ends_with b (d ∷ s)

abbrev pub reverse_onto : Text → Text → Text
reverse_onto [] acc = acc
reverse_onto (c ∷ s) acc = reverse_onto s (c ∷ acc)

-- The text without the leading bytes that pass a test, and without the trailing ones.
unfoldable pub trim_left_by : (ℕ → Bool) → Text → Text
trim_left_by p [] = []
trim_left_by p (c ∷ s) = let rest = trim_left_by p s in if p c then rest else c ∷ s

unfoldable pub trim_right_by : (ℕ → Bool) → Text → Text
unfolding trim_left_by
trim_right_by p s = reverse_onto (trim_left_by p (reverse_onto s [])) []

abbrev is_ascii_space : ℕ → Bool
is_ascii_space c = eqb c b' ' || (leb 9 c && leb c 13)

-- The white space of Unicode beyond ASCII, in UTF-8.
abbrev is_space2 : ℕ → ℕ → Bool
is_space2 c d = eqb c 0xc2 && (eqb d 0x85 || eqb d 0xa0)

abbrev is_space3 : ℕ → ℕ → ℕ → Bool
is_space3 c d e =
    eqb c 0xe1 && (eqb d 0x9a && eqb e 0x80)
    || (eqb c 0xe2
          && (eqb d 0x80 && (leb 0x80 e && leb e 0x8a || (eqb e 0xa8 || (eqb e 0xa9 || eqb e 0xaf)))
              || (eqb d 0x81 && eqb e 0x9f))
        || eqb c 0xe3 && (eqb d 0x80 && eqb e 0x80))

-- The text behind the white space at its begin, where the bytes of a character come in this order.
unfoldable pub trim_spaces : (ℕ → ℕ → Bool) → (ℕ → ℕ → ℕ → Bool) → Text → Text
trim_spaces two three [] = []
trim_spaces two three (c ∷ []) = if is_ascii_space c then [] else c ∷ []
trim_spaces two three (c ∷ d ∷ []) =
    let rest = trim_spaces two three (d ∷ []) in
    if is_ascii_space c then rest else if two c d then [] else c ∷ d ∷ []
trim_spaces two three (c ∷ d ∷ e ∷ s) =
    let after_one = trim_spaces two three (d ∷ e ∷ s) in
    let after_two = trim_spaces two three (e ∷ s) in
    let after_three = trim_spaces two three s in
    if is_ascii_space c
    then after_one
    else if two c d
    then after_two
    else if three c d e
    then after_three
    else c ∷ d ∷ e ∷ s

-- strings.TrimSpace
unfoldable pub trim_space : Text → Text
unfolding trim_spaces
trim_space s =
    let back = trim_spaces (λ c d. is_space2 d c) (λ c d e. is_space3 e d c) (reverse_onto s []) in
    trim_spaces is_space2 is_space3 (reverse_onto back [])

-- strings.Split with a separator of one byte: the first part and the others.
unfoldable pub split_first : ℕ → Text → Text × List Text
split_first b [] = ([], [])
split_first b (c ∷ s) =
    let (part, parts) = split_first b s in if eqb c b then ([], part ∷ parts) else (c ∷ part, parts)

unfoldable pub split_on : ℕ → Text → List Text
unfolding split_first
split_on b s = let (part, parts) = split_first b s in part ∷ parts

-- strings.Join
unfoldable pub join : Text → List Text → Text
join sep [] = []
join sep (s ∷ []) = s
join sep (s ∷ t ∷ ts) = s ++ sep ++ join sep (t ∷ ts)

-- strings.ToUpper, as far as it yields ASCII: a dotless i and a long s become I and S.
unfoldable pub upper : Text → Text
upper [] = []
upper (c ∷ []) = (if leb b'a' c && leb c b'z' then c - 32 else c) ∷ []
upper (c ∷ d ∷ s) =
    let wide = upper s in
    let rest = upper (d ∷ s) in
    if leb b'a' c && leb c b'z'
    then (c - 32) ∷ rest
    else if eqb c 0xc4 && eqb d 0xb1
    then b'I' ∷ wide
    else if eqb c 0xc5 && eqb d 0xbf
    then b'S' ∷ wide
    else c ∷ rest

-- strings.ToLower, as far as it yields ASCII: a dotted I and the sign of Kelvin become i and k.
unfoldable pub lower : Text → Text
lower [] = []
lower (c ∷ []) = (if leb b'A' c && leb c b'Z' then c + 32 else c) ∷ []
lower (c ∷ d ∷ []) =
    let rest = lower (d ∷ []) in
    if eqb c 0xc4 && eqb d 0xb0
    then b'i' ∷ []
    else (if leb b'A' c && leb c b'Z' then c + 32 else c) ∷ rest
lower (c ∷ d ∷ e ∷ s) =
    let rest = lower (d ∷ e ∷ s) in
    let wide = lower (e ∷ s) in
    let wider = lower s in
    if eqb c 0xc4 && eqb d 0xb0
    then b'i' ∷ wide
    else if eqb c 0xe2 && (eqb d 0x84 && eqb e 0xaa)
    then b'k' ∷ wider
    else (if leb b'A' c && leb c b'Z' then c + 32 else c) ∷ rest

-- strings.Fields: the parts between white space; `current` is the part that is read.
abbrev add_field : Text → List Text → List Text
add_field [] fs = fs
add_field (c ∷ f) fs = (c ∷ f) ∷ fs

unfoldable pub fields_from : Text → Text → List Text
fields_from current [] = add_field current []
fields_from current (c ∷ []) =
    if is_ascii_space c then add_field current [] else (current ++ c ∷ []) ∷ []
fields_from current (c ∷ d ∷ []) =
    let split = fields_from [] (d ∷ []) in
    let same = fields_from (current ++ c ∷ []) (d ∷ []) in
    if is_ascii_space c
    then add_field current split
    else if is_space2 c d
    then add_field current []
    else same
fields_from current (c ∷ d ∷ e ∷ s) =
    let split = fields_from [] (d ∷ e ∷ s) in
    let split2 = fields_from [] (e ∷ s) in
    let split3 = fields_from [] s in
    let same = fields_from (current ++ c ∷ []) (d ∷ e ∷ s) in
    if is_ascii_space c
    then add_field current split
    else if is_space2 c d
    then add_field current split2
    else if is_space3 c d e
    then add_field current split3
    else same

-- strings.Cut with a separator of one byte.
unfoldable pub cut : ℕ → Text → Option (Text × Text)
cut b [] = none
cut b (c ∷ s) =
    let rest = cut b s in
    if eqb c b then some ([], s) else elim rest [ none ↦ none | some (x, y) ↦ some (c ∷ x, y) ]

-- The digits of a number, in front of which `acc` is read.
unfoldable pub digits_from : ℕ → Text → Option ℕ
digits_from acc [] = some acc
digits_from acc (c ∷ s) =
    let rest = digits_from (acc * 10 + (c - b'0')) s in
    if leb b'0' c && leb c b'9' then rest else none

abbrev magnitude : Text → Option ℕ
magnitude [] = none
magnitude (c ∷ s) = digits_from 0 (c ∷ s)

abbrev int64 : (negative : Bool) → Option ℕ → Option ℤ
int64 negative none = none
int64 false (some n) = if ltb n (2 ^ 63) then some (pos n) else none
int64 true (some zero) = some (pos 0)
int64 true (some (suc n)) = if ltb n (2 ^ 63) then some (negsuc n) else none

-- strconv.Atoi, with `none` for its errors.
unfoldable pub atoi : Text → Option ℤ
unfolding digits_from
atoi [] = none
atoi (c ∷ s) =
    if eqb c b'-'
    then int64 true (magnitude s)
    else if eqb c b'+'
    then int64 false (magnitude s)
    else int64 false (magnitude (c ∷ s))

trimmed :
    trim_space (b' ' ∷ 0xc2 ∷ 0xa0 ∷ b'a' ∷ b' ' ∷ b'b' ∷ 0xe2 ∷ 0x80 ∷ 0x83 ∷ b'\n' ∷ [])
    ≡ b'a' ∷ b' ' ∷ b'b' ∷ []
unfolding trim_space trim_spaces
trimmed = refl

rejoined : join (b',' ∷ []) (split_on b',' (b'a' ∷ b',' ∷ b',' ∷ [])) ≡ b'a' ∷ b',' ∷ b',' ∷ []
unfolding join split_on split_first
rejoined = refl
