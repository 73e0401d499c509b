-- ===== src/Prelude/Counting.antt =====
-- How often a text stands in a list, and what that says of two lists.
use Prim.Native.Nat.{ℕ, suc, ◌+◌, ◌≤◌, ◌<◌}
use mathlib.Core.Path.{◌≡◌, refl}
use mathlib.Core.Bool.{Bool, true, false}
use mathlib.Core.List.{List, [], ◌∷◌, ◌++◌}
use native.Mathlib.Omega.{arith}
use gopherd.Prelude.Tests.{ltb, if◌then◌else◌}
use gopherd.Prelude.Bytes.{Text, ◌==◌}
use gopherd.Prelude.Lists.{length, select}

unfoldable pub count : Text → List Text → ℕ
count n [] = 0
count n (x ∷ xs) = (if x == n then 1 else 0) + count n xs

unfoldable pub contains : List Text → Text → Bool
contains [] n = false
contains (x ∷ xs) n = if x == n then true else contains xs n

-- A text is contained exactly when it is counted.
pub contains-count : (xs : List Text) (n : Text) → contains xs n ≡ ltb 0 (count n xs)
unfolding contains count
contains-count [] n = refl
contains-count (x ∷ xs) n = ground (arith, contains-count xs n)

pub count-append : (n : Text) (xs ys : List Text) → count n (xs ++ ys) ≡ count n xs + count n ys
unfolding count
count-append n [] ys = omega arith
count-append n (x ∷ xs) ys = omega (arith, count-append n xs ys)

pub count-select :
    (n : Text) (p : Text → Bool) (xs : List Text)
    → count n (select p xs) ≡ (if p n then count n xs else 0)
unfolding count
count-select n p [] = ground arith
count-select n p (x ∷ xs) = ground (arith, count-select n p xs)

-- Without the first occurrence.
take_out : Text → List Text → List Text
take_out n [] = []
take_out n (x ∷ xs) = if x == n then xs else x ∷ take_out n xs

length-take_out :
    (n : Text) (xs : List Text) → 0 < count n xs → suc (length (take_out n xs)) ≡ length xs
unfolding take_out count
length-take_out n [] h = absurd (omega arith)
length-take_out n (x ∷ xs) h = ground (arith, length-take_out n xs)

count-take_out :
    (m n : Text) (xs : List Text)
    → 0 < count n xs
    → count m (take_out n xs) + (if n == m then 1 else 0) ≡ count m xs
unfolding take_out count
count-take_out m n [] h = absurd (omega arith)
count-take_out m n (x ∷ xs) h = ground (arith, count-take_out m n xs)

-- What is left after `n` is taken out of both sides.
take_out_mono :
    (n m : Text) (xs ys : List Text)
    → count m (n ∷ xs) ≤ count m ys
    → 0 < count n ys
    → count m xs ≤ count m (take_out n ys)
unfolding count
take_out_mono n m xs ys h has = ground (arith, count-take_out m n ys has)

pub count_head : (x : Text) (xs : List Text) → 0 < count x (x ∷ xs)
unfolding count
count_head x xs = ground arith

pub count_tail : (n x : Text) (xs : List Text) → count n xs ≤ count n (x ∷ xs)
unfolding count
count_tail n x xs = omega arith

-- A list whose every text stands in another at least as often is no longer than that.
pub length-le_of_count :
    (xs ys : List Text) → ((n : Text) → count n xs ≤ count n ys) → length xs ≤ length ys
length-le_of_count [] ys h = omega arith
length-le_of_count (x ∷ xs) ys h =
    let has : 0 < count x ys = omega (arith, h x, count_head x xs) in
    omega (
      arith,
      length-take_out x ys has,
      length-le_of_count xs (take_out x ys) (λ m. take_out_mono x m xs ys (h m) has),
    )

count_eq_cons :
    (x n : Text) (xs ys : List Text)
    → count n xs ≡ count n (take_out x ys)
    → 0 < count x ys
    → count n (x ∷ xs) ≡ count n ys
unfolding count
count_eq_cons x n xs ys e has = ground (arith, count-take_out n x ys has)

-- If it is no shorter either, the two hold the same texts as often.
pub count_eq_of_length :
    (xs ys : List Text)
    → ((n : Text) → count n xs ≤ count n ys)
    → length ys ≤ length xs
    → (n : Text) → count n xs ≡ count n ys
count_eq_of_length [] [] h l n = refl
count_eq_of_length [] (y ∷ ys) h l n = absurd (omega arith)
count_eq_of_length (x ∷ xs) ys h l n =
    let has : 0 < count x ys = omega (arith, h x, count_head x xs) in
    count_eq_cons x n xs ys
      (count_eq_of_length xs (take_out x ys) (λ m. take_out_mono x m xs ys (h m) has)
        (omega (arith, length-take_out x ys has)) n)
      has
