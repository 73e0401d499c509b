-- ===== src/Prelude/Sorting.antt =====
-- Go's `slices.Sort` of strings: by bytes, shorter first on a common prefix.
use mathlib.Core.Path.{◌≡◌, refl}
use mathlib.Core.Bool.{Bool, true, false, ◌||◌}
use mathlib.Core.List.{List, [], ◌∷◌}
use native.Mathlib.Omega.{arith}
use gopherd.Prelude.Tests.{ltb, eqb, if◌then◌else◌}
use gopherd.Prelude.Bytes.{Text}
use gopherd.Prelude.Lists.{any}
use gopherd.Prelude.Counting.{count}

unfoldable pub text_leb : Text → Text → Bool
text_leb [] t = true
text_leb (a ∷ s) [] = false
text_leb (a ∷ s) (b ∷ t) =
    let rest = text_leb s t in if ltb a b then true else if eqb a b then rest else false

insert_sorted : Text → List Text → List Text
insert_sorted x [] = x ∷ []
insert_sorted x (y ∷ ys) =
    let rest = insert_sorted x ys in if text_leb x y then x ∷ y ∷ ys else y ∷ rest

unfoldable pub sort : List Text → List Text
unfolding insert_sorted text_leb
sort [] = []
sort (x ∷ xs) = insert_sorted x (sort xs)

count-insert_sorted :
    (n x : Text) (ys : List Text) → count n (insert_sorted x ys) ≡ count n (x ∷ ys)
unfolding insert_sorted count
count-insert_sorted n x [] = refl
count-insert_sorted n x (y ∷ ys) = ground (arith, count-insert_sorted n x ys)

-- Sorting keeps the texts, each as often.
pub count-sort : (n : Text) (xs : List Text) → count n (sort xs) ≡ count n xs
unfolding sort count
count-sort n [] = refl
count-sort n (x ∷ xs) = ground (arith, count-insert_sorted n x (sort xs), count-sort n xs)

any-insert_sorted :
    (p : Text → Bool) (x : Text) (ys : List Text) → any p (insert_sorted x ys) ≡ (p x || any p ys)
unfolding insert_sorted
any-insert_sorted p x [] = refl
any-insert_sorted p x (y ∷ ys) = ground (arith, any-insert_sorted p x ys)

pub any-sort : (p : Text → Bool) (xs : List Text) → any p (sort xs) ≡ any p xs
unfolding sort
any-sort p [] = refl
any-sort p (x ∷ xs) = ground (arith, any-insert_sorted p x (sort xs), any-sort p xs)
