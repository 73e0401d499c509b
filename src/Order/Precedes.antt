-- ===== src/Order/Precedes.antt =====
-- The order that a start sequence of internal/order/order.go has to keep, and the edges that a
-- service still waits for.
use gopherd.Prelude.Counting.{count, count-append, contains-count}
use gopherd.Prelude.{
  ◌+◌, ◌≤◌, ◌<◌, Text, ◌==◌, Bool, true, false, List, [], ◌∷◌, ◌++◌, if◌then◌else◌, contains, ◌≡◌,
  refl, subst, ==→eq, arith,
}
use gopherd.Order.{linked}
use gopherd.Order.Build.{multiplicity, waiting}

-- `v` stands behind the first `u` of the list.
unfoldable pub precedes : Text → Text → List Text → Bool
precedes u v [] = false
precedes u v (x ∷ xs) = if x == u then contains xs v else precedes u v xs

contains-append :
    (xs ys : List Text) (n : Text) → contains xs n ≡ true → contains (xs ++ ys) n ≡ true
unfolding contains
contains-append [] ys n h = cc
contains-append (x ∷ xs) ys n h = ground (arith, contains-append xs ys n)

pub precedes-append :
    (u v : Text) (xs ys : List Text) → precedes u v xs ≡ true → precedes u v (xs ++ ys) ≡ true
unfolding precedes
precedes-append u v [] ys h = cc
precedes-append u v (x ∷ xs) ys h =
    ground (arith, precedes-append u v xs ys, contains-append xs ys v)

contains-snoc : (xs : List Text) (n : Text) → contains (xs ++ n ∷ []) n ≡ true
unfolding contains
contains-snoc [] n = ground arith
contains-snoc (x ∷ xs) n = ground (arith, contains-snoc xs n)

pub precedes-snoc :
    (u v : Text) (xs : List Text) → 0 < count u xs → precedes u v (xs ++ v ∷ []) ≡ true
unfolding precedes count
precedes-snoc u v [] h = absurd (omega arith)
precedes-snoc u v (x ∷ xs) h = ground (arith, precedes-snoc u v xs, contains-snoc xs v)

-- Both stand in the list.
pub precedes_both :
    (u v : Text) (xs : List Text) → precedes u v xs ≡ true → (0 < count u xs) × (0 < count v xs)
unfolding precedes count
precedes_both u v [] h = cc
precedes_both u v (x ∷ xs) h = ground (arith, precedes_both u v xs, contains-count xs v)

-- In a list of distinct texts, what `x` stands behind is what stands before it.
pub precedes_split :
    (u x : Text) (xs ys : List Text)
    → count x (xs ++ x ∷ ys) ≤ 1
    → precedes u x (xs ++ x ∷ ys) ≡ true
    → 0 < count u xs
unfolding precedes count
precedes_split u x [] ys d h = ground (arith, contains-count ys x, precedes_both u x ys)
precedes_split u x (y ∷ xs) ys d h = ground (arith, precedes_split u x xs ys)

-- Placing `x` takes its edges off.
pub waiting-snoc :
    (seen : List (Text × Text)) (done : List Text) (x n : Text)
    → count x done ≡ 0
    → waiting seen done n ≡ waiting seen (done ++ x ∷ []) n + multiplicity seen x n
unfolding waiting multiplicity count
waiting-snoc [] done x n h = refl
waiting-snoc ((a, b) ∷ seen) done x n h =
    ground (arith, waiting-snoc seen done x n h, count-append a done (x ∷ []))

pub waiting_zero :
    (seen : List (Text × Text)) (done : List Text) (u n : Text)
    → waiting seen done n ≡ 0
    → linked seen u n ≡ true
    → 0 < count u done
unfolding waiting linked
waiting_zero [] done u n w l = cc
waiting_zero ((a, b) ∷ seen) done u n w l = ground (arith, waiting_zero seen done u n)

pub linked_tail :
    (a b u n : Text) (seen : List (Text × Text))
    → linked seen u n ≡ true
    → linked ((a, b) ∷ seen) u n ≡ true
unfolding linked
linked_tail a b u n seen h = ground arith

linked_head : (a b : Text) (seen : List (Text × Text)) → linked ((a, b) ∷ seen) a b ≡ true
unfolding linked
linked_head a b seen = ground arith

waiting_cons :
    (a b n : Text) (seen : List (Text × Text)) (done : List Text)
    → (b == n ≡ true → 0 < count a done)
    → waiting seen done n ≡ 0
    → waiting ((a, b) ∷ seen) done n ≡ 0
unfolding waiting
waiting_cons a b n seen done h w = ground arith

-- A service all of whose predecessors are placed waits for nothing.
pub waiting_of_placed :
    (seen : List (Text × Text)) (done : List Text) (n : Text)
    → ((u : Text) → linked seen u n ≡ true → 0 < count u done)
    → waiting seen done n ≡ 0
unfolding waiting
waiting_of_placed [] done n h = refl
waiting_of_placed ((a, b) ∷ seen) done n h =
    waiting_cons a b n seen done
      (λ e.
        h a (subst (λ k. linked ((a, b) ∷ seen) a k ≡ true) (==→eq b n e) (linked_head a b seen)))
      (waiting_of_placed seen done n (λ u l. h u (linked_tail a b u n seen l)))

pub linked_of_multiplicity :
    (seen : List (Text × Text)) (u n : Text) → 0 < multiplicity seen u n → linked seen u n ≡ true
unfolding multiplicity linked
linked_of_multiplicity [] u n h = absurd (omega arith)
linked_of_multiplicity ((a, b) ∷ seen) u n h = ground (arith, linked_of_multiplicity seen u n)
