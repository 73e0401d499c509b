-- ===== src/Order/Kahn.antt =====
-- The loop over the queue of internal/order/order.go keeps its invariant.
use gopherd.Prelude.Counting.{count, count-append, length-le_of_count}
use gopherd.Prelude.Int.{ℤ, pos, decrement, is_zero}
use gopherd.Prelude.Maps.{update}
use gopherd.Prelude.{
  ℕ, zero, suc, ◌+◌, ◌-◌, ◌≤◌, ◌<◌, ltb, eqb, Text, ◌==◌, Bool, true, false, ◌&&◌, List, [], ◌∷◌,
  ◌++◌, if◌then◌else◌, ◌≡◌, refl, sym, ◌∙◌, arith, length, some, length-append, text_discrete,
  subst,
}
use gopherd.Order.{linked, relax, kahn}
use gopherd.Order.Precedes.{
  precedes, precedes-append, precedes-snoc, waiting-snoc, waiting_zero, linked_of_multiplicity,
}
use gopherd.Order.Build.{multiplicity, waiting}

-- One round of `relax`, for in-degrees that are numbers.
relax_step :
    (m : Text) (deg : Text → ℤ) (d : Text → ℕ)
    → ((n : Text) → deg n ≡ pos (d n))
    → 0 < d m
    → (n : Text) → update deg m (decrement (deg m)) n ≡ pos (if m == n then d n - 1 else d n)
relax_step m deg d h p n = ground (arith, h n, h m)

relax_bound :
    (m n : Text) (ms : List Text) (k : ℕ)
    → count n (m ∷ ms) ≤ k
    → count n ms ≤ (if m == n then k - 1 else k)
unfolding count
relax_bound m n ms k h = ground arith

relax_head : (m : Text) (ms : List Text) (k : ℕ) → count m (m ∷ ms) ≤ k → 0 < k
unfolding count
relax_head m ms k h = ground arith

relax_queue :
    (m n : Text) (ms queue : List Text) (k : ℕ) (z : Bool)
    → count n (m ∷ ms) ≤ k
    → (m == n ≡ true → z ≡ eqb (k - 1) 0)
    → count n (if z then queue ++ m ∷ [] else queue)
        + (if ltb 0 (count n ms) && eqb (if m == n then k - 1 else k) (count n ms) then 1 else 0)
      ≡ count n queue + (if ltb 0 (count n (m ∷ ms)) && eqb k (count n (m ∷ ms)) then 1 else 0)
unfolding count
relax_queue m n ms queue k true h z = ground (arith, count-append n queue (m ∷ []))
relax_queue m n ms queue k false h z = ground (arith)

zero_test :
    (m n : Text) (deg : Text → ℤ) (d : Text → ℕ)
    → ((n : Text) → deg n ≡ pos (d n))
    → 0 < d m
    → m == n ≡ true
    → is_zero (update deg m (decrement (deg m)) m) ≡ eqb (d n - 1) 0
zero_test m n deg d h p e = ground (arith, h m, h n)

-- `relax` takes the edges off, and queues the neighbours that wait for none of the rest.
pub relax_lem :
    (ms queue : List Text) (deg : Text → ℤ) (d : Text → ℕ)
    → ((n : Text) → deg n ≡ pos (d n))
    → ((n : Text) → count n ms ≤ d n)
    → ((n : Text) → (relax ms deg queue).0 n ≡ pos (d n - count n ms))
      × ((n : Text)
          → count n (relax ms deg queue).1
            ≡ count n queue + (if ltb 0 (count n ms) && eqb (d n) (count n ms) then 1 else 0))
unfolding relax count
relax_lem [] queue deg d h c = (λ n. ground (arith, h n), λ n. ground arith)
relax_lem (m ∷ ms) queue deg d h c =
    let p : 0 < d m = relax_head m ms (d m) (c m) in
    let d' : (Text → ℕ) = λ n. if m == n then d n - 1 else d n in
    let deg' : (Text → ℤ) = update deg m (decrement (deg m)) in
    let (degs, counts) =
      relax_lem ms (if is_zero (deg' m) then queue ++ m ∷ [] else queue) deg' d'
        (relax_step m deg d h p) (λ n. relax_bound m n ms (d n) (c n)) in
    (
      λ n. ground (arith, degs n),
      λ n.
          counts n
          ∙ relax_queue m n ms queue (d n) (is_zero (deg' m)) (c n) (zero_test m n deg d h p),
    )

placed_step :
    (node n : Text) (ms result queue names : List Text) (w w' k : ℕ) (queue' : List Text)
    → count n result + count n (node ∷ queue) ≡ (if eqb w 0 then count n names else 0)
    → count n ms ≡ k
    → w ≡ w' + k
    → count n queue' ≡ count n queue + (if ltb 0 (count n ms) && eqb w (count n ms) then 1 else 0)
    → count n names ≤ 1
    → (0 < k → 0 < count n names)
    → count n (result ++ node ∷ []) + count n queue' ≡ (if eqb w' 0 then count n names else 0)
unfolding count
placed_step node n ms result queue names w w' k queue' p c s q d h =
    ground (arith, count-append n result (node ∷ []))

ordered_step :
    (seen : List (Text × Text)) (node u v : Text) (result : List Text)
    → (linked seen u v ≡ true → 0 < count v result → precedes u v result ≡ true)
    → waiting seen result node ≡ 0
    → linked seen u v ≡ true
    → 0 < count v (result ++ node ∷ [])
    → precedes u v (result ++ node ∷ []) ≡ true
unfolding count
ordered_step seen node u v result old free l h = elim (text_discrete node v) [
  | yes e ↦
      subst (λ x. precedes u v (result ++ x ∷ []) ≡ true) (sym e)
        (precedes-snoc u v result
          (waiting_zero seen result u v (subst (λ x. waiting seen result x ≡ 0) e free) l))
  | no other ↦
      precedes-append u v result (node ∷ [])
        (old l (ground (arith, count-append v result (node ∷ []))))
]

-- Between two rounds: the degrees count what each name still waits for, a name is placed or queued
-- once if it waits for nothing, and what is placed stands behind all that it waits for.
pub record Inv (seen : List (Text × Text)) (names queue result : List Text) (deg : Text → ℤ)
    : Type 0 where
  pub degrees : (n : Text) → deg n ≡ pos (waiting seen result n)
  pub placed :
      (n : Text)
      → count n result + count n queue
        ≡ (if eqb (waiting seen result n) 0 then count n names else 0)
  pub ordered :
      (u v : Text) → linked seen u v ≡ true → 0 < count v result → precedes u v result ≡ true

module _ (seen : List (Text × Text)) (names : List Text) (edges : Text → List Text)
    (counted : (u n : Text) → count n (edges u) ≡ multiplicity seen u n)
    (known : (u v : Text) → linked seen u v ≡ true → 0 < count v names)
    (distinct : (n : Text) → count n names ≤ 1) where
  module _ (node : Text) (queue result : List Text) (deg : Text → ℤ)
      (inv : Inv seen names (node ∷ queue) result deg) where
    node_new : count node result ≡ 0
    unfolding count
    node_new = ground (arith, inv.placed node, distinct node)

    node_free : waiting seen result node ≡ 0
    unfolding count
    node_free = ground (arith, inv.placed node)

    few : (n : Text) → count n (edges node) ≤ waiting seen result n
    few n = omega (arith, counted node n, waiting-snoc seen result node n node_new)

    abbrev after : (Text → ℤ) × List Text
    after = relax (edges node) deg queue

    step_degrees : (n : Text) → after.0 n ≡ pos (waiting seen (result ++ node ∷ []) n)
    step_degrees n = ground (
      arith,
      (relax_lem (edges node) queue deg (waiting seen result) inv.degrees few).0 n,
      counted node n,
      waiting-snoc seen result node n node_new,
    )

    step_placed :
        (n : Text)
        → count n (result ++ node ∷ []) + count n after.1
          ≡ (if eqb (waiting seen (result ++ node ∷ []) n) 0 then count n names else 0)
    step_placed n =
        placed_step node n (edges node) result queue names (waiting seen result n)
          (waiting seen (result ++ node ∷ []) n) (multiplicity seen node n) after.1 (inv.placed n)
          (counted node n) (waiting-snoc seen result node n node_new)
          ((relax_lem (edges node) queue deg (waiting seen result) inv.degrees few).1 n)
          (distinct n) (λ p. known node n (linked_of_multiplicity seen node n p))

    step_ordered :
        (u v : Text)
        → linked seen u v ≡ true
        → 0 < count v (result ++ node ∷ [])
        → precedes u v (result ++ node ∷ []) ≡ true
    step_ordered u v l h = ordered_step seen node u v result (inv.ordered u v) node_free l h

    step-Inv : Inv seen names after.1 (result ++ node ∷ []) after.0
    step-Inv = record { degrees = step_degrees; placed = step_placed; ordered = step_ordered }

    below : (n : Text) → count n (result ++ node ∷ queue) ≤ count n names
    below n = ground (arith, count-append n result (node ∷ queue), inv.placed n)

    -- There is room for `node` among the names.
    room : length result < length names
    room = omega (
      arith,
      length-le_of_count (result ++ node ∷ queue) names below,
      length-append result (node ∷ queue),
    )

  -- A round for each name is enough: the loop ends, with an empty queue.
  pub kahn-Inv :
      (fuel : ℕ) (queue result : List Text) (deg : Text → ℤ)
      → Inv seen names queue result deg
      → length names ≤ fuel + length result
      → (r : List Text) × (d : Text → ℤ) × (kahn fuel edges queue result deg ≡ some (r, d))
        × Inv seen names [] r d
  unfolding kahn
  kahn-Inv fuel [] result deg inv enough = (result, deg, refl, inv)
  kahn-Inv zero (node ∷ queue) result deg inv enough =
      absurd (omega (arith, room node queue result deg inv))
  kahn-Inv (suc fuel) (node ∷ queue) result deg inv enough =
      kahn-Inv fuel (relax (edges node) deg queue).1 (result ++ node ∷ [])
        (relax (edges node) deg queue).0 (step-Inv node queue result deg inv)
        (omega (arith, length-append result (node ∷ [])))
