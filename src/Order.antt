-- ===== src/Order.antt =====
-- internal/order/order.go: the start order of the services, by Kahn's algorithm.
-- `seenEdge`, `edges` and `inDegree` are read by key alone, so two of them are functions and the
-- first is the list of its keys. The head index of the queue is kept by splitting the queue into
-- the part before it, which is the result, and the part from it on.
pub mod Build
pub mod Prepare
pub mod Precedes
pub mod Kahn
pub mod Sound
pub mod Complete
pub mod Layers
use gopherd.Prelude.Int.{ℤ, pos, negsuc, decrement, increment, is_zero, is_positive}
use gopherd.Prelude.Maps.{update}
use gopherd.Prelude.{
  ℕ, zero, suc, ltb, eqb, Text, ◌==◌, Bool, true, false, ◌&&◌, ◌||◌, Option, none, some, List, [],
  ◌∷◌, ◌++◌, map, if◌then◌else◌, select, length, contains, sort,
}

pub record Service : Type 0 where
  pub name : Text
  pub after : List Text
  pub before : List Text
  pub requires : List Text

pub data OrderError : Type 0 where
  duplicate_name : Text → OrderError
  unknown_after unknown_before unknown_requires : (process dep : Text) → OrderError
  cycle : List Text → OrderError

pub data Result (A : Type 0) : Type 0 where
  ok : A → Result A
  err : OrderError → Result A

infixl 5 ◌>>=◌
abbrev pub ◌>>=◌ : {A B : Type 0} → Result A → (A → Result B) → Result B
ok a >>= f = f a
err e >>= f = err e

-- The maps that both sorts build, before their main loops.
pub record Graph : Type 0 where
  pub edges : Text → List Text
  pub in_degree : Text → ℤ
  pub seen_edge : List (Text × Text)

unfoldable pub empty_graph : Graph
empty_graph = record { edges = λ _. []; in_degree = λ _. pos 0; seen_edge = [] }

-- seenEdge[[2]string{u, v}]
unfoldable pub linked : List (Text × Text) → Text → Text → Bool
linked [] u v = false
linked ((a, b) ∷ seen) u v = a == u && b == v || linked seen u v

-- The loop that fills `names`.
unfoldable pub collect_names : List Service → List Text → Result (List Text)
collect_names [] names = ok names
collect_names (s ∷ ss) names =
    if contains names s.name
    then err (duplicate_name s.name)
    else collect_names ss (names ++ s.name ∷ [])

unfoldable pub add_edge : Text → Text → Graph → Graph
unfolding linked
add_edge u v g = if linked g.seen_edge u v then g else record {
  edges = update g.edges u (g.edges u ++ v ∷ []);
  in_degree = update g.in_degree v (increment (g.in_degree v));
  seen_edge = (u, v) ∷ g.seen_edge;
}

-- The loops over `s.After`, `s.Before` and `s.Requires`.
unfoldable pub add_after : List Text → Text → List Text → Graph → Result Graph
unfolding add_edge
add_after names name [] g = ok g
add_after names name (dep ∷ deps) g =
    if contains names dep
    then add_after names name deps (add_edge dep name g)
    else err (unknown_after name dep)

unfoldable pub add_before : List Text → Text → List Text → Graph → Result Graph
unfolding add_edge
add_before names name [] g = ok g
add_before names name (dep ∷ deps) g =
    if contains names dep
    then add_before names name deps (add_edge name dep g)
    else err (unknown_before name dep)

unfoldable pub add_requires : List Text → Text → List Text → Graph → Result Graph
unfolding add_edge
add_requires names name [] g = ok g
add_requires names name (dep ∷ deps) g =
    if contains names dep
    then add_requires names name deps (add_edge dep name g)
    else err (unknown_requires name dep)

unfoldable pub add_service : List Text → Service → Graph → Result Graph
unfolding add_after add_before add_requires
add_service names s g = do
  a ← add_after names s.name s.after g
  b ← add_before names s.name s.before a
  add_requires names s.name s.requires b

unfoldable pub add_services : List Text → List Service → Graph → Result Graph
unfolding add_service
add_services names [] g = ok g
add_services names (s ∷ ss) g = add_service names s g >>= add_services names ss

-- The loop over `edges[node]`: one edge less into each neighbour, which is queued at zero.
unfoldable pub relax : List Text → (Text → ℤ) → List Text → (Text → ℤ) × List Text
relax [] deg queue = (deg, queue)
relax (m ∷ ms) deg queue =
    let deg' = update deg m (decrement (deg m)) in
    relax ms deg' (if is_zero (deg' m) then queue ++ m ∷ [] else queue)

-- The loop over the queue, on fuel: a round for each service is enough.
unfoldable pub kahn :
    ℕ → (Text → List Text) → List Text → List Text → (Text → ℤ) → Option (List Text × (Text → ℤ))
unfolding relax
kahn fuel edges [] result deg = some (result, deg)
kahn zero edges (node ∷ queue) result deg = none
kahn (suc fuel) edges (node ∷ queue) result deg =
    let (deg', queue') = relax (edges node) deg queue in
    kahn fuel edges queue' (result ++ node ∷ []) deg'

-- What follows the loop: all names are placed, or some lie on a cycle.
unfoldable pub conclude : List Text → List Text × (Text → ℤ) → Result (List Text)
conclude names (result, deg) =
    if eqb (length result) (length names)
    then ok result
    else err (cycle (sort (select (λ n. is_positive (deg n)) names)))

unfoldable pub sort_graph : List Service → List Text → Graph → Option (Result (List Text))
unfolding kahn conclude
sort_graph services names g =
    let queue = select (λ n. is_zero (g.in_degree n)) (map (λ (s : Service). s.name) services) in
    elim (kahn (length services) g.edges queue [] g.in_degree) [
      | none ↦ none
      | some final ↦ some (conclude names final)
    ]

-- The names and the graph, or the first error in them.
unfoldable pub prepare : List Service → Result (List Text × Graph)
unfolding collect_names add_services empty_graph
prepare services = do
  names ← collect_names services []
  g ← add_services names services empty_graph
  ok (names, g)

unfoldable pub topo_sort : List Service → Option (Result (List Text))
unfolding prepare sort_graph
topo_sort services = elim (prepare services) [
  | err e ↦ some (err e)
  | ok (names, g) ↦ sort_graph services names g
]
