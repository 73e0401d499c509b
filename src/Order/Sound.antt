-- ===== src/Order/Sound.antt =====
-- What `TopoSort` of internal/order/order.go promises.
use gopherd.Prelude.Counting.{count, count_eq_of_length, count-select}
use gopherd.Prelude.Int.{ℤ, is_zero}
use gopherd.Prelude.{
  ◌+◌, ◌≤◌, eqb, Text, true, List, [], if◌then◌else◌, ◌≡◌, refl, ◌∙◌, subst, arith, inl, inr, ◌⊎◌,
  length, length-map, select, ap, some,
}
use gopherd.Order.{
  Service, Graph, Result, ok, err, OrderError, linked, conclude, sort_graph, prepare, topo_sort,
}
use gopherd.Order.Build.{waiting, constraints, OnOk}
use gopherd.Order.Prepare.{IsPrepared, prepare-IsPrepared, names_of}
use gopherd.Order.Precedes.{precedes}
use gopherd.Order.Kahn.{Inv, kahn-Inv}

-- A start order of a configuration: each service once, and behind all that it has to wait for.
pub record IsStartOrder (services : List Service) (order : List Text) : Type 0 where
  pub once : (n : Text) → count n order ≤ 1
  pub all : (n : Text) → count n order ≡ count n (names_of services)
  pub respects : (u v : Text) → linked (constraints services) u v ≡ true → precedes u v order ≡ true

-- The loop, from the graph that `prepare` hands on: it ends, in its invariant.
pub record IsFinal (services : List Service) (names : List Text) (g : Graph) : Type 0 where
  pub result : List Text
  pub degrees : Text → ℤ
  pub computed : sort_graph services names g ≡ some (conclude names (result, degrees))
  pub inv : Inv g.seen_edge names [] result degrees

start_placed :
    (services : List Service) (names : List Text) (g : Graph) (n : Text)
    → IsPrepared services names g
    → count n [] + count n (select (λ m. is_zero (g.in_degree m)) (names_of services))
      ≡ (if eqb (waiting g.seen_edge [] n) 0 then count n names else 0)
unfolding count
start_placed services names g n p = ground (
  arith,
  count-select n (λ m. is_zero (g.in_degree m)) (names_of services),
  p.graph.degree_counted n,
  ap (count n) p.listed,
)

pub run :
    (services : List Service) (names : List Text) (g : Graph)
    → IsPrepared services names g
    → IsFinal services names g
unfolding sort_graph count
run services names g p =
    let queue = select (λ m. is_zero (g.in_degree m)) (names_of services) in
    let (r, d, e, inv) =
      kahn-Inv g.seen_edge names g.edges p.graph.edges_counted p.graph.to_known p.distinct
        (length services) queue [] g.in_degree
        (record {
          degrees = p.graph.degree_counted;
          placed = λ n. start_placed services names g n p;
          ordered = λ u v l h. absurd (omega arith);
        })
        (omega (arith, ap length p.listed, length-map (λ (s : Service). s.name) services)) in
    record { result = r; degrees = d; computed = rw (e, sort_graph); inv = inv }

-- At the end every name is placed at most as often as it is given.
pub placed_le :
    (services : List Service) (names : List Text) (g : Graph) (f : IsFinal services names g)
    (n : Text)
    → count n f.result ≤ count n names
unfolding count
placed_le services names g f n = ground (arith, f.inv.placed n)

final_order :
    (services : List Service) (names : List Text) (g : Graph) (p : IsPrepared services names g)
    (f : IsFinal services names g)
    → length f.result ≡ length names
    → IsStartOrder services f.result
final_order services names g p f e =
    let same = count_eq_of_length f.result names (placed_le services names g f) (omega arith) in
    record {
      once = λ n. omega (arith, same n, p.distinct n);
      all = λ n. same n ∙ ap (count n) p.listed;
      respects = λ u v l.
          let l' = p.exact u v ∙ l in
          f.inv.ordered u v l' (omega (arith, same v, p.graph.to_known u v l'));
    }

conclude_ok :
    (names r order : List Text) (d : Text → ℤ)
    → conclude names (r, d) ≡ ok order
    → (length r ≡ length names) × (r ≡ order)
unfolding conclude
conclude_ok names r order d h = ground arith

-- Split on what `prepare` returns, with what is known of it.
pub prepare_cases :
    (services : List Service) (x : Result (List Text × Graph))
    → prepare services ≡ x
    → OnOk (λ p. IsPrepared services p.0 p.1) x
prepare_cases services x e =
    subst (OnOk (λ (p : List Text × Graph). IsPrepared services p.0 p.1)) e
      (prepare-IsPrepared services)

pub prepare_split :
    (services : List Service)
    → ((e : OrderError) × (prepare services ≡ err e))
      ⊎ ((names : List Text) × (g : Graph) × (prepare services ≡ ok (names, g)))
prepare_split services = go (prepare services) refl
  where
    go :
        (x : Result (List Text × Graph))
        → prepare services ≡ x
        → ((e : OrderError) × (prepare services ≡ err e))
          ⊎ ((names : List Text) × (g : Graph) × (prepare services ≡ ok (names, g)))
    go (err e) h = inl (e, h)
    go (ok (names, g)) h = inr (names, g, h)

pub topo_sort_of_graph :
    (services : List Service) (names : List Text) (g : Graph)
    → prepare services ≡ ok (names, g)
    → topo_sort services ≡ sort_graph services names g
unfolding topo_sort
topo_sort_of_graph services names g h = rw (h, topo_sort)

pub topo_sort_of_err :
    (services : List Service) (e : OrderError)
    → prepare services ≡ err e
    → topo_sort services ≡ some (err e)
unfolding topo_sort
topo_sort_of_err services e h = rw (h, topo_sort)

-- The sort always ends: it returns an order or an error on every configuration.
pub topo_sort_total :
    (services : List Service) → (r : Result (List Text)) × (topo_sort services ≡ some r)
topo_sort_total services = elim (prepare_split services) [
  | inl (e, h) ↦ (err e, topo_sort_of_err services e h)
  | inr (names, g, h) ↦
      let f = run services names g (prepare_cases services _ h) in
      (conclude names (f.result, f.degrees), topo_sort_of_graph services names g h ∙ f.computed)
]

-- An order that the sort returns names each service once and nothing else, and puts each one behind
-- all that the `after`, `before` and `requires` of the configuration place before it.
pub topo_sort-IsStartOrder :
    (services : List Service) (order : List Text)
    → topo_sort services ≡ some (ok order)
    → IsStartOrder services order
topo_sort-IsStartOrder services order h = elim (prepare_split services) [
  | inl (e, q) ↦ absurd (cc (topo_sort_of_err services e q))
  | inr (names, g, q) ↦
      let p = prepare_cases services _ q in
      let f = run services names g p in
      let (len, same) =
        conclude_ok names f.result order f.degrees
          (cc (topo_sort_of_graph services names g q, f.computed)) in
      subst (IsStartOrder services) same (final_order services names g p f len)
]
