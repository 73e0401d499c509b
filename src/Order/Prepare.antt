-- ===== src/Order/Prepare.antt =====
-- What the first half of both sorts (internal/order/order.go) hands to the second: distinct names,
-- and a graph with exactly the edges that the configuration asks for.
use mathlib.Core.List.{append_assoc, append-nil}
use gopherd.Prelude.Counting.{count, count-append, contains-count, count_head, count_tail}
use gopherd.Prelude.{
  ◌≤◌, ◌<◌, Text, false, List, [], ◌∷◌, ◌++◌, map, contains, ◌≡◌, sym, ◌∙◌, subst, arith,
  Bool-cases, inl, inr,
}
use gopherd.Order.{
  Service, Graph, linked, empty_graph, add_requires, add_service, add_services, collect_names,
  prepare,
}
use gopherd.Order.Build.{
  IsGraph, Extends, OnOk, OnOk-bind, constraints, demands, into, out_of, Extends-nil,
  Extends-append, OnOk-mono, add_after-Extends, add_before-Extends, add_requires-Extends,
  empty_graph-IsGraph,
}

abbrev pub names_of : List Service → List Text
names_of services = map (λ (s : Service). s.name) services

count-snoc_fresh :
    (names : List Text) (m n : Text)
    → ((k : Text) → count k names ≤ 1)
    → contains names m ≡ false
    → count n (names ++ m ∷ []) ≤ 1
unfolding count
count-snoc_fresh names m n h f =
    ground (arith, h n, count-append n names (m ∷ []), contains-count names m)

pub collect_names_lem :
    (services : List Service) (names : List Text)
    → ((n : Text) → count n names ≤ 1)
    → OnOk
        (λ l. (l ≡ names ++ names_of services) × ((n : Text) → count n l ≤ 1))
        (collect_names services names)
unfolding collect_names
collect_names_lem [] names h = (sym (append-nil names), h)
collect_names_lem (s ∷ ss) names h = elim (Bool-cases (contains names s.name)) [
  | inl e ↦ rw e tt
  | inr e ↦ rw e (
      OnOk-mono _ _ _
        (λ l (p : (l ≡ (names ++ s.name ∷ []) ++ names_of ss) × ((n : Text) → count n l ≤ 1)).
          (p.0 ∙ append_assoc names (s.name ∷ []) (names_of ss), p.1))
        (collect_names_lem ss (names ++ s.name ∷ []) (λ n. count-snoc_fresh names s.name n h e)))
]

add_service-Extends :
    (names : List Text) (s : Service) (g : Graph)
    → 0 < count s.name names
    → IsGraph names g
    → OnOk (Extends names g (demands s)) (add_service names s g)
unfolding add_service
add_service-Extends names s g known v =
    OnOk-bind (Extends names g (into s.name s.after)) _ _ _
      (add_after-Extends names s.name known s.after g v)
      (λ a x.
        OnOk-bind (Extends names a (out_of s.name s.before)) _ _ _
          (add_before-Extends names s.name known s.before a x.valid)
          (λ b y.
            OnOk-mono (Extends names b (into s.name s.requires)) (Extends names g (demands s))
              (add_requires names s.name s.requires b)
              (λ c z. Extends-append names g a c _ _ x (Extends-append names a b c _ _ y z))
              (add_requires-Extends names s.name known s.requires b y.valid)))

add_services-Extends :
    (names : List Text) (services : List Service) (g : Graph)
    → ((n : Text) → 0 < count n (names_of services) → 0 < count n names)
    → IsGraph names g
    → OnOk (Extends names g (constraints services)) (add_services names services g)
unfolding add_services
add_services-Extends names [] g known v = Extends-nil names g v
add_services-Extends names (s ∷ ss) g known v =
    OnOk-bind (Extends names g (demands s)) (Extends names g (constraints (s ∷ ss))) _ _
      (add_service-Extends names s g (known s.name (count_head s.name (names_of ss))) v)
      (λ a x.
        OnOk-mono (Extends names a (constraints ss)) (Extends names g (constraints (s ∷ ss)))
          (add_services names ss a) (λ c y. Extends-append names g a c _ _ x y)
          (add_services-Extends names ss a
            (λ n h. known n (omega (arith, count_tail n s.name (names_of ss)))) x.valid))

-- What `prepare` hands on.
pub record IsPrepared (services : List Service) (names : List Text) (g : Graph) : Type 0 where
  pub listed : names ≡ names_of services
  pub distinct : (n : Text) → count n names ≤ 1
  pub graph : IsGraph names g
  pub exact : (u v : Text) → linked g.seen_edge u v ≡ linked (constraints services) u v

to_prepared :
    (services : List Service) (names : List Text) (g : Graph)
    → names ≡ names_of services
    → ((n : Text) → count n names ≤ 1)
    → Extends names empty_graph (constraints services) g
    → IsPrepared services names g
unfolding empty_graph linked
to_prepared services names g e d x = record {
  listed = e;
  distinct = d;
  graph = x.valid;
  exact = λ u v. ground (arith, x.links u v);
}

pub prepare-IsPrepared :
    (services : List Service) → OnOk (λ p. IsPrepared services p.0 p.1) (prepare services)
unfolding prepare count
prepare-IsPrepared services =
    OnOk-bind (λ l. (l ≡ names_of services) × ((n : Text) → count n l ≤ 1)) _ _ _
      (collect_names_lem services [] (λ n. omega arith))
      (λ names p.
        OnOk-bind (Extends names empty_graph (constraints services)) _ _ _
          (add_services-Extends names services empty_graph
            (λ n h. subst (λ l. 0 < count n l) (sym p.0) h) (empty_graph-IsGraph names))
          (λ g x. to_prepared services names g p.0 p.1 x))
