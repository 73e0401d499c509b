-- ===== src/Order/Build.antt =====
-- What the building of the graph (internal/order/order.go) leaves in its maps.
use gopherd.Prelude.Counting.{count, count-append, contains-count}
use gopherd.Prelude.Int.{pos}
use gopherd.Prelude.{
  ℕ, ◌+◌, ◌<◌, ltb, Text, ◌==◌, true, ◌&&◌, ◌||◌, List, [], ◌∷◌, ◌++◌, map, if◌then◌else◌, contains,
  ◌≡◌, refl, arith, Bool-cases, inl, inr,
}
use gopherd.Order.{
  ◌>>=◌, Service, Graph, Result, ok, err, linked, empty_graph, add_edge, add_after, add_before,
  add_requires,
}

-- How many edges lead from `u` to `n`.
unfoldable pub multiplicity : List (Text × Text) → Text → Text → ℕ
multiplicity [] u n = 0
multiplicity ((a, b) ∷ seen) u n = (if a == u && b == n then 1 else 0) + multiplicity seen u n

-- How many edges lead to `n` from outside of `done`.
unfoldable pub waiting : List (Text × Text) → List Text → Text → ℕ
waiting [] done n = 0
waiting ((a, b) ∷ seen) done n =
    (if b == n then (if ltb 0 (count a done) then 0 else 1) else 0) + waiting seen done n

-- The maps describe the edges, whose ends are names.
pub record IsGraph (names : List Text) (g : Graph) : Type 0 where
  pub edges_counted : (u n : Text) → count n (g.edges u) ≡ multiplicity g.seen_edge u n
  pub degree_counted : (n : Text) → g.in_degree n ≡ pos (waiting g.seen_edge [] n)
  pub from_known : (u v : Text) → linked g.seen_edge u v ≡ true → 0 < count u names
  pub to_known : (u v : Text) → linked g.seen_edge u v ≡ true → 0 < count v names

pub empty_graph-IsGraph : (names : List Text) → IsGraph names empty_graph
unfolding empty_graph multiplicity waiting linked count
empty_graph-IsGraph names = record {
  edges_counted = λ u n. refl;
  degree_counted = λ n. refl;
  from_known = λ u v h. cc;
  to_known = λ u v h. cc;
}

-- What `add_edge` adds.
pub linked-add_edge :
    (a b u v : Text) (g : Graph)
    → linked (add_edge a b g).seen_edge u v ≡ (a == u && b == v || linked g.seen_edge u v)
unfolding add_edge linked
linked-add_edge a b u v g = ground arith

edges-add_edge :
    (a b u n : Text) (g : Graph)
    → ((u n : Text) → count n (g.edges u) ≡ multiplicity g.seen_edge u n)
    → count n ((add_edge a b g).edges u) ≡ multiplicity (add_edge a b g).seen_edge u n
unfolding add_edge multiplicity count
edges-add_edge a b u n g h = ground (arith, h u n, count-append n (g.edges a) (b ∷ []))

degree-add_edge :
    (a b n : Text) (g : Graph)
    → ((n : Text) → g.in_degree n ≡ pos (waiting g.seen_edge [] n))
    → (add_edge a b g).in_degree n ≡ pos (waiting (add_edge a b g).seen_edge [] n)
unfolding add_edge waiting count
degree-add_edge a b n g h = ground (arith, h n, h b)

pub add_edge-IsGraph :
    (names : List Text) (a b : Text) (g : Graph)
    → 0 < count a names
    → 0 < count b names
    → IsGraph names g
    → IsGraph names (add_edge a b g)
add_edge-IsGraph names a b g ha hb v = record {
  edges_counted = λ u n. edges-add_edge a b u n g v.edges_counted;
  degree_counted = λ n. degree-add_edge a b n g v.degree_counted;
  from_known = λ u w h. ground (arith, linked-add_edge a b u w g, v.from_known u w);
  to_known = λ u w h. ground (arith, linked-add_edge a b u w g, v.to_known u w);
}

-- What a successful result satisfies.
abbrev pub OnOk : {A : Type 0} → (A → Type 0) → Result A → Type 0
OnOk P (ok a) = P a
OnOk P (err e) = Unit

pub OnOk-bind :
    {A B : Type 0} (P : A → Type 0) (Q : B → Type 0) (m : Result A) (f : A → Result B)
    → OnOk P m
    → ((a : A) → P a → OnOk Q (f a))
    → OnOk Q (m >>= f)
OnOk-bind P Q (ok a) f h k = k a h
OnOk-bind P Q (err e) f h k = tt

-- The edges that the three lists of a service ask for.
abbrev pub into : Text → List Text → List (Text × Text)
into name deps = map (λ dep. (dep, name)) deps

abbrev pub out_of : Text → List Text → List (Text × Text)
out_of name deps = map (λ dep. (name, dep)) deps

-- The constraints that a service states, and those of a whole configuration: the reading of the
-- three lists with no regard to how the code stores them.
abbrev pub demands : Service → List (Text × Text)
demands s = into s.name s.after ++ (out_of s.name s.before ++ into s.name s.requires)

abbrev pub constraints : List Service → List (Text × Text)
constraints [] = []
constraints (s ∷ ss) = demands s ++ constraints ss

pub linked-append :
    (xs ys : List (Text × Text)) (u v : Text)
    → linked (xs ++ ys) u v ≡ (linked xs u v || linked ys u v)
unfolding linked
linked-append [] ys u v = refl
linked-append ((a, b) ∷ xs) ys u v = ground (arith, linked-append xs ys u v)

-- `g'` is `g` with the edges `es`.
pub record Extends (names : List Text) (g : Graph) (es : List (Text × Text)) (g' : Graph)
    : Type 0 where
  pub valid : IsGraph names g'
  pub links : (u v : Text) → linked g'.seen_edge u v ≡ (linked es u v || linked g.seen_edge u v)

pub Extends-nil : (names : List Text) (g : Graph) → IsGraph names g → Extends names g [] g
unfolding linked
Extends-nil names g v = record { valid = v; links = λ u w. refl }

-- One more edge in front.
Extends-cons :
    (names : List Text) (a b : Text) (es : List (Text × Text)) (g g' : Graph)
    → Extends names (add_edge a b g) es g'
    → Extends names g ((a, b) ∷ es) g'
unfolding linked
Extends-cons names a b es g g' x = record {
  valid = x.valid;
  links = λ u w. ground (arith, x.links u w, linked-add_edge a b u w g);
}

pub Extends-append :
    (names : List Text) (g h k : Graph) (es fs : List (Text × Text))
    → Extends names g es h
    → Extends names h fs k
    → Extends names g (es ++ fs) k
Extends-append names g h k es fs x y = record {
  valid = y.valid;
  links = λ u w. ground (arith, x.links u w, y.links u w, linked-append es fs u w);
}

pub OnOk-mono :
    {A : Type 0} (P Q : A → Type 0) (m : Result A) → ((a : A) → P a → Q a) → OnOk P m → OnOk Q m
OnOk-mono P Q (ok a) f h = f a h
OnOk-mono P Q (err e) f h = tt

contained : (names : List Text) (n : Text) → contains names n ≡ true → 0 < count n names
contained names n h = ground (arith, contains-count names n)

module _ (names : List Text) (name : Text) (known : 0 < count name names) where
  pub add_after-Extends :
      (deps : List Text) (g : Graph)
      → IsGraph names g
      → OnOk (Extends names g (into name deps)) (add_after names name deps g)
  unfolding add_after
  add_after-Extends [] g v = Extends-nil names g v
  add_after-Extends (dep ∷ deps) g v = elim (Bool-cases (contains names dep)) [
    | inl h ↦ rw h (
        OnOk-mono _ _ _ (Extends-cons names dep name (into name deps) g) (
          add_after-Extends deps (add_edge dep name g)
            (add_edge-IsGraph names dep name g (contained names dep h) known v)))
    | inr h ↦ rw h tt
  ]

  pub add_before-Extends :
      (deps : List Text) (g : Graph)
      → IsGraph names g
      → OnOk (Extends names g (out_of name deps)) (add_before names name deps g)
  unfolding add_before
  add_before-Extends [] g v = Extends-nil names g v
  add_before-Extends (dep ∷ deps) g v = elim (Bool-cases (contains names dep)) [
    | inl h ↦ rw h (
        OnOk-mono _ _ _ (Extends-cons names name dep (out_of name deps) g) (
          add_before-Extends deps (add_edge name dep g)
            (add_edge-IsGraph names name dep g known (contained names dep h) v)))
    | inr h ↦ rw h tt
  ]

  pub add_requires-Extends :
      (deps : List Text) (g : Graph)
      → IsGraph names g
      → OnOk (Extends names g (into name deps)) (add_requires names name deps g)
  unfolding add_requires
  add_requires-Extends [] g v = Extends-nil names g v
  add_requires-Extends (dep ∷ deps) g v = elim (Bool-cases (contains names dep)) [
    | inl h ↦ rw h (
        OnOk-mono _ _ _ (Extends-cons names dep name (into name deps) g) (
          add_requires-Extends deps (add_edge dep name g)
            (add_edge-IsGraph names dep name g (contained names dep h) known v)))
    | inr h ↦ rw h tt
  ]
