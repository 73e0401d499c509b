-- ===== src/Order/Complete.antt =====
-- The sort of internal/order/order.go fails only where no start order exists.
use mathlib.Core.List.{append_assoc, append-nil}
use gopherd.Prelude.Counting.{count, count-append, contains-count, length-le_of_count, count_head}
use gopherd.Prelude.{
  ℕ, ◌≤◌, ◌<◌, Text, true, false, List, [], ◌∷◌, ◌++◌, ◌≡◌, refl, sym, ◌∙◌, subst, arith, length,
  some, ap, contains,
}
use gopherd.Order.{
  Service, Graph, ok, linked, conclude, prepare, topo_sort, add_after, add_before, add_requires,
  add_service, add_services, collect_names, empty_graph,
}
use gopherd.Order.Build.{waiting, constraints, demands, into, out_of, linked-append}
use gopherd.Order.Prepare.{IsPrepared, names_of}
use gopherd.Order.Precedes.{precedes, precedes_both, precedes_split, waiting_of_placed}
use gopherd.Order.Sound.{IsStartOrder, IsFinal, placed_le, run, prepare_cases, topo_sort_of_graph}

placed_snoc :
    (m x : Text) (done result : List Text)
    → ((n : Text) → 0 < count n done → 0 < count n result)
    → 0 < count x result
    → 0 < count m (done ++ x ∷ [])
    → 0 < count m result
unfolding count
placed_snoc m x done result h here k = ground (arith, count-append m done (x ∷ []), h m)

full_count : (n : Text) (a b : ℕ) → a ≤ 1 → (0 < a → 0 < b) → a ≤ b
full_count n a b h k = ground arith

fresh_name :
    (names : List Text) (n : Text) (rest : List Text)
    → count n (names ++ n ∷ rest) ≤ 1
    → contains names n ≡ false
fresh_name names n rest h =
    ground (arith, contains-count names n, count-append n names (n ∷ rest), count_head n rest)

prepare_of :
    (services : List Service) (names : List Text) (g : Graph)
    → collect_names services [] ≡ ok names
    → add_services names services empty_graph ≡ ok g
    → prepare services ≡ ok (names, g)
unfolding prepare
prepare_of services names g en eg = rw en (rw eg)

module _ (services : List Service) (names order : List Text) (g : Graph)
    (p : IsPrepared services names g) (f : IsFinal services names g)
    (valid : IsStartOrder services order) where
  given : (n : Text) → count n order ≡ count n names
  given n = valid.all n ∙ sym (ap (count n) p.listed)

  placed_of_free :
      (n : Text) → 0 < count n names → waiting g.seen_edge f.result n ≡ 0 → 0 < count n f.result
  unfolding count
  placed_of_free n h w = ground (arith, f.inv.placed n)

  -- Along a start order, every service gets placed.
  placed_along :
      (done rest : List Text)
      → order ≡ done ++ rest
      → ((n : Text) → 0 < count n done → 0 < count n f.result)
      → (n : Text) → 0 < count n (done ++ rest)
      → 0 < count n f.result
  unfolding count
  placed_along done [] e h n c = h n (omega (arith, count-append n done []))
  placed_along done (x ∷ rest) e h n c =
      let once : count x (done ++ x ∷ rest) ≤ 1 = subst (λ l. count x l ≤ 1) e (valid.once x) in
      let free : waiting g.seen_edge f.result x ≡ 0 =
        waiting_of_placed g.seen_edge f.result x (λ u l. h u (
          precedes_split u x done rest once
            (subst (λ l. precedes u x l ≡ true) e (valid.respects u x (sym (p.exact u x) ∙ l))))) in
      let here : 0 < count x f.result =
        placed_of_free x
          (omega
            (arith, given x, ap (count x) e, count-append x done (x ∷ rest), count_head x rest))
          free in
      placed_along (done ++ x ∷ []) rest (e ∙ sym (append_assoc done (x ∷ []) rest))
        (λ m k. placed_snoc m x done f.result h here k) n
        (subst (λ l. 0 < count n l) (sym (append_assoc done (x ∷ []) rest)) c)

  final_full : length f.result ≡ length names
  unfolding count
  final_full = omega (
    arith,
    length-le_of_count f.result names (placed_le services names g f),
    length-le_of_count names f.result (λ n.
        full_count n (count n names) (count n f.result) (p.distinct n) (λ k.
          placed_along [] order refl (λ m h. absurd (omega arith)) n (omega (arith, given n)))),
  )

  pub conclude_full : conclude names (f.result, f.degrees) ≡ ok f.result
  unfolding conclude
  conclude_full = ground (arith, final_full)

-- The ends of the edges are names.
abbrev Known : List Text → List (Text × Text) → Type 0
Known names es = (u v : Text) → linked es u v ≡ true → (0 < count u names) × (0 < count v names)

Known-left :
    (names : List Text) (es fs : List (Text × Text)) → Known names (es ++ fs) → Known names es
Known-left names es fs k u v l = k u v (ground (arith, linked-append es fs u v))

Known-right :
    (names : List Text) (es fs : List (Text × Text)) → Known names (es ++ fs) → Known names fs
Known-right names es fs k u v l = k u v (ground (arith, linked-append es fs u v))

Known-head :
    (names : List Text) (a b : Text) (es : List (Text × Text))
    → Known names ((a, b) ∷ es)
    → (contains names a ≡ true) × (contains names b ≡ true)
unfolding linked
Known-head names a b es k = ground (arith, k a b, contains-count names a, contains-count names b)

Known-tail :
    (names : List Text) (a b : Text) (es : List (Text × Text))
    → Known names ((a, b) ∷ es)
    → Known names es
unfolding linked
Known-tail names a b es k u v l = k u v (ground arith)

module _ (names : List Text) (name : Text) where
  add_after-Known :
      (deps : List Text) (g : Graph)
      → Known names (into name deps)
      → (g' : Graph) × (add_after names name deps g ≡ ok g')
  unfolding add_after
  add_after-Known [] g k = (g, refl)
  add_after-Known (dep ∷ deps) g k =
      rw (Known-head names dep name (into name deps) k).0
        (add_after-Known deps _ (Known-tail names dep name (into name deps) k))

  add_before-Known :
      (deps : List Text) (g : Graph)
      → Known names (out_of name deps)
      → (g' : Graph) × (add_before names name deps g ≡ ok g')
  unfolding add_before
  add_before-Known [] g k = (g, refl)
  add_before-Known (dep ∷ deps) g k =
      rw (Known-head names name dep (out_of name deps) k).1
        (add_before-Known deps _ (Known-tail names name dep (out_of name deps) k))

  add_requires-Known :
      (deps : List Text) (g : Graph)
      → Known names (into name deps)
      → (g' : Graph) × (add_requires names name deps g ≡ ok g')
  unfolding add_requires
  add_requires-Known [] g k = (g, refl)
  add_requires-Known (dep ∷ deps) g k =
      rw (Known-head names dep name (into name deps) k).0
        (add_requires-Known deps _ (Known-tail names dep name (into name deps) k))

add_service-Known :
    (names : List Text) (s : Service) (g : Graph)
    → Known names (demands s)
    → (g' : Graph) × (add_service names s g ≡ ok g')
unfolding add_service
add_service-Known names s g k =
    let r = Known-right names (into s.name s.after) _ k in
    let (a, ea) = add_after-Known names s.name s.after g (Known-left names _ _ k) in
    let (b, eb) = add_before-Known names s.name s.before a (Known-left names _ _ r) in
    let (c, ec) =
      add_requires-Known names s.name s.requires b
        (Known-right names (out_of s.name s.before) _ r) in
    (c, rw ea (rw eb ec))

add_services-Known :
    (names : List Text) (services : List Service) (g : Graph)
    → Known names (constraints services)
    → (g' : Graph) × (add_services names services g ≡ ok g')
unfolding add_services
add_services-Known names [] g k = (g, refl)
add_services-Known names (s ∷ ss) g k =
    let (a, ea) = add_service-Known names s g (Known-left names _ _ k) in
    let (b, eb) = add_services-Known names ss a (Known-right names (demands s) _ k) in (b, rw ea eb)

collect_names_distinct :
    (services : List Service) (names : List Text)
    → ((n : Text) → count n (names ++ names_of services) ≤ 1)
    → collect_names services names ≡ ok (names ++ names_of services)
unfolding collect_names
collect_names_distinct [] names d = ap ok (sym (append-nil names))
collect_names_distinct (s ∷ ss) names d = rw (fresh_name names s.name (names_of ss) (d s.name)) (
    collect_names_distinct ss (names ++ s.name ∷ [])
      (λ n. subst (λ l. count n l ≤ 1) (sym (append_assoc names (s.name ∷ []) (names_of ss))) (d n))
    ∙ ap ok (append_assoc names (s.name ∷ []) (names_of ss)))

Known-of_order :
    (services : List Service) (order : List Text)
    → IsStartOrder services order
    → Known (names_of services) (constraints services)
Known-of_order services order v u w l =
    ground (arith, precedes_both u w order (v.respects u w l), v.all u, v.all w)

-- If a start order of the configuration exists at all, the sort returns an order.
pub topo_sort_complete :
    (services : List Service) (order : List Text)
    → IsStartOrder services order
    → (found : List Text) × (topo_sort services ≡ some (ok found))
topo_sort_complete services order v =
    let names = names_of services in
    let known : Known names (constraints services) = Known-of_order services order v in
    let (g, eg) = add_services-Known names services empty_graph known in
    let en : collect_names services [] ≡ ok names =
      collect_names_distinct services [] (λ n. omega (arith, v.once n, v.all n)) in
    let q : prepare services ≡ ok (names, g) = prepare_of services names g en eg in
    let p = prepare_cases services _ q in
    let f = run services names g p in
    (
      f.result,
      topo_sort_of_graph services names g q
          ∙ f.computed
          ∙ ap some (conclude_full services names order g p f v),
    )
