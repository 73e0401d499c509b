-- ===== src/Order/Layers.antt =====
-- `TopoLayers` of internal/order/order.go: the same graph, emitted in layers. The order in which Go
-- goes over a map does not matter, since each layer is sorted.
use gopherd.Prelude.Int.{ℤ, negsuc, decrement, is_zero, is_positive}
use gopherd.Prelude.Maps.{update}
use gopherd.Prelude.{
  ℕ, zero, suc, ◌+◌, ◌≤◌, ltb, Text, Bool, true, false, Option, none, some, List, [], ◌∷◌, ◌++◌,
  if◌then◌else◌, select, sort, length, ◌≡◌, refl, arith,
}
use gopherd.Order.{Service, Result, ok, err, OrderError, cycle, Graph, prepare}

-- The loop over `edges[n]`.
unfoldable pub lower : List Text → (Text → ℤ) → Text → ℤ
lower [] deg = deg
lower (m ∷ ms) deg = lower ms (update deg m (decrement (deg m)))

-- The loop over a layer: -1 marks a service that is emitted.
unfoldable pub drain : (Text → List Text) → List Text → (Text → ℤ) → Text → ℤ
unfolding lower
drain edges [] deg = deg
drain edges (n ∷ layer) deg = drain edges layer (lower (edges n) (update deg n (negsuc 0)))

-- An empty layer, before all are emitted, is an error.
abbrev unless_empty :
    List Text → OrderError → Option (Result (List (List Text))) → Option (Result (List (List Text)))
unless_empty [] e rest = some (err e)
unless_empty (n ∷ ns) e rest = rest

-- The loop over the layers, on fuel: each round emits a service.
unfoldable pub emit :
    ℕ
    → (Text → List Text)
    → List Text
    → (emitted : ℕ) → (Text → ℤ)
    → List (List Text)
    → Option (Result (List (List Text)))
unfolding drain
emit zero edges names emitted deg layers =
    if ltb emitted (length names) then none else some (ok layers)
emit (suc fuel) edges names emitted deg layers =
    let layer = sort (select (λ n. is_zero (deg n)) names) in
    let rest =
      emit fuel edges names (emitted + length layer) (drain edges layer deg)
        (layers ++ layer ∷ []) in
    if ltb emitted (length names)
    then unless_empty layer (cycle (sort (select (λ n. is_positive (deg n)) names))) rest
    else some (ok layers)

unfoldable pub topo_layers : List Service → Option (Result (List (List Text)))
unfolding prepare emit
topo_layers services = elim (prepare services) [
  | err e ↦ some (err e)
  | ok (names, g) ↦ emit (length names) g.edges names 0 g.in_degree []
]

-- The loop ends, since each round adds a service at least to those that are emitted.
emit_total :
    (fuel : ℕ) (edges : Text → List Text) (names : List Text) (emitted : ℕ) (deg : Text → ℤ)
    (layers : List (List Text))
    → length names ≤ emitted + fuel
    → (r : Result (List (List Text))) × (emit fuel edges names emitted deg layers ≡ some r)
unfolding emit
emit_total zero edges names emitted deg layers h = (ok layers, ground arith)
emit_total (suc fuel) edges names emitted deg layers h =
    go (ltb emitted (length names)) (sort (select (λ n. is_zero (deg n)) names))
      (λ e d l p. emit_total fuel edges names e d l p)
  where
    go :
        (b : Bool) (layer : List Text)
        → ((e : ℕ) (d : Text → ℤ) (l : List (List Text))
            → length names ≤ e + fuel
            → (r : Result (List (List Text))) × (emit fuel edges names e d l ≡ some r))
        → (r : Result (List (List Text))) × ((if b
              then unless_empty layer (cycle (sort (select (λ n. is_positive (deg n)) names))) (
                  emit fuel edges names
                    (emitted + length layer)
                    (drain edges layer deg)
                    (layers ++ layer ∷ []))
              else some (ok layers))
            ≡ some r)
    go false layer more = (ok layers, refl)
    go true [] more = (_, refl)
    go true (n ∷ ns) more = more (emitted + length (n ∷ ns)) _ _ (omega (arith, h))

-- The layering always ends: it returns layers or an error on every configuration.
pub topo_layers_total :
    (services : List Service) → (r : Result (List (List Text))) × (topo_layers services ≡ some r)
unfolding topo_layers
topo_layers_total services = go (prepare services)
  where
    go :
        (p : Result (List Text × Graph))
        → (r : Result (List (List Text))) × ((elim p [
          | err e ↦ some (err e)
          | ok (names, g) ↦ emit (length names) g.edges names 0 g.in_degree []
        ])
            ≡ some r)
    go (err e) = (err e, refl)
    go (ok (names, g)) = emit_total (length names) g.edges names 0 g.in_degree [] (omega arith)
