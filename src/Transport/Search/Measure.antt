-- ===== src/Transport/Search/Measure.antt =====
-- Why the search ends: every write lowers a metric, and there are finitely many stops.
use mathlib.Core.List.{Memᴰ}
use mathlib.Core.List.Memᴰ
use learncppthroughprojects.Prelude.{
  ℕ, ◌+◌, ◌*◌, ◌≤◌, ◌<◌, none, some, List, [], ◌∷◌, ◌++◌, Text, ◌≡◌, inl, inr, subst, text_eq, ap,
  arith, map, length, Bool-cases, ◌==◌, eq_iff, eq_refl, u32_mod,
}
use learncppthroughprojects.Map.{Map, lookup, insert, lookup-insert}
use learncppthroughprojects.Transport.Types.{RouteMetadata, StationNode, TransportNetwork}
use learncppthroughprojects.Transport.Network.{get_station_node}
use learncppthroughprojects.Transport.Search.{GraphStop, graph_stop_eq, stop_on, Search}
use learncppthroughprojects.Transport.Search.Walks.{hops, IsHop}

module _ {ℓ κ} {A : Type ℓ} {B : Type κ} where
  abbrev pub concat_map : (A → List B) → List A → List B
  concat_map f [] = []
  concat_map f (x ∷ xs) = f x ++ concat_map f xs

  mem-concat_map :
      (f : A → List B) (xs : List A) {x : A} {y : B}
      → Memᴰ x xs
      → Memᴰ y (f x)
      → Memᴰ y (concat_map f xs)
  mem-concat_map f [] h k = absurd (Memᴰ.not-nil h)
  mem-concat_map f (x ∷ xs) {y} (Memᴰ.head e) k =
      Memᴰ.append_left (concat_map f xs) (subst (λ z. Memᴰ y (f z)) e k)
  mem-concat_map f (x ∷ xs) (Memᴰ.tail h) k = Memᴰ.append_right (f x) (mem-concat_map f xs h k)

  mem-map : (f : A → B) (xs : List A) {x : A} → Memᴰ x xs → Memᴰ (f x) (map f xs)
  mem-map f [] h = absurd (Memᴰ.not-nil h)
  mem-map f (x ∷ xs) (Memᴰ.head e) = Memᴰ.head (ap f e)
  mem-map f (x ∷ xs) (Memᴰ.tail h) = Memᴰ.tail (mem-map f xs h)

-- Every stop that a hop can lead to.
abbrev pub stops_from : TransportNetwork → StationNode → List GraphStop
stops_from n node = concat_map (λ (to, metadata). map (stop_on to) metadata) (hops n node)

abbrev pub all_stops : TransportNetwork → List GraphStop
all_stops n = concat_map (λ (id, node). stops_from n node) n.station_id_to_node

pub mem-lookup :
    (id : Text) (mp : Map Text StationNode) (node : StationNode)
    → lookup id mp ≡ some node
    → Memᴰ (id, node) mp
unfolding lookup
mem-lookup id [] node h = cc
mem-lookup id ((other, first) ∷ mp) node h = elim (Bool-cases (other == id)) [
  | inl e ↦ Memᴰ.head (ground (arith, eq_iff other id))
  | inr e ↦ Memᴰ.tail (mem-lookup id mp node (ground arith))
]

pub IsHop-mem :
    (n : TransportNetwork) (from to : Text) (m : RouteMetadata)
    → IsHop n from to m
    → Memᴰ (stop_on to m) (all_stops n)
unfolding get_station_node
IsHop-mem n from to m h =
    mem-concat_map (λ (id, node). stops_from n node) n.station_id_to_node
      (mem-lookup from n.station_id_to_node h.node h.is_station)
      (mem-concat_map (λ (to, metadata). map (stop_on to) metadata) (hops n h.node) h.is_neighbor
        (mem-map (stop_on to) h.metadata h.is_route))

-- The metric of a stop, where one that has none counts as 2 ^ 32; and the sum over some stops.
abbrev pub metric_or_top : GraphStop → Map GraphStop ℕ → ℕ
metric_or_top v mp = elim (lookup v mp) [ none ↦ u32_mod | some m ↦ m ]

abbrev pub metrics : List GraphStop → Map GraphStop ℕ → ℕ
metrics [] mp = 0
metrics (v ∷ vs) mp = metric_or_top v mp + metrics vs mp

-- The metric at `v` becomes less.
module _ (v : GraphStop) (m : ℕ) (mp : Map GraphStop ℕ) (less : m < metric_or_top v mp) where
  metric_or_top-insert : (u : GraphStop) → metric_or_top u (insert v m mp) ≤ metric_or_top u mp
  metric_or_top-insert u = ground (arith, lookup-insert v u m mp, eq_iff v u, less)

  metrics-insert : (vs : List GraphStop) → metrics vs (insert v m mp) ≤ metrics vs mp
  metrics-insert [] = omega arith
  metrics-insert (u ∷ vs) = omega (arith, metric_or_top-insert u, metrics-insert vs)

  pub metrics-insert_lt :
      (vs : List GraphStop) → Memᴰ v vs → metrics vs (insert v m mp) < metrics vs mp
  metrics-insert_lt [] h = absurd (Memᴰ.not-nil h)
  metrics-insert_lt (u ∷ vs) (Memᴰ.head e) =
      let here : metric_or_top v (insert v m mp) < metric_or_top v mp =
        ground (arith, lookup-insert v v m mp, eq_refl v, less) in
      let at_u = subst (λ z. metric_or_top z (insert v m mp) < metric_or_top z mp) e here in
      omega (arith, at_u, metrics-insert vs)
  metrics-insert_lt (u ∷ vs) (Memᴰ.tail h) =
      omega (arith, metric_or_top-insert u, metrics-insert_lt vs h)

pub metrics-bound :
    (vs : List GraphStop) (mp : Map GraphStop ℕ)
    → ((u : GraphStop) → metric_or_top u mp ≤ u32_mod)
    → metrics vs mp ≤ length vs * u32_mod
metrics-bound [] mp h = omega arith
metrics-bound (u ∷ vs) mp h = omega (arith, h u, metrics-bound vs mp h)

-- What a round of the search makes less.
abbrev pub size : List GraphStop → Search → ℕ
size vs s = 2 * metrics vs s.metric_from_a + length s.nodes_to_visit
