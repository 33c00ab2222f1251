-- ===== src/Transport/Search/Parents.antt =====
-- The parents of the stops, and the entries of the queue, between two rounds.
use mathlib.Core.List.{Memᴰ}
use learncppthroughprojects.Prelude.{
  ℕ, ◌+◌, ◌*◌, ◌≤◌, ◌<◌, Bool, some, List, [], Text, ◌≡◌, ◌⊎◌, arith, length, returns, text_eq, u32,
  u32_mod,
}
use learncppthroughprojects.Map.{lookup, IsDistinct}
use learncppthroughprojects.Transport.Types.{RouteMetadata, TransportNetwork}
use learncppthroughprojects.Transport.Search.{
  GraphStop, graph_stop_eq, GraphStopMetric, first_stop, stop_on, Search, distance_of,
}
use learncppthroughprojects.Transport.Search.Walks.{IsHop, cost}
use learncppthroughprojects.Transport.Search.Measure.{all_stops, metrics}
use learncppthroughprojects.Transport.Search.Relaxing.{Lowers}
use learncppthroughprojects.Transport.Search.Trails.{Trail}

-- The maps of the search.
abbrev pub maps_of : Search → Search
maps_of s = record s { nodes_to_visit = [] }

module _ (n : TransportNetwork) (use_distance : Bool) (a : Text) where
  -- A stop with its parent. Either the parent has become nearer since, or the metric, the distance
  -- and the parent are of the same hop, and the parent was stored before.
  pub record Link (rank : GraphStop → ℕ) (s : Search) (v : GraphStop) (m : ℕ) : Type 0 where
    pub parent : GraphStop
    pub to : Text
    pub meta : RouteMetadata
    pub w : ℕ
    pub t : ℕ
    pub parent_metric : ℕ
    pub is_stop : stop_on to meta ≡ v
    pub is_hop : IsHop n parent.station_id to meta
    pub is_cost : cost n use_distance parent to meta ≡ returns (w, t)
    pub is_parent : lookup v s.station_id_to_parent ≡ some parent
    pub is_metric : lookup parent s.metric_from_a ≡ some parent_metric
    pub away : parent.station_id ≡ a → parent ≡ first_stop a
    pub tie :
        (parent_metric + w < m)
        ⊎ ((parent_metric + w ≡ m)
            × (distance_of v s ≡ u32 (distance_of parent s + t))
            × (rank parent < rank v))

  -- `stores` writes have been made, and `rank` counts them.
  pub record Tree (s : Search) : Type 0 where
    pub rank : GraphStop → ℕ
    pub stores : ℕ
    pub linked :
        (v : GraphStop) (m : ℕ)
        → lookup v s.metric_from_a ≡ some m
        → (v ≡ first_stop a) ⊎ Link rank s v m
    pub ranked : (v : GraphStop) (m : ℕ) → lookup v s.metric_from_a ≡ some m → rank v ≤ stores
    pub spent : stores + metrics (all_stops n) s.metric_from_a ≤ length (all_stops n) * u32_mod
    pub origin : lookup (first_stop a) s.metric_from_a ≡ some 0
    pub origin_distance : distance_of (first_stop a) s ≡ 0
    pub keys : IsDistinct s.metric_from_a

  -- An entry of the queue has the metric of a trail, all of whose stops are no farther.
  abbrev pub Covered : Search → List GraphStop → ℕ → Type 0
  Covered s vs k =
      (u : GraphStop) → Memᴰ u vs → (m : ℕ) × (lookup u s.metric_from_a ≡ some m) × (m ≤ k)

  abbrev pub Label : Search → GraphStopMetric → Type 0
  Label s e =
      (vs : List GraphStop) × (d : ℕ) × Trail n use_distance a vs e.graph_stop e.metric d
      × Covered s vs e.metric

  pub Label-Lowers :
      (s s' : Search) (e : GraphStopMetric) → Lowers n use_distance a s s' → Label s e → Label s' e
  Label-Lowers s s' e lowers (vs, d, trail, covered) = (
    vs,
    d,
    trail,
    λ u mem.
        let (m, at, le) = covered u mem in
        let (m', at', le') = lowers u m at in (m', at', omega (arith, le, le')),
  )
