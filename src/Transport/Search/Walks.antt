-- ===== src/Transport/Search/Walks.antt =====
-- What the search is about, apart from its queue: the stops that can be reached from a station, and
-- what it costs.
use mathlib.Core.List.{Memᴰ}
use mathlib.Core.List.Memᴰ
use learncppthroughprojects.Prelude.{
  ℕ, ◌+◌, Bool, true, false, not, >>=-eq-returns, some, List, [], ◌∷◌, Text, ◌≡◌, inl, inr, refl,
  ap, arith, Outcome, returns, ◌>>=◌, Option-cases, Bool-cases, if◌then◌else◌, ◌==◌, eq_iff,
  text_eq,
}
use learncppthroughprojects.Map.{Map, lookup}
use learncppthroughprojects.Transport.Types.{
  RouteEdge, RouteMetadata, StationNode, TransportNetwork,
}
use learncppthroughprojects.Transport.Node.{station_id_to_routes_metadata, get_edge}
use learncppthroughprojects.Transport.Network.{get_station_node, get_passenger_count, edge_pointer}
use learncppthroughprojects.Transport.Pointers.{incoming_pointer}
use learncppthroughprojects.Transport.WellFormed.{IsWellFormed}
use learncppthroughprojects.Transport.Search.{
  GraphStop, first_stop, stop_on, penalty, weight, changes, to_unsigned,
}

-- The neighbors of a station with the routes that go there.
abbrev pub hops : TransportNetwork → StationNode → List (Text × List RouteMetadata)
hops n node = station_id_to_routes_metadata n.edges node.to_station_id_to_edge

-- From a station to the next, on a route.
pub record IsHop (n : TransportNetwork) (from to : Text) (m : RouteMetadata) : Type 0 where
  pub node : StationNode
  pub metadata : List RouteMetadata
  pub is_station : get_station_node from n ≡ some node
  pub is_neighbor : Memᴰ (to, metadata) (hops n node)
  pub is_route : Memᴰ m metadata

-- The metric and the travel time of a hop, with the penalty for a change.
abbrev pub cost : TransportNetwork → Bool → GraphStop → Text → RouteMetadata → Outcome (ℕ × ℕ)
cost n use_distance v to m = weight n use_distance to m.travel_time >>= λ w.
    changes v m >>= λ changed.
    (if changed then weight n use_distance to penalty else returns 0) >>= λ extra.
    returns (w + extra, m.travel_time + (if changed then penalty else 0))

-- The hops from station `a` to a stop, with the sums of their metrics and of their times.
pub data Walk (n : TransportNetwork) (use_distance : Bool) (a : Text)
    : GraphStop → ℕ → ℕ → Type 0 where
  stays : Walk n use_distance a (first_stop a) 0 0
  hop :
      (v : GraphStop) (to : Text) (m : RouteMetadata) (k d w t : ℕ)
      → Walk n use_distance a v k d
      → IsHop n v.station_id to m
      → cost n use_distance v to m ≡ returns (w, t)
      → Walk n use_distance a (stop_on to m) (k + w) (d + t)

lookup-neighbor :
    (edges : List RouteEdge) (mp : Map Text ℕ) (to : Text) (metadata : List RouteMetadata)
    → Memᴰ (to, metadata) (station_id_to_routes_metadata edges mp)
    → (p : ℕ) × (lookup to mp ≡ some p)
unfolding station_id_to_routes_metadata lookup
lookup-neighbor edges [] to metadata h = absurd (Memᴰ.not-nil h)
lookup-neighbor edges ((id, p) ∷ mp) to metadata (Memᴰ.head e) =
    (p, ground (arith, ap (λ x. x.0) e, eq_iff id to))
lookup-neighbor edges ((id, p) ∷ mp) to metadata (Memᴰ.tail h) =
    let (q, found) = lookup-neighbor edges mp to metadata h in
    elim (Bool-cases (id == to)) [ inl e ↦ (p, rw e refl) | inr e ↦ (q, rw e found) ]

-- The parts of a cost.
pub record Parts (n : TransportNetwork) (use_distance : Bool) (v : GraphStop) (to : Text)
    (m : RouteMetadata) (w t : ℕ) : Type 0 where
  pub weighed : ℕ
  pub extra : ℕ
  pub changed : Bool
  pub is_weight : weight n use_distance to m.travel_time ≡ returns weighed
  pub is_change : changes v m ≡ returns changed
  pub is_extra : (if changed then weight n use_distance to penalty else returns 0) ≡ returns extra
  pub metric_sum : weighed + extra ≡ w
  pub time_sum : m.travel_time + (if changed then penalty else 0) ≡ t

pub cost-Parts :
    (n : TransportNetwork) (use_distance : Bool) (v : GraphStop) (to : Text) (m : RouteMetadata)
    (w t : ℕ)
    → cost n use_distance v to m ≡ returns (w, t)
    → Parts n use_distance v to m w t
cost-Parts n use_distance v to m w t h =
    let (weighed, is_weight, h1) =
      >>=-eq-returns (weight n use_distance to m.travel_time) _ {b = (w, t)} h in
    let (changed, is_change, h2) = >>=-eq-returns (changes v m) _ {b = (w, t)} h1 in
    let (extra, is_extra, h3) =
      >>=-eq-returns (if changed then weight n use_distance to penalty else returns 0) _
        {b = (w, t)} h2 in
    record {
      weighed = weighed;
      extra = extra;
      changed = changed;
      is_weight = is_weight;
      is_change = is_change;
      is_extra = is_extra;
      metric_sum = ground (arith, h3);
      time_sum = ground (arith, h3);
    }

-- At a station it returns.
weight-returns :
    (n : TransportNetwork) (use_distance : Bool) (id : Text) (time : ℕ) (node : StationNode)
    → get_station_node id n ≡ some node
    → (w : ℕ) × (weight n use_distance id time ≡ returns w)
unfolding weight get_passenger_count
weight-returns n true id time node h = (time, refl)
weight-returns n false id time node h = (to_unsigned node.passengers, ground (arith, h))

extra-returns :
    (n : TransportNetwork) (use_distance changed : Bool) (id : Text) (node : StationNode)
    → get_station_node id n ≡ some node
    → (x : ℕ) × ((if changed then weight n use_distance id penalty else returns 0) ≡ returns x)
extra-returns n use_distance true id node h = weight-returns n use_distance id penalty node h
extra-returns n use_distance false id node h = (0, refl)

changes-returns :
    (n : TransportNetwork) (use_distance : Bool) (a : Text) (v : GraphStop) (k d : ℕ)
    (m : RouteMetadata)
    → Walk n use_distance a v k d
    → (c : Bool) × (changes v m ≡ returns c)
unfolding changes
changes-returns n use_distance a _ k d m stays = (false, refl)
changes-returns n use_distance a _ k d m (hop v to m' _ _ _ _ walk h _) =
    elim (Bool-cases (m'.route_id == m.route_id)) [
      | inl e ↦ (false, rw e refl)
      | inr e ↦ (not (m'.line_id == m.line_id), rw e refl)
    ]

module _ (n : TransportNetwork) (w : IsWellFormed n) where
  -- A hop leads to a station.
  pub hop-station :
      (from to : Text) (m : RouteMetadata)
      → IsHop n from to m
      → (node : StationNode) × (get_station_node to n ≡ some node)
  unfolding edge_pointer incoming_pointer get_edge
  hop-station from to m h =
      let (p, found) =
        lookup-neighbor n.edges h.node.to_station_id_to_edge to h.metadata h.is_neighbor in
      elim (Option-cases (get_station_node to n)) [
        | inl missing ↦ absurd (ground (arith, w.mirrored from to, missing, found, h.is_station))
        | inr found ↦ found
      ]

  module _ (use_distance : Bool) (a : Text) (home : StationNode)
      (at_home : get_station_node a n ≡ some home) where
    -- A stop that is reached is at a station.
    pub Walk-station :
        (v : GraphStop) (k d : ℕ)
        → Walk n use_distance a v k d
        → (node : StationNode) × (get_station_node v.station_id n ≡ some node)
    Walk-station _ k d stays = (home, at_home)
    Walk-station _ k d (hop v to m _ _ _ _ walk h _) = hop-station v.station_id to m h

    -- From there, no hop throws.
    pub cost-returns :
        (v : GraphStop) (k d : ℕ) (to : Text) (m : RouteMetadata)
        → Walk n use_distance a v k d
        → IsHop n v.station_id to m
        → (w : ℕ) × (t : ℕ) × (cost n use_distance v to m ≡ returns (w, t))
    cost-returns v k d to m walk h =
        let (node, at) = hop-station v.station_id to m h in
        let (weighed, is_weight) = weight-returns n use_distance to m.travel_time node at in
        let (changed, is_change) = changes-returns n use_distance a v k d m walk in
        let (extra, is_extra) = extra-returns n use_distance changed to node at in
        (
          weighed + extra,
          m.travel_time + (if changed then penalty else 0),
          rw (is_weight, is_change, is_extra) refl,
        )
