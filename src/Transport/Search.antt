-- ===== src/Transport/Search.antt =====
-- The search of `GetOptimalTravelRoute` of src/transport-network.cpp for the stops at a station, and
-- `GraphStop` of inc/network-monitor/transport-network.h.
pub mod Itinerary
pub mod Queue
pub mod Walks
pub mod Measure
pub mod Relaxing
pub mod Visiting
pub mod Shortest
pub mod Ending
pub mod Optimal
pub mod Trails
pub mod Parents
pub mod Storing
pub mod Tracing
pub mod Bounded
pub mod Backwards
pub mod Best
pub mod Fastest
use learncppthroughprojects.Prelude.{
  ℕ, zero, suc, ◌+◌, ◌-◌, ◌*◌, Bool, true, false, not, ◌&&◌, Option, none, some, List, [], ◌∷◌,
  ◌++◌, Text, ◌≡◌, ◌↔◌, refl, arith, Outcome, returns, throws, undefined_behaviour,
  bad_optional_access, ◌>>=◌, for_each, ltb, if◌then◌else◌, Eq, ◌==◌, eq_iff, text_eq, text_beq_iff,
  u32, u32_mod,
}
use learncppthroughprojects.Prelude.Int.{ℤ, pos, negsuc}
use learncppthroughprojects.Map.{Map, lookup, insert}
use learncppthroughprojects.Transport.Types.{
  RouteStep, TravelRoute, RouteMetadata, StationNode, TransportNetwork,
}
use learncppthroughprojects.Transport.Node.{station_id_to_routes_metadata}
use learncppthroughprojects.Transport.Network.{get_station_node, get_passenger_count}

pub record GraphStop : Type 0 where
  pub station_id : Text
  pub route_id : Option Text
  pub line_id : Option Text

abbrev pub id_equal : Option Text → Option Text → Bool
id_equal none none = true
id_equal (some a) (some b) = a == b
id_equal _ _ = false

pub id_equal_iff : (a b : Option Text) → (id_equal a b ≡ true) ↔ (a ≡ b)
id_equal_iff none none = ground arith
id_equal_iff none (some b) = ground arith
id_equal_iff (some a) none = ground arith
id_equal_iff (some a) (some b) = ground (arith, eq_iff a b)

-- `GraphStop::operator==`, and `GraphStopEqual`.
abbrev pub graph_stop_equal : GraphStop → GraphStop → Bool
graph_stop_equal a b =
    a.station_id == b.station_id && id_equal a.route_id b.route_id && id_equal a.line_id b.line_id

pub graph_stop_equal_iff : (a b : GraphStop) → (graph_stop_equal a b ≡ true) ↔ (a ≡ b)
graph_stop_equal_iff a b = ground (
  arith,
  eq_iff a.station_id b.station_id,
  id_equal_iff a.route_id b.route_id,
  id_equal_iff a.line_id b.line_id,
)

instance abbrev pub graph_stop_eq : Eq GraphStop
graph_stop_eq = record { test = graph_stop_equal; decides = graph_stop_equal_iff }

pub record GraphStopMetric : Type 0 where
  pub graph_stop : GraphStop
  pub metric : ℕ

-- `{station, {}, {}}`, and a station that is reached on a route.
abbrev pub first_stop : Text → GraphStop
first_stop a = record { station_id = a; route_id = none; line_id = none }

abbrev pub stop_on : Text → RouteMetadata → GraphStop
stop_on id m = record { station_id = id; route_id = some m.route_id; line_id = some m.line_id }

-- The local variables of the search.
pub record Search : Type 0 where
  pub metric_from_a : Map GraphStop ℕ
  pub distance_from_a : Map GraphStop ℕ
  pub station_id_to_parent : Map GraphStop GraphStop
  pub nodes_to_visit : List GraphStopMetric

abbrev pub penalty : ℕ
penalty = 5

-- The conversion of an `int` to `unsigned int`.
abbrev pub to_unsigned : ℤ → ℕ
to_unsigned (pos k) = u32 k
to_unsigned (negsuc k) = u32 (u32_mod - 1 - u32 k)

-- `useDistance ? time : GetPassengerCount(id)`
unfoldable pub weight : TransportNetwork → Bool → Text → ℕ → Outcome ℕ
weight n use_distance id time =
    if use_distance then returns time else get_passenger_count id n >>= λ k. returns (to_unsigned k)

-- The test for the penalty.
unfoldable pub changes : GraphStop → RouteMetadata → Outcome Bool
changes current m = elim current.route_id [
  | none ↦ returns false
  | some route ↦ if route == m.route_id then returns false else elim current.line_id [
    | none ↦ throws bad_optional_access
    | some line ↦ returns (not (line == m.line_id))
  ]
]

abbrev pub is_better : ℕ → Option ℕ → Bool
is_better metric none = true
is_better metric (some old) = ltb metric old

-- `distances[stop]`, which is 0 for a stop that has none.
abbrev pub distance_of : GraphStop → Search → ℕ
distance_of stop s = elim (lookup stop s.distance_from_a) [ none ↦ 0 | some d ↦ d ]

abbrev pub store : GraphStop → GraphStop → ℕ → ℕ → Search → Search
store current stop metric distance s = record {
  metric_from_a = insert stop metric s.metric_from_a;
  distance_from_a = insert stop distance s.distance_from_a;
  station_id_to_parent = insert stop current s.station_id_to_parent;
  nodes_to_visit = s.nodes_to_visit ++ record { graph_stop = stop; metric = metric } ∷ [];
}

-- The body of the two loops over the neighbors and their routes.
unfoldable pub relax :
    TransportNetwork → Bool → GraphStopMetric → Text → RouteMetadata → Search → Outcome Search
relax n use_distance top id m s = weight n use_distance id m.travel_time >>= λ w.
    changes top.graph_stop m >>= λ changed.
    (if changed then weight n use_distance id penalty else returns 0) >>= λ extra.
    let metric = u32 (u32 (top.metric + w) + extra) in
    let distance =
      u32 (u32 (distance_of top.graph_stop s + m.travel_time) + (if changed then penalty else 0)) in
    returns (
      if is_better metric (lookup (stop_on id m) s.metric_from_a)
      then store top.graph_stop (stop_on id m) metric distance s
      else s)

abbrev pub relax_all :
    TransportNetwork → Bool → GraphStopMetric → Text × List RouteMetadata → Search → Outcome Search
relax_all n use_distance top entry s = for_each (relax n use_distance top entry.0) entry.1 s

unfoldable pub visit : TransportNetwork → Bool → GraphStopMetric → Search → Outcome Search
visit n use_distance top s = elim (get_station_node top.graph_stop.station_id n) [
  | none ↦ undefined_behaviour
  | some node ↦
      for_each (relax_all n use_distance top)
        (station_id_to_routes_metadata n.edges node.to_station_id_to_edge) s
]

-- An entry with the least metric, the first of them, and the others.
unfoldable pub least :
    GraphStopMetric → List GraphStopMetric → GraphStopMetric × List GraphStopMetric
least e [] = (e, [])
least e (f ∷ q) =
    let smaller = ltb f.metric e.metric in
    let rest = least (if smaller then f else e) q in (rest.0, (if smaller then e else f) ∷ rest.1)

-- The loop over the priority queue, for at most `fuel` tests of its condition; `none` if it is still
-- running.
unfoldable pub visit_all : ℕ → TransportNetwork → Bool → Search → Option (Outcome Search)
visit_all zero n use_distance s = none
visit_all (suc fuel) n use_distance s = elim s.nodes_to_visit [
  | [] ↦ some (returns s)
  | e ∷ q ↦
      elim (visit n use_distance (least e q).0 (record s { nodes_to_visit = (least e q).1 })) [
        | returns s1 ↦ visit_all fuel n use_distance s1
        | throws x ↦ some (throws x)
        | undefined_behaviour ↦ some undefined_behaviour
      ]
]

abbrev pub start_search : Text → Search
start_search a = record {
  metric_from_a = (first_stop a, 0) ∷ [];
  distance_from_a = (first_stop a, 0) ∷ [];
  station_id_to_parent = [];
  nodes_to_visit = record { graph_stop = first_stop a; metric = 0 } ∷ [];
}

-- `pathsToB`
unfoldable pub paths_to : Text → Map GraphStop ℕ → List GraphStopMetric
paths_to b [] = []
paths_to b ((stop, metric) ∷ rest) =
    let later = paths_to b rest in
    if stop.station_id == b then record { graph_stop = stop; metric = metric } ∷ later else later

-- The first of `pathsToB`, when it has been sorted.
unfoldable pub nearest : Text → Search → Option GraphStopMetric
nearest b s = elim (paths_to b s.metric_from_a) [ [] ↦ none | e ∷ q ↦ some (least e q).0 ]
