-- ===== src/Transport/Network.antt =====
-- `TransportNetwork` of src/transport-network.cpp.
use Prim.Native.Nat.{max}
use learncppthroughprojects.Prelude.{
  ℕ, Bool, true, false, ◌||◌, Option, none, some, List, [], ◌∷◌, Text, Outcome, returns, throws,
  undefined_behaviour, runtime_error, ◌>>=◌, not, set, ◌+◌, get_elem?, if◌then◌else◌, ◌==◌, text_eq,
  nat_eq,
}
use learncppthroughprojects.Prelude.Int.{ℤ, pos, negsuc, ◌+ℤ◌, ◌-ℤ◌}
use learncppthroughprojects.Map.{lookup, insert}
use learncppthroughprojects.Stomp.Stoi.{int_max}
use learncppthroughprojects.Transport.Types.{
  Station, Route, Line, PassengerEvent, PassengerEventType, passenger_in, passenger_out, RouteEdge,
  StationNode, TransportNetwork,
}
use learncppthroughprojects.Transport.Edge.{add_route}
use learncppthroughprojects.Transport.Node.{
  new_node, get_or_make_edge, add_incoming_edge, get_edge, get_node_routes,
}

abbrev pub new_network : TransportNetwork
new_network = record { station_id_to_node = []; edges = [] }

-- `GetStationNode`; `none` is the null pointer.
unfoldable pub get_station_node : Text → TransportNetwork → Option StationNode
get_station_node id n = lookup id n.station_id_to_node

-- A write through a pointer to a node, or to an edge.
unfoldable pub put_node : Text → StationNode → TransportNetwork → TransportNetwork
put_node id node n = record n { station_id_to_node = insert id node n.station_id_to_node }

unfoldable pub put_edge : ℕ → RouteEdge → TransportNetwork → TransportNetwork
put_edge p e n = record n { edges = set n.edges p e }

unfoldable pub add_station : Station → TransportNetwork → Bool × TransportNetwork
add_station station n = elim (get_station_node station.id n) [
  | some _ ↦ (false, n)
  | none ↦ (true, put_node station.id new_node n)
]

-- The body of the loop in `AddLine`, behind the first test: the result `false` is the early return.
-- A null `curNodePt` is dereferenced, since the test before it is of `nodePt`.
unfoldable pub join_stations :
    Text → Text → Text → Text → ℕ → RouteEdge → TransportNetwork → Outcome (Bool × TransportNetwork)
join_stations prev cur route_id line_id p edge n =
    let (success, edge') = add_route route_id line_id edge in
    let n1 = put_edge p edge' n in
    if not success then returns (false, n1) else elim (get_station_node cur n1) [
      | none ↦ undefined_behaviour
      | some node ↦ returns (true, put_node cur (add_incoming_edge prev p node).1 n1)
    ]

-- The call of `GetOrMakeEdge` on the node of `prev`.
unfoldable pub make_edge : Text → Text → StationNode → TransportNetwork → ℕ × TransportNetwork
make_edge prev cur node n =
    let (p, node', edges') = get_or_make_edge cur node n.edges in
    (p, put_node prev node' (record n { edges = edges' }))

unfoldable pub add_stop :
    Text → Text → Text → Text → TransportNetwork → Outcome (Bool × TransportNetwork)
add_stop prev cur route_id line_id n = elim (get_station_node prev n) [
  | none ↦ returns (false, n)
  | some node ↦
      let (p, n1) = make_edge prev cur node n in
      elim (get_elem? n1.edges p) [
        | none ↦ undefined_behaviour
        | some edge ↦ join_stations prev cur route_id line_id p edge n1
      ]
]

-- `if (!success) return false;` before what follows.
abbrev pub on_success :
    Outcome (Bool × TransportNetwork)
    → (TransportNetwork → Outcome (Bool × TransportNetwork))
    → Outcome (Bool × TransportNetwork)
on_success r next =
    r >>= λ (success, n). elim success [ true ↦ next n | false ↦ returns (false, n) ]

-- The loop over the stops of a route, from the stop before `stops`.
unfoldable pub add_stops :
    Text → Text → Text → List Text → TransportNetwork → Outcome (Bool × TransportNetwork)
add_stops route_id line_id prev [] n = returns (true, n)
add_stops route_id line_id prev (cur ∷ stops) n =
    on_success (add_stop prev cur route_id line_id n)
      (λ n1. add_stops route_id line_id cur stops n1)

abbrev pub add_route_stops :
    Route → List Text → TransportNetwork → Outcome (Bool × TransportNetwork)
add_route_stops route [] n = returns (true, n)
add_route_stops route (first ∷ stops) n = add_stops route.id route.line_id first stops n

unfoldable pub add_routes : List Route → TransportNetwork → Outcome (Bool × TransportNetwork)
add_routes [] n = returns (true, n)
add_routes (route ∷ routes) n =
    on_success (add_route_stops route route.stops n) (λ n1. add_routes routes n1)

unfoldable pub add_line : Line → TransportNetwork → Outcome (Bool × TransportNetwork)
add_line line n = add_routes line.routes n

-- `passengers_++` and `passengers_--` on an `int`: an overflow is undefined.
unfoldable pub count_passenger : PassengerEventType → ℤ → Outcome ℤ
count_passenger passenger_in (pos k) =
    if k == int_max then undefined_behaviour else returns (pos (k + 1))
count_passenger passenger_in (negsuc k) = returns (negsuc k +ℤ pos 1)
count_passenger passenger_out (pos k) = returns (pos k -ℤ pos 1)
count_passenger passenger_out (negsuc k) =
    if k == int_max then undefined_behaviour else returns (negsuc (k + 1))

unfoldable pub record_passenger_event :
    PassengerEvent → TransportNetwork → Outcome (Bool × TransportNetwork)
record_passenger_event event n = elim (get_station_node event.station_id n) [
  | none ↦ returns (false, n)
  | some node ↦ count_passenger event.event_type node.passengers >>= λ count.
      returns (true, put_node event.station_id (record node { passengers = count }) n)
]

unfoldable pub get_passenger_count : Text → TransportNetwork → Outcome ℤ
get_passenger_count station n = elim (get_station_node station n) [
  | none ↦ throws runtime_error
  | some node ↦ returns node.passengers
]

unfoldable pub get_routes_serving_station : Text → TransportNetwork → List Text
get_routes_serving_station station n = elim (get_station_node station n) [
  | none ↦ []
  | some node ↦ get_node_routes n.edges node
]

-- The edge between two stations, through the pointers.
unfoldable pub edge_pointer : Text → Text → TransportNetwork → Option ℕ
edge_pointer a b n = elim (get_station_node a n) [ none ↦ none | some node ↦ get_edge b node ]

unfoldable pub set_travel_time_directional :
    Text → Text → ℕ → TransportNetwork → Bool × TransportNetwork
set_travel_time_directional a b time n = elim (edge_pointer a b n) [
  | none ↦ (false, n)
  | some p ↦ (
    true,
    elim (get_elem? n.edges p) [
      | none ↦ n
      | some e ↦ put_edge p (record e { travel_time = time }) n
    ],
  )
]

unfoldable pub set_travel_time : Text → Text → ℕ → TransportNetwork → Bool × TransportNetwork
set_travel_time a b time n =
    let (there, n1) = set_travel_time_directional a b time n in
    let (back, n2) = set_travel_time_directional b a time n1 in (there || back, n2)

unfoldable pub get_travel_time_directional : Text → Text → TransportNetwork → ℕ
get_travel_time_directional a b n = if a == b then 0 else elim (edge_pointer a b n) [
  | none ↦ 0
  | some p ↦ elim (get_elem? n.edges p) [ none ↦ 0 | some e ↦ e.travel_time ]
]

unfoldable pub get_travel_time : Text → Text → TransportNetwork → ℕ
get_travel_time a b n = max (get_travel_time_directional a b n) (get_travel_time_directional b a n)
