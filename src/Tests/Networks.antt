-- ===== src/Tests/Networks.antt =====
-- Small networks, and the properties of `TransportNetwork` applied to them.
use mathlib.Core.List.{Memᴰ}
use mathlib.Core.List.Memᴰ
use learncppthroughprojects.Prelude.{
  some, ◌>>=◌, Bool, true, false, [], ◌∷◌, Text, codes, ◌≡◌, ◌≢◌, ◌↔◌, refl, map, arith, Outcome,
  returns, throws, undefined_behaviour, text_eq, text_beq, elem, text_beq_iff, ap, get_elem?, ap,
  get_elem?,
}
use learncppthroughprojects.Prelude.Int.{◌+ℤ◌}
use learncppthroughprojects.Map.{lookup, insert}
use learncppthroughprojects.Transport.Types.{
  Station, Route, TravelRoute, Line, PassengerEvent, passenger_in, passenger_out, TransportNetwork,
  RouteEdge, StationNode,
}
use learncppthroughprojects.Transport.Compare.{
  travel_route_equal, line_equal, forget_line, line_equal_iff, travel_route_equal_iff,
  travel_route_equal-undefined_behaviour,
}
use learncppthroughprojects.Transport.Edge.{
  routes_of_line, has_route, add_route, concat_routes, get_routes,
}
use learncppthroughprojects.Transport.Node.{
  new_node, get_or_make_edge, add_incoming_edge, get_edge, get_node_routes, emplace_all,
  emplace_edges,
}
use learncppthroughprojects.Transport.Network.{
  get_passenger_count, new_network, get_station_node, put_node, put_edge, add_station, make_edge,
  join_stations, add_stop, add_stops, add_routes, add_line, count_passenger, record_passenger_event,
  get_routes_serving_station, edge_pointer, set_travel_time_directional, set_travel_time,
  get_travel_time,
}
use learncppthroughprojects.Transport.WellFormed.{IsWellFormed}
use learncppthroughprojects.Transport.Reachable.{
  Reachable, fresh, step, station, line, event, Reachable-IsWellFormed,
}
use learncppthroughprojects.Transport.Lines.{add_line-returns, add_line-unknown}
use learncppthroughprojects.Transport.LineServes.{get_routes_serving_station-add_line}
use learncppthroughprojects.Transport.Passengers.{
  record_all, balance, Within, get_passenger_count-record_all,
}
use learncppthroughprojects.Transport.Ride.{
  GoesOn, travel_time_along, arrived, rides, travel_time_along-Leads,
}
use learncppthroughprojects.Transport.Loading.{
  load, load_stations, load_lines, load_travel_times, load-IsWellFormed,
}
use learncppthroughprojects.Transport.TravelTime.{get_travel_time-set_travel_time}

abbrev pub station_a : Station
station_a = record { id = codes "a"; name = codes "A" }

abbrev pub station_b : Station
station_b = record { id = codes "b"; name = codes "B" }

abbrev route_ab : Route
route_ab = record {
  id = codes "r";
  direction = codes "inbound";
  line_id = codes "l";
  start_station_id = codes "a";
  end_station_id = codes "b";
  stops = codes "a" ∷ codes "b" ∷ [];
}

-- A route to a station that no network here has.
abbrev route_ac : Route
route_ac = record route_ab { end_station_id = codes "c"; stops = codes "a" ∷ codes "c" ∷ [] }

abbrev pub line_ab : Line
line_ab = record { id = codes "l"; name = codes "L"; routes = route_ab ∷ [] }

abbrev line_ac : Line
line_ac = record { id = codes "l"; name = codes "L"; routes = route_ac ∷ [] }

abbrev pub two_stations : TransportNetwork
two_stations = (add_station station_b (add_station station_a new_network).1).1

-- The network behind a call that returned.
abbrev network_of : Outcome (Bool × TransportNetwork) → TransportNetwork
network_of (returns (_, n)) = n
network_of (throws _) = new_network
network_of undefined_behaviour = new_network

abbrev pub one_line : TransportNetwork
one_line = network_of (add_line line_ab two_stations)

abbrev arrival : PassengerEvent
arrival = record { station_id = codes "a"; event_type = passenger_in }

abbrev one_passenger : TransportNetwork
one_passenger = network_of (record_passenger_event arrival one_line)

pub two_stations-Reachable : Reachable two_stations
two_stations-Reachable =
    step (step (fresh refl) (station station_a new_network))
      (station station_b (add_station station_a new_network).1)

one_line-returns : add_line line_ab two_stations ≡ returns (true, one_line)
unfolding add_line add_routes add_stops add_stop join_stations make_edge get_or_make_edge
    add_incoming_edge put_node put_edge get_station_node add_station lookup insert add_route
    has_route routes_of_line elem text_beq
one_line-returns = refl

one_passenger-returns : record_passenger_event arrival one_line ≡ returns (true, one_passenger)
unfolding record_passenger_event count_passenger add_line add_routes add_stops add_stop
    join_stations make_edge get_or_make_edge add_incoming_edge put_node put_edge get_station_node
    add_station lookup insert add_route has_route routes_of_line elem text_beq
one_passenger-returns = refl

pub one_line-Reachable : Reachable one_line
one_line-Reachable =
    step two_stations-Reachable (line line_ab two_stations one_line true one_line-returns)

one_line-serves : get_routes_serving_station (codes "b") one_line ≡ codes "r" ∷ []
unfolding get_routes_serving_station get_node_routes emplace_all emplace_edges concat_routes
    get_routes add_line add_routes add_stops add_stop join_stations make_edge get_or_make_edge
    add_incoming_edge put_node put_edge get_station_node add_station lookup insert add_route
    has_route routes_of_line elem text_beq
one_line-serves = refl

Reachable-IsWellFormed_example : IsWellFormed one_passenger
Reachable-IsWellFormed_example =
    Reachable-IsWellFormed
      (step one_line-Reachable (event arrival one_line one_passenger true one_passenger-returns))

get_routes_serving_station-add_line_example :
    elem (codes "r") (get_routes_serving_station (codes "b") one_line) ≡ true
get_routes_serving_station-add_line_example =
    get_routes_serving_station-add_line line_ab two_stations one_line 0 1 route_ab (codes "b")
      (Reachable-IsWellFormed two_stations-Reachable) one_line-returns refl (omega arith) refl

add_line-returns_example :
    (ok : Bool) × (n' : TransportNetwork) × (add_line line_ab two_stations ≡ returns (ok, n'))
    × IsWellFormed n'
unfolding add_station get_station_node put_node lookup insert text_beq
add_line-returns_example =
    add_line-returns line_ab two_stations (Reachable-IsWellFormed two_stations-Reachable)
      (((new_node, refl), ((new_node, refl), tt)), tt)

add_line-unknown_example : add_line line_ac two_stations ≡ undefined_behaviour
unfolding add_station get_station_node put_node lookup insert text_beq
add_line-unknown_example =
    add_line-unknown line_ac two_stations route_ac [] (codes "a") (codes "c") []
      (Reachable-IsWellFormed two_stations-Reachable) refl refl (new_node, refl) refl

pub ne_of_test : (a b : Text) → text_beq a b ≡ false → a ≢ b
ne_of_test a b h e = absurd (ground (arith, text_beq_iff a b))

b_is_not_a : codes "b" ≢ codes "a"
unfolding text_beq
b_is_not_a = ne_of_test (codes "b") (codes "a") refl

get_travel_time-set_travel_time_example :
    get_travel_time (codes "b") (codes "a") (set_travel_time (codes "a") (codes "b") 3 one_line).1
    ≡ 3
unfolding set_travel_time set_travel_time_directional edge_pointer get_edge add_line add_routes
    add_stops add_stop join_stations make_edge get_or_make_edge add_incoming_edge put_node put_edge
    get_station_node add_station lookup insert add_route has_route routes_of_line elem text_beq
get_travel_time-set_travel_time_example =
    get_travel_time-set_travel_time (codes "a") (codes "b") (codes "b") (codes "a") 3 one_line
      (Reachable-IsWellFormed one_line-Reachable) b_is_not_a

abbrev other_line : Line
other_line = record line_ab { routes = record route_ab { line_id = codes "m" } ∷ [] }

line_equal_iff_example : (line_equal line_ab other_line ≡ true) ↔ (
    (line_ab.id ≡ other_line.id)
    × (line_ab.name ≡ other_line.name)
    × (map forget_line line_ab.routes ≡ map forget_line other_line.routes))
line_equal_iff_example = line_equal_iff line_ab other_line

abbrev no_steps : TravelRoute
no_steps = record {
  start_station_id = codes "a";
  end_station_id = codes "b";
  total_travel_time = 3;
  steps = [];
}

abbrev one_step : TravelRoute
one_step = record no_steps {
  steps =
      record {
        start_station_id = codes "a";
        end_station_id = codes "b";
        line_id = codes "l";
        route_id = codes "r";
        travel_time = 3;
      }
      ∷ [];
}

travel_route_equal_iff_example :
    (r : Bool) × (travel_route_equal no_steps one_step ≡ returns r)
    × ((r ≡ true) ↔ (no_steps ≡ one_step))
travel_route_equal_iff_example = travel_route_equal_iff no_steps one_step (omega arith)

travel_route_equal-undefined_behaviour_example :
    travel_route_equal one_step no_steps ≡ undefined_behaviour
travel_route_equal-undefined_behaviour_example =
    travel_route_equal-undefined_behaviour one_step no_steps (omega arith)

abbrev departure : PassengerEvent
departure = record { station_id = codes "a"; event_type = passenger_out }

two_stations-Within : Within 3 two_stations
unfolding add_station get_station_node put_node lookup insert text_beq
two_stations-Within s node h = ground arith

get_passenger_count-record_all_example :
    (n' : TransportNetwork) × (record_all (departure ∷ departure ∷ arrival ∷ []) two_stations
      ≡ returns n')
    × ((s : Text)
        → get_passenger_count s n' ≡ (
            get_passenger_count s two_stations >>= λ k.
            returns (k +ℤ balance s (departure ∷ departure ∷ arrival ∷ []))))
get_passenger_count-record_all_example =
    get_passenger_count-record_all (departure ∷ departure ∷ arrival ∷ []) two_stations
      two_stations-Within

abbrev pub home_a : StationNode
home_a = record new_node { to_station_id_to_edge = (codes "b", 0) ∷ [] }

pub home_a-found : get_station_node (codes "a") one_line ≡ some home_a
unfolding add_line add_routes add_stops add_stop join_stations make_edge get_or_make_edge
    add_incoming_edge put_node put_edge get_station_node add_station lookup insert add_route
    has_route routes_of_line elem text_beq
home_a-found = refl

abbrev edge_of_r : RouteEdge
edge_of_r = record { travel_time = 0; line_to_route_ids = (codes "l", codes "r" ∷ []) ∷ [] }

edges_of_one_line : one_line.edges ≡ edge_of_r ∷ []
unfolding add_line add_routes add_stops add_stop join_stations make_edge get_or_make_edge
    add_incoming_edge put_node put_edge get_station_node add_station lookup insert add_route
    has_route routes_of_line elem text_beq
edges_of_one_line = refl

a-GoesOn : GoesOn (codes "l") (codes "r") one_line (codes "a") (codes "b") 0
unfolding has_route routes_of_line lookup elem text_beq
a-GoesOn = record {
  node = home_a;
  p = 0;
  edge = edge_of_r;
  is_station = home_a-found;
  is_edge = Memᴰ.head refl;
  is_stored = ap (λ edges. get_elem? edges 0) edges_of_one_line;
  is_served = refl;
  is_time = refl;
  alone = λ to q other h at served.
      let same = Memᴰ.eq_of_singleton h in (ap (λ e. e.0) same, ap (λ e. e.1) same);
}

a_is_not_b : codes "a" ≢ codes "b"
unfolding text_beq
a_is_not_b = ne_of_test (codes "a") (codes "b") refl

travel_time_along-Leads_example :
    travel_time_along 2 (codes "l") (codes "r") (codes "a") (codes "b") one_line ≡ some 0
travel_time_along-Leads_example =
    travel_time_along-Leads (codes "l") (codes "r") (codes "a") (codes "b") one_line (0 ∷ []) 2
      (rides (codes "a") (codes "b") 0 [] a_is_not_b a-GoesOn arrived) (omega arith) (omega arith)

-- Stations a and c are no neighbours.
abbrev loaded : Outcome (Bool × TransportNetwork)
loaded =
    load (station_a ∷ station_b ∷ []) (line_ab ∷ []) ((codes "a", codes "c", 3) ∷ []) new_network

loaded-returns : loaded ≡ returns (true, one_line)
unfolding load load_stations load_lines load_travel_times set_travel_time
    set_travel_time_directional edge_pointer get_edge add_line add_routes add_stops add_stop
    join_stations make_edge get_or_make_edge add_incoming_edge put_node put_edge get_station_node
    add_station lookup insert add_route has_route routes_of_line elem text_beq
loaded-returns = refl

load-IsWellFormed_example : (true ≡ true) × IsWellFormed one_line
load-IsWellFormed_example =
    load-IsWellFormed (station_a ∷ station_b ∷ []) (line_ab ∷ []) ((codes "a", codes "c", 3) ∷ [])
      new_network one_line true (Reachable-IsWellFormed (fresh refl)) loaded-returns
