-- ===== src/Tests/Searches.antt =====
-- Searches for a route, and the properties of the search applied to them.
use mathlib.Core.List.{Memᴰ}
use mathlib.Core.List.Memᴰ
use learncppthroughprojects.Prelude.{
  ℕ, ◌≤◌, true, some, [], ◌∷◌, Text, codes, ◌≡◌, ◌≢◌, refl, arith, returns, text_eq, text_beq, elem,
  u32,
}
use learncppthroughprojects.Prelude.Int.{pos}
use learncppthroughprojects.Map.{lookup, insert}
use learncppthroughprojects.Transport.Types.{
  RouteEdge, RouteMetadata, TravelRoute, TransportNetwork,
}
use learncppthroughprojects.Transport.Edge.{
  add_route, has_route, routes_of_line, metadata, get_route_metadata,
}
use learncppthroughprojects.Transport.Node.{
  new_node, get_or_make_edge, add_incoming_edge, station_id_to_routes_metadata,
}
use learncppthroughprojects.Transport.Network.{
  add_station, get_station_node, put_node, put_edge, add_line, add_routes, add_stops, add_stop,
  join_stations, make_edge, get_passenger_count,
}
use learncppthroughprojects.Transport.Reachable.{Reachable-IsWellFormed}
use learncppthroughprojects.Transport.Search.{
  GraphStop, GraphStopMetric, first_stop, stop_on, Search, start_search, distance_of, weight,
  changes, relax, visit, visit_all, least, paths_to, nearest,
}
use learncppthroughprojects.Transport.Search.Itinerary.{
  step_to, trace_back, route_from, get_optimal_travel_route, get_fastest_travel_route,
  get_quiet_travel_route,
}
use learncppthroughprojects.Transport.Search.Walks.{Walk, stays, hop, IsHop}
use learncppthroughprojects.Transport.Search.Measure.{IsHop-mem}
use learncppthroughprojects.Transport.Search.Relaxing.{Reached, Timed}
use learncppthroughprojects.Transport.Search.Ending.{rounds}
use learncppthroughprojects.Transport.Search.Optimal.{
  visit_all-optimal, get_optimal_travel_route-unreachable,
}
use learncppthroughprojects.Tests.Networks.{
  two_stations, two_stations-Reachable, one_line, one_line-Reachable, ne_of_test, home_a,
  home_a-found,
}

-- From a to c directly in 20, or over b in 2 and 3 with a change of the line; and many passengers
-- at b.
abbrev edge_on : Text → Text → ℕ → RouteEdge
edge_on line route time = record { travel_time = time; line_to_route_ids = (line, route ∷ []) ∷ [] }

abbrev triangle : TransportNetwork
triangle = record {
  station_id_to_node =
      (codes "a", record new_node { to_station_id_to_edge = (codes "b", 0) ∷ (codes "c", 2) ∷ [] })
      ∷ (
        codes "b",
        record {
          passengers = pos 30;
          to_station_id_to_edge = (codes "c", 1) ∷ [];
          from_station_id_to_edge = (codes "a", 0) ∷ [];
        },
      )
      ∷ (
        codes "c",
        record new_node { from_station_id_to_edge = (codes "b", 1) ∷ (codes "a", 2) ∷ [] },
      )
      ∷ [];
  edges =
      edge_on (codes "l") (codes "r") 2
      ∷ edge_on (codes "m") (codes "s") 3
      ∷ edge_on (codes "k") (codes "t") 20
      ∷ [];
}

abbrev over_b : TravelRoute
over_b = record {
  start_station_id = codes "a";
  end_station_id = codes "c";
  total_travel_time = 10;
  steps =
      record {
        start_station_id = codes "a";
        end_station_id = codes "b";
        line_id = codes "l";
        route_id = codes "r";
        travel_time = 2;
      }
      ∷ record {
        start_station_id = codes "b";
        end_station_id = codes "c";
        line_id = codes "m";
        route_id = codes "s";
        travel_time = 8;
      }
      ∷ [];
}

triangle-fastest :
    get_fastest_travel_route 9 (codes "a") (codes "c") triangle ≡ some (returns over_b)
unfolding get_fastest_travel_route get_optimal_travel_route visit_all visit relax weight changes
    least nearest paths_to route_from trace_back step_to get_station_node
    station_id_to_routes_metadata get_route_metadata metadata lookup insert text_beq u32
triangle-fastest = refl

-- The direct route is quieter, but not within 1.2 times the travel time.
triangle-quiet : get_quiet_travel_route 9 (codes "a") (codes "c") triangle ≡ some (returns over_b)
unfolding get_quiet_travel_route get_optimal_travel_route visit_all visit relax weight changes least
    nearest paths_to route_from trace_back step_to get_station_node get_passenger_count
    station_id_to_routes_metadata get_route_metadata metadata lookup insert text_beq u32
triangle-quiet = refl

abbrev pub on_r : RouteMetadata
on_r = record { line_id = codes "l"; route_id = codes "r"; travel_time = 0 }

pub a_to_b : IsHop one_line (codes "a") (codes "b") on_r
unfolding add_line add_routes add_stops add_stop join_stations make_edge get_or_make_edge
    add_incoming_edge put_node put_edge get_station_node add_station lookup insert add_route
    has_route routes_of_line elem text_beq station_id_to_routes_metadata get_route_metadata metadata
a_to_b = record {
  node = home_a;
  metadata = on_r ∷ [];
  is_station = refl;
  is_neighbor = Memᴰ.head refl;
  is_route = Memᴰ.head refl;
}

pub reaching_b : Walk one_line true (codes "a") (stop_on (codes "b") on_r) 0 0
unfolding weight changes
reaching_b = hop (first_stop (codes "a")) (codes "b") on_r 0 0 0 0 stays a_to_b refl

visit_all-optimal_example :
    (s : Search) × (e : GraphStopMetric) × (visit_all
        (rounds one_line true (codes "a"))
        one_line
        true
        (start_search (codes "a"))
      ≡ some (returns s))
    × (nearest (codes "b") s ≡ some e)
    × (e.graph_stop.station_id ≡ codes "b")
    × (e.metric ≤ 0)
    × Reached one_line true (codes "a") e.graph_stop e.metric
    × Timed one_line true (codes "a") e.graph_stop (distance_of e.graph_stop s)
visit_all-optimal_example =
    visit_all-optimal one_line true (codes "a") (Reachable-IsWellFormed one_line-Reachable) home_a
      home_a-found (rounds one_line true (codes "a")) (omega arith) (codes "b")
      (stop_on (codes "b") on_r) 0 0 reaching_b refl

b_from_nowhere :
    (v : GraphStop) (k d : ℕ) → Walk two_stations true (codes "a") v k d → v.station_id ≢ codes "b"
unfolding add_station get_station_node put_node lookup insert text_beq station_id_to_routes_metadata
b_from_nowhere _ k d stays = ne_of_test (codes "a") (codes "b") refl
b_from_nowhere _ k d (hop v to m _ _ _ _ walk is_hop _) =
    absurd (Memᴰ.not-nil (IsHop-mem two_stations v.station_id to m is_hop))

get_optimal_travel_route-unreachable_example :
    get_optimal_travel_route
      (rounds two_stations true (codes "a"))
      (codes "a")
      (codes "b")
      true
      two_stations
    ≡ some (
        returns (record {
          start_station_id = codes "a";
          end_station_id = codes "b";
          total_travel_time = 0;
          steps = [];
        }))
unfolding add_station get_station_node put_node lookup insert text_beq
get_optimal_travel_route-unreachable_example =
    get_optimal_travel_route-unreachable two_stations true (codes "a")
      (Reachable-IsWellFormed two_stations-Reachable) new_node refl
      (rounds two_stations true (codes "a")) (omega arith) (codes "b")
      (ne_of_test (codes "a") (codes "b") refl) b_from_nowhere
