-- ===== src/Transport/Search/Optimal.antt =====
-- What the search finds of the stops at a station.
use learncppthroughprojects.Prelude.{
  ℕ, ◌≤◌, Bool, false, some, [], Text, ◌≡◌, ◌≢◌, arith, returns, ◌==◌, eq_iff, text_eq,
}
use learncppthroughprojects.Transport.Types.{StationNode, TransportNetwork}
use learncppthroughprojects.Transport.Network.{get_station_node}
use learncppthroughprojects.Transport.WellFormed.{IsWellFormed}
use learncppthroughprojects.Transport.Search.{
  GraphStop, graph_stop_eq, GraphStopMetric, Search, distance_of, visit_all, start_search, nearest,
}
use learncppthroughprojects.Transport.Search.Itinerary.{route_from, get_optimal_travel_route}
use learncppthroughprojects.Transport.Search.Walks.{Walk}
use learncppthroughprojects.Transport.Search.Ending.{rounds, start-Ends, nearest-lem, nearest-none}
use learncppthroughprojects.Transport.Search.Relaxing.{Reached, Timed}
use learncppthroughprojects.Transport.Search.Shortest.{Upkeep, Ends}

-- What a search needs to know of the paths besides, for its result alone.
abbrev None : Search → Type 0
None s = Unit

abbrev NoneAt : GraphStopMetric → Search → Type 0
NoneAt top s = Unit

no_upkeep :
    (n : TransportNetwork) (use_distance : Bool) (a : Text) → Upkeep n use_distance a NoneAt None
no_upkeep n use_distance a = record {
  keeps = λ top to meta w t s is_hop is_cost better lowers at. tt;
  pops = λ e q s queue between. tt;
  closes = λ top s at done. tt;
}

module _ (n : TransportNetwork) (use_distance : Bool) (a : Text) (wf : IsWellFormed n)
    (home : StationNode) (at_home : get_station_node a n ≡ some home) (fuel : ℕ)
    (enough : rounds n use_distance a ≤ fuel) where
  abbrev ends_there : Ends n use_distance a NoneAt None fuel (start_search a)
  ends_there =
      start-Ends n use_distance a NoneAt None wf home at_home (no_upkeep n use_distance a) tt fuel
        enough

  -- From a station a of a well-formed network, and for any walk to a stop at station b, over the
  -- hops that the network has, whose metrics add up to k: the loop over the priority queue ends
  -- within the number of rounds that `rounds` gives, without an exception; the first of the
  -- sorted paths to b is a stop at b whose metric is at most k; its metric is the sum along a
  -- walk to it, and its distance the sum of the travel times and penalties along one, up to
  -- multiples of 2 ^ 32. So it does, without a bound on the times, both by travel time and by
  -- passengers.
  pub visit_all-optimal :
      (b : Text) (v : GraphStop) (k d : ℕ)
      → Walk n use_distance a v k d
      → v.station_id ≡ b
      → (s : Search) × (e : GraphStopMetric) × (visit_all fuel n use_distance (start_search a)
          ≡ some (returns s))
        × (nearest b s ≡ some e)
        × (e.graph_stop.station_id ≡ b)
        × (e.metric ≤ k)
        × Reached n use_distance a e.graph_stop e.metric
        × Timed n use_distance a e.graph_stop (distance_of e.graph_stop s)
  visit_all-optimal b v k d walk at =
      let (t, runs, ready, ends, lowers) = ends_there in
      let (e, found, at_b, le, is_walk, is_timed) =
        nearest-lem n use_distance a NoneAt None t ready ends lowers b v k d walk at in
      (t, e, runs, found, at_b, le, is_walk, is_timed)

  -- GetOptimalTravelRoute from a station of a well-formed network to another identifier that no
  -- walk leads to: within the number of rounds that `rounds` gives it returns the travel route
  -- with no steps and a total travel time of 0, by travel time and by passengers.
  pub get_optimal_travel_route-unreachable :
      (b : Text)
      → a ≢ b
      → ((v : GraphStop) (k d : ℕ) → Walk n use_distance a v k d → v.station_id ≢ b)
      → get_optimal_travel_route fuel a b use_distance n
        ≡ some (
            returns (record {
              start_station_id = a;
              end_station_id = b;
              total_travel_time = 0;
              steps = [];
            }))
  unfolding get_optimal_travel_route route_from
  get_optimal_travel_route-unreachable b ne none_there =
      let (t, runs, ready, ends, lowers) = ends_there in
      let none_found = nearest-none n use_distance a NoneAt None t ready ends lowers b none_there in
      let other : (a == b) ≡ false = ground (arith, eq_iff a b, ne) in
      rw (other, runs) (ground (arith, none_found))
