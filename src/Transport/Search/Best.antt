-- ===== src/Transport/Search/Best.antt =====
-- The travel route of `GetOptimalTravelRoute` when no metric overflows: no walk is better.
use learncppthroughprojects.Prelude.{
  ℕ, ◌+◌, ◌≤◌, ◌<◌, Bool, false, some, List, [], Text, ◌≡◌, ◌≢◌, refl, ap, sym, ◌∙◌, arith, returns,
  ◌==◌, eq_iff, text_eq, u32, u32_mod, u32-lt,
}
use learncppthroughprojects.Map.{lookup, lookup-IsDistinct}
use learncppthroughprojects.Transport.Types.{RouteStep, TravelRoute, StationNode, TransportNetwork}
use learncppthroughprojects.Transport.Network.{get_station_node}
use learncppthroughprojects.Transport.WellFormed.{IsWellFormed}
use learncppthroughprojects.Transport.Search.{GraphStop, graph_stop_eq, first_stop, distance_of}
use learncppthroughprojects.Transport.Search.Itinerary.{route_from, get_optimal_travel_route}
use learncppthroughprojects.Transport.Search.Queue.{paths_to_sound}
use learncppthroughprojects.Transport.Search.Walks.{Walk}
use learncppthroughprojects.Transport.Search.Ending.{rounds, nearest-lem, start-Ends}
use learncppthroughprojects.Transport.Search.Trails.{IsBounded, Rides, arrives}
use learncppthroughprojects.Transport.Search.Tracing.{At, Between, upkeep, begins_there}
use learncppthroughprojects.Transport.Search.Backwards.{nearest-mem, trace_back-Traced}

-- A stop at station b, and steps to it from station a, that no walk to a stop there is better than.
abbrev pub IsBest : TransportNetwork → Bool → Text → Text → List RouteStep → ℕ → ℕ → Type 0
IsBest n use_distance a b steps k d =
    (z : GraphStop) × (z.station_id ≡ b)
    × Rides n use_distance (first_stop a) z steps k d
    × ((v : GraphStop) (k' d' : ℕ) → Walk n use_distance a v k' d' → v.station_id ≡ b → k ≤ k')

module _ (n : TransportNetwork) (use_distance : Bool) (a : Text) (wf : IsWellFormed n)
    (home : StationNode) (at_home : get_station_node a n ≡ some home)
    (bounded : IsBounded n use_distance a) (fuel : ℕ) (enough : rounds n use_distance a ≤ fuel)
    (b : Text) (ne : a ≢ b) (v : GraphStop) (k d : ℕ) (walk : Walk n use_distance a v k d)
    (at : v.station_id ≡ b) where
  -- GetOptimalTravelRoute from a station a of a well-formed network to another identifier b, if
  -- some walk leads to a stop at b, and if the metrics of every walk from a that comes to no stop
  -- twice, together with that of any one hop more, also of a hop back to a stop of the walk, add up
  -- to less than 2 ^ 32: with the number of rounds that `rounds` gives for each of its two loops it
  -- returns a travel route from a to b, whose steps are hops of the network that follow each other
  -- from a to a stop at b; the sum of their metrics is below 2 ^ 32 and at most that of any walk to
  -- a stop at b; the total travel time is the sum of the travel times and penalties of the steps,
  -- up to multiples of 2 ^ 32. So it does by travel time and by passengers.
  pub get_optimal_travel_route-IsBest :
      (route : TravelRoute) × (m : ℕ) × (time : ℕ) × (get_optimal_travel_route fuel a b use_distance
          n
        ≡ some (returns route))
      × (route.start_station_id ≡ a)
      × (route.end_station_id ≡ b)
      × IsBest n use_distance a b route.steps m time
      × (route.total_travel_time ≡ u32 time)
      × (m < u32_mod)
  unfolding get_optimal_travel_route route_from
  get_optimal_travel_route-IsBest =
      let (s, runs, ready, ends, lowers) =
        start-Ends n use_distance a (At n use_distance a) (Between n use_distance a) wf home at_home
          (upkeep n use_distance a bounded) (begins_there n use_distance a) fuel enough in
      let (e, found, at_b, _, (k1, _, _, reached), _) =
        nearest-lem n use_distance a (At n use_distance a) (Between n use_distance a) s ready ends
          lowers b v k d walk at in
      let (_, mem) = paths_to_sound b s.metric_from_a e (nearest-mem b s e found) in
      let tree = ready.2.0 in
      let at_e : lookup e.graph_stop s.metric_from_a ≡ some e.metric =
        lookup-IsDistinct e.graph_stop e.metric s.metric_from_a tree.keys mem in
      let (steps, time, traced, way, timed) =
        trace_back-Traced n use_distance a s ready ends fuel e.graph_stop e.metric e.graph_stop [] 0
          0 at_e (λ same. absurd (ne (sym same ∙ at_b)))
          (omega (arith, tree.ranked e.graph_stop e.metric at_e, tree.spent, enough))
          (arrives e.graph_stop) in
      (
        record {
          start_station_id = a;
          end_station_id = b;
          total_travel_time = distance_of e.graph_stop s;
          steps = steps;
        },
        e.metric + 0,
        time + 0,
        let other : (a == b) ≡ false = ground (arith, eq_iff a b, ne) in
            rw (other, runs) (ground (arith, found, traced)),
        refl,
        refl,
        (
          e.graph_stop,
          at_b,
          way,
          λ v' k' d' walk' at'.
              let (e', found', _, le, _, _) =
                nearest-lem n use_distance a (At n use_distance a) (Between n use_distance a) s
                  ready ends lowers b v' k' d' walk' at' in
              let same : e' ≡ e = ground (arith, found, found') in
              omega (arith, le, ap (λ x. x.metric) same),
        ),
        timed ∙ ap u32 (omega arith),
        omega (arith, reached, u32-lt k1),
      )
