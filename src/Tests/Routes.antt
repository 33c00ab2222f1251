-- ===== src/Tests/Routes.antt =====
-- The routes that the searches return, and the properties of them applied.
use mathlib.Core.List.{Memᴰ}
use mathlib.Core.List.Memᴰ
use learncppthroughprojects.Prelude.{
  ℕ, ◌+◌, ◌*◌, ◌≤◌, ◌<◌, true, false, some, [], ◌∷◌, Text, codes, ◌≡◌, ◌≢◌, inl, inr, refl, arith,
  returns, text_eq, text_beq, elem, u32, u32_mod, length, Bool-cases, ap, subst, sym, ◌∙◌,
}
use learncppthroughprojects.Map.{lookup, insert}
use learncppthroughprojects.Transport.Types.{RouteMetadata, StationNode, TravelRoute}
use learncppthroughprojects.Transport.Edge.{
  add_route, has_route, routes_of_line, metadata, get_route_metadata,
}
use learncppthroughprojects.Transport.Node.{
  new_node, get_or_make_edge, add_incoming_edge, station_id_to_routes_metadata,
}
use learncppthroughprojects.Transport.Network.{
  add_station, get_station_node, put_node, put_edge, add_line, add_routes, add_stops, add_stop,
  join_stations, make_edge, get_passenger_count,
}
use learncppthroughprojects.Transport.Reachable.{Reachable-IsWellFormed}
use learncppthroughprojects.Transport.Search.{GraphStop, first_stop, stop_on, weight, penalty}
use learncppthroughprojects.Transport.Search.Itinerary.{
  get_optimal_travel_route, get_fastest_travel_route, get_quiet_travel_route,
}
use learncppthroughprojects.Transport.Search.Walks.{hops, Walk, IsHop, cost, cost-Parts}
use learncppthroughprojects.Transport.Search.Measure.{all_stops, mem-lookup, IsHop-mem}
use learncppthroughprojects.Transport.Search.Ending.{rounds}
use learncppthroughprojects.Transport.Search.Trails.{Rides, IsBounded}
use learncppthroughprojects.Transport.Search.Bounded.{IsBounded-hops}
use learncppthroughprojects.Transport.Search.Best.{IsBest, get_optimal_travel_route-IsBest}
use learncppthroughprojects.Transport.Search.Fastest.{
  times, get_fastest_travel_route-least, get_quiet_travel_route-IsBest,
}
use learncppthroughprojects.Tests.Networks.{
  one_line, one_line-Reachable, ne_of_test, home_a, home_a-found,
}
use learncppthroughprojects.Tests.Searches.{on_r, reaching_b}

one_stop : all_stops one_line ≡ stop_on (codes "b") on_r ∷ []
unfolding add_line add_routes add_stops add_stop join_stations make_edge get_or_make_edge
    add_incoming_edge put_node put_edge get_station_node add_station lookup insert add_route
    has_route routes_of_line elem text_beq station_id_to_routes_metadata get_route_metadata metadata
one_stop = refl

abbrev home_b : StationNode
home_b = record new_node { from_station_id_to_edge = (codes "a", 0) ∷ [] }

nodes : one_line.station_id_to_node ≡ (codes "a", home_a) ∷ (codes "b", home_b) ∷ []
unfolding add_line add_routes add_stops add_stop join_stations make_edge get_or_make_edge
    add_incoming_edge put_node put_edge get_station_node add_station lookup insert add_route
    has_route routes_of_line elem text_beq
nodes = refl

hops_from_a : hops one_line home_a ≡ (codes "b", on_r ∷ []) ∷ []
unfolding add_line add_routes add_stops add_stop join_stations make_edge get_or_make_edge
    add_incoming_edge put_node put_edge get_station_node add_station lookup insert add_route
    has_route routes_of_line elem text_beq station_id_to_routes_metadata get_route_metadata metadata
hops_from_a = refl

hops_from_b : hops one_line home_b ≡ []
unfolding add_line add_routes add_stops add_stop join_stations make_edge get_or_make_edge
    add_incoming_edge put_node put_edge get_station_node add_station lookup insert add_route
    has_route routes_of_line elem text_beq station_id_to_routes_metadata get_route_metadata metadata
hops_from_b = refl

-- The one hop of the network.
only_hop : (from to : Text) (m : RouteMetadata) → IsHop one_line from to m → m ≡ on_r
unfolding get_station_node
only_hop from to m h =
    let at =
      subst (Memᴰ (from, h.node)) nodes
        (mem-lookup from one_line.station_id_to_node h.node h.is_station) in
    elim (Memᴰ.cases_cons at) [
      | inl is_a ↦
          let mem =
            subst (Memᴰ (to, h.metadata)) (ap (λ z. hops one_line z.1) is_a ∙ hops_from_a)
              h.is_neighbor in
          let same = Memᴰ.eq_of_singleton mem in
          Memᴰ.eq_of_singleton (subst (Memᴰ m) (ap (λ z. z.1) same) h.is_route)
      | inr later ↦
          let is_b = Memᴰ.eq_of_singleton later in
          absurd (
            Memᴰ.not-nil (
              subst (Memᴰ (to, h.metadata)) (ap (λ z. hops one_line z.1) is_b ∙ hops_from_b)
                h.is_neighbor))
    ]

cheap_hops :
    (v : GraphStop) (to : Text) (m : RouteMetadata) (w t : ℕ)
    → IsHop one_line v.station_id to m
    → cost one_line true v to m ≡ returns (w, t)
    → w ≤ 5
unfolding weight
cheap_hops v to m w t is_hop is_cost =
    let parts = cost-Parts one_line true v to m w t is_cost in
    let same = ap (λ x. x.travel_time) (only_hop v.station_id to m is_hop) in
    elim (Bool-cases parts.changed) [
      | inl e ↦ ground (arith, parts.is_weight, parts.is_extra, parts.metric_sum, same, e)
      | inr e ↦ ground (arith, parts.is_weight, parts.is_extra, parts.metric_sum, same, e)
    ]

small : 5 * (length (all_stops one_line) + 1) < u32_mod
small = rw one_stop (omega arith)

to_b : (from to : Text) (m : RouteMetadata) → IsHop one_line from to m → to ≡ codes "b"
to_b from to m h =
    ap (λ x. x.station_id)
      (Memᴰ.eq_of_singleton (subst (Memᴰ (stop_on to m)) one_stop (IsHop-mem one_line from to m h)))

quiet_at_b : (time : ℕ) → weight one_line false (codes "b") time ≡ returns 0
unfolding weight get_passenger_count add_line add_routes add_stops add_stop join_stations make_edge
    get_or_make_edge add_incoming_edge put_node put_edge get_station_node add_station lookup insert
    add_route has_route routes_of_line elem text_beq u32
quiet_at_b time = refl

quiet_hops :
    (v : GraphStop) (to : Text) (m : RouteMetadata) (w t : ℕ)
    → IsHop one_line v.station_id to m
    → cost one_line false v to m ≡ returns (w, t)
    → w ≤ 5
quiet_hops v to m w t is_hop is_cost =
    let parts = cost-Parts one_line false v to m w t is_cost in
    let quiet : (time : ℕ) → weight one_line false to time ≡ returns 0 = λ time.
      subst (λ z. weight one_line false z time ≡ returns 0) (sym (to_b v.station_id to m is_hop))
        (quiet_at_b time) in
    elim (Bool-cases parts.changed) [
      | inl e ↦ ground (
        arith,
        parts.is_weight,
        parts.is_extra,
        parts.metric_sum,
        quiet m.travel_time,
        quiet penalty,
        e,
      )
      | inr e ↦
          ground (arith, parts.is_weight, parts.is_extra, parts.metric_sum, quiet m.travel_time, e)
    ]

weight-IsBounded : IsBounded one_line false (codes "a")
weight-IsBounded = IsBounded-hops one_line false (codes "a") 5 quiet_hops small

a_ne_b : codes "a" ≢ codes "b"
unfolding text_beq
a_ne_b = ne_of_test (codes "a") (codes "b") refl

abbrev fuel : ℕ
fuel = rounds one_line true (codes "a")

get_optimal_travel_route-IsBest_example :
    (route : TravelRoute) × (m : ℕ) × (time : ℕ) × (get_optimal_travel_route fuel
        (codes "a")
        (codes "b")
        true
        one_line
      ≡ some (returns route))
    × (route.start_station_id ≡ codes "a")
    × (route.end_station_id ≡ codes "b")
    × IsBest one_line true (codes "a") (codes "b") route.steps m time
    × (route.total_travel_time ≡ u32 time)
    × (m < u32_mod)
get_optimal_travel_route-IsBest_example =
    get_optimal_travel_route-IsBest one_line true (codes "a")
      (Reachable-IsWellFormed one_line-Reachable) home_a home_a-found
      (IsBounded-hops one_line true (codes "a") 5 cheap_hops small) fuel (omega arith) (codes "b")
      a_ne_b (stop_on (codes "b") on_r) 0 0 reaching_b refl

get_fastest_travel_route-least_example :
    (route : TravelRoute) × (z : GraphStop) × (get_fastest_travel_route fuel
        (codes "a")
        (codes "b")
        one_line
      ≡ some (returns route))
    × (route.start_station_id ≡ codes "a")
    × (route.end_station_id ≡ codes "b")
    × (z.station_id ≡ codes "b")
    × Rides one_line true
        (first_stop (codes "a"))
        z
        route.steps
        route.total_travel_time
        route.total_travel_time
    × (times route.steps ≡ route.total_travel_time)
    × ((v' : GraphStop) (k' d' : ℕ)
        → Walk one_line true (codes "a") v' k' d'
        → v'.station_id ≡ codes "b"
        → route.total_travel_time ≤ d')
get_fastest_travel_route-least_example =
    get_fastest_travel_route-least one_line (codes "a") (Reachable-IsWellFormed one_line-Reachable)
      home_a home_a-found (IsBounded-hops one_line true (codes "a") 5 cheap_hops small) fuel
      (omega arith) (codes "b") a_ne_b (stop_on (codes "b") on_r) 0 0 reaching_b refl

get_quiet_travel_route-IsBest_example :
    (fastest : TravelRoute) × (quietest : TravelRoute) × (route : TravelRoute) × (m : ℕ)
    × (time : ℕ) × (m' : ℕ) × (time' : ℕ) × (get_fastest_travel_route fuel
          (codes "a")
          (codes "b")
          one_line
        ≡ some (returns fastest))
    × (get_optimal_travel_route fuel (codes "a") (codes "b") false one_line
        ≡ some (returns quietest))
    × (get_quiet_travel_route fuel (codes "a") (codes "b") one_line ≡ some (returns route))
    × IsBest one_line true (codes "a") (codes "b") fastest.steps m time
    × (fastest.total_travel_time ≡ u32 time)
    × IsBest one_line false (codes "a") (codes "b") quietest.steps m' time'
    × (quietest.total_travel_time ≡ u32 time')
    × (5 * quietest.total_travel_time < 6 * fastest.total_travel_time → route ≡ quietest)
    × (6 * fastest.total_travel_time ≤ 5 * quietest.total_travel_time → route ≡ fastest)
get_quiet_travel_route-IsBest_example =
    get_quiet_travel_route-IsBest one_line (codes "a") (Reachable-IsWellFormed one_line-Reachable)
      home_a home_a-found (IsBounded-hops one_line true (codes "a") 5 cheap_hops small) fuel
      (omega arith) (codes "b") a_ne_b (stop_on (codes "b") on_r) 0 0 reaching_b refl
      weight-IsBounded (omega arith)
