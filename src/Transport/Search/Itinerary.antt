-- ===== src/Transport/Search/Itinerary.antt =====
-- What `GetOptimalTravelRoute` makes of its search, and its callers.
use learncppthroughprojects.Prelude.{
  ℕ, zero, suc, ◌+◌, ◌-◌, ◌*◌, Bool, true, false, Option, none, some, List, [], ◌∷◌, Text, Outcome,
  returns, throws, undefined_behaviour, bad_optional_access, ◌>>=◌, ltb, if◌then◌else◌, ◌==◌,
  text_eq, u32, u32_mod,
}
use learncppthroughprojects.Map.{lookup}
use learncppthroughprojects.Transport.Types.{RouteStep, TravelRoute, TransportNetwork}
use learncppthroughprojects.Transport.Search.{
  GraphStop, graph_stop_eq, first_stop, Search, distance_of, visit_all, start_search, nearest,
}

-- `parents[stop]`, which is a stop without station for a stop that has none.
abbrev pub parent_of : GraphStop → Search → GraphStop
parent_of stop s = elim (lookup stop s.station_id_to_parent) [ none ↦ first_stop [] | some p ↦ p ]

abbrev pub value : Option Text → Outcome Text
value none = throws bad_optional_access
value (some id) = returns id

unfoldable pub step_to : GraphStop → Search → Outcome RouteStep
step_to current s =
    let parent = parent_of current s in
    value current.line_id >>= λ line. value current.route_id >>= λ route. returns (record {
      start_station_id = parent.station_id;
      end_station_id = current.station_id;
      line_id = line;
      route_id = route;
      travel_time = u32 (distance_of current s + u32_mod - distance_of parent s);
    })

-- The loop over the parents, for at most `fuel` tests of its condition. It appends the steps, which
-- are reversed behind it; here each is put before those that have been found.
unfoldable pub trace_back :
    ℕ → Text → GraphStop → Search → List RouteStep → Option (Outcome (List RouteStep))
trace_back zero a current s steps = none
trace_back (suc fuel) a current s steps = elim (current.station_id == a) [
  | true ↦ some (returns steps)
  | false ↦ elim (step_to current s) [
    | returns step ↦ trace_back fuel a (parent_of current s) s (step ∷ steps)
    | throws x ↦ some (throws x)
    | undefined_behaviour ↦ some undefined_behaviour
  ]
]

-- What follows the loop over the priority queue.
unfoldable pub route_from : ℕ → Text → Text → Search → Option (Outcome TravelRoute)
route_from fuel a b s =
    let route : TravelRoute = record {
      start_station_id = a;
      end_station_id = b;
      total_travel_time = 0;
      steps = [];
    } in
    elim (nearest b s) [
      | none ↦ some (returns route)
      | some best ↦ elim (trace_back fuel a best.graph_stop s []) [
        | none ↦ none
        | some found ↦ some (
            found >>= λ steps.
            returns
              (record route { total_travel_time = distance_of best.graph_stop s; steps = steps }))
      ]
    ]

-- `GetOptimalTravelRoute`, with the fuel of its two loops.
unfoldable pub get_optimal_travel_route :
    ℕ → Text → Text → Bool → TransportNetwork → Option (Outcome TravelRoute)
get_optimal_travel_route fuel a b use_distance n =
    if a == b
    then some (
        returns (record {
          start_station_id = a;
          end_station_id = b;
          total_travel_time = 0;
          steps =
              record {
                start_station_id = a;
                end_station_id = a;
                line_id = [];
                route_id = [];
                travel_time = 0;
              }
              ∷ [];
        }))
    else elim (visit_all fuel n use_distance (start_search a)) [
      | none ↦ none
      | some (returns s) ↦ route_from fuel a b s
      | some (throws x) ↦ some (throws x)
      | some undefined_behaviour ↦ some undefined_behaviour
    ]

unfoldable pub get_fastest_travel_route :
    ℕ → Text → Text → TransportNetwork → Option (Outcome TravelRoute)
get_fastest_travel_route fuel a b n = get_optimal_travel_route fuel a b true n

-- `fastest * 1.2 > quietest`: for two numbers below 2 ^ 32 the product, rounded to a double, is
-- greater than the second exactly if six times the first is greater than five times the second.
abbrev pub is_quiet_enough : ℕ → ℕ → Bool
is_quiet_enough fastest quietest = ltb (5 * quietest) (6 * fastest)

unfoldable pub get_quiet_travel_route :
    ℕ → Text → Text → TransportNetwork → Option (Outcome TravelRoute)
get_quiet_travel_route fuel a b n = elim (get_optimal_travel_route fuel a b true n) [
  | none ↦ none
  | some first ↦ elim (get_optimal_travel_route fuel a b false n) [
    | none ↦ none
    | some second ↦ some (
        first >>= λ fastest. second >>= λ quietest. returns (
          if is_quiet_enough fastest.total_travel_time quietest.total_travel_time
          then quietest
          else fastest))
  ]
]
