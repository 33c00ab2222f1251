-- ===== src/Transport/Search/Fastest.antt =====
-- The routes of `GetFastestTravelRoute` and `GetQuietTravelRoute` when no metric overflows.
use learncppthroughprojects.Prelude.{
  ℕ, ◌+◌, ◌*◌, ◌≤◌, ◌<◌, Bool, true, false, some, List, [], ◌∷◌, Text, ◌≡◌, ◌≢◌, inl, inr, sym,
  subst, ◌∙◌, refl, arith, returns, Bool-cases, ltb, u32, u32_mod, u32-eq_of_lt,
}
use learncppthroughprojects.Transport.Types.{RouteStep, TravelRoute, StationNode, TransportNetwork}
use learncppthroughprojects.Transport.Network.{get_station_node}
use learncppthroughprojects.Transport.WellFormed.{IsWellFormed}
use learncppthroughprojects.Transport.Search.{GraphStop, first_stop, stop_on}
use learncppthroughprojects.Transport.Search.Itinerary.{
  get_optimal_travel_route, get_fastest_travel_route, get_quiet_travel_route,
}
use learncppthroughprojects.Transport.Search.Walks.{Walk, stays, hop, cost-returns}
use learncppthroughprojects.Transport.Search.Ending.{rounds}
use learncppthroughprojects.Transport.Search.Trails.{
  IsBounded, Rides, arrives, rides, Rides-time, Walk-time,
}
use learncppthroughprojects.Transport.Search.Best.{IsBest, get_optimal_travel_route-IsBest}

-- The sum of the travel times of steps.
abbrev pub times : List RouteStep → ℕ
times [] = 0
times (step ∷ steps) = step.travel_time + times steps

Rides-times :
    (n : TransportNetwork) (use_distance : Bool) (v z : GraphStop) (steps : List RouteStep)
    (k d : ℕ)
    → Rides n use_distance v z steps k d
    → d < u32_mod
    → times steps ≡ d
Rides-times n use_distance _ _ _ _ _ (arrives v) low = refl
Rides-times n use_distance _ _ _ _ _ (rides v z to m steps k d w t h e rest) low = omega (
  arith,
  Rides-times n use_distance (stop_on to m) z steps k d rest (omega (arith, low)),
  u32-eq_of_lt t (omega (arith, low)),
)

module _ (n : TransportNetwork) (a : Text) (wf : IsWellFormed n) (home : StationNode)
    (at_home : get_station_node a n ≡ some home) (bounded : IsBounded n true a) (fuel : ℕ)
    (enough : rounds n true a ≤ fuel) (b : Text) (ne : a ≢ b) (v : GraphStop) (k d : ℕ)
    (walk : Walk n true a v k d) (at : v.station_id ≡ b) where
  -- GetFastestTravelRoute from a station a of a well-formed network to another identifier b, if
  -- some walk leads to a stop at b, and if the times of every walk from a that comes to no stop
  -- twice, together with that of any one hop more, also of a hop back to a stop of the walk, add up
  -- to less than 2 ^ 32, the penalties included: with the number of rounds that `rounds` gives it
  -- returns a travel route from a to b, whose steps are hops of the network that follow each other
  -- from a to a stop at b; the total travel time is the sum of the travel times of the steps, which
  -- have the penalties for changes in them, and no walk to a stop at b takes less.
  pub get_fastest_travel_route-least :
      (route : TravelRoute) × (z : GraphStop) × (get_fastest_travel_route fuel a b n
        ≡ some (returns route))
      × (route.start_station_id ≡ a)
      × (route.end_station_id ≡ b)
      × (z.station_id ≡ b)
      × Rides n true (first_stop a) z route.steps route.total_travel_time route.total_travel_time
      × (times route.steps ≡ route.total_travel_time)
      × ((v' : GraphStop) (k' d' : ℕ)
          → Walk n true a v' k' d'
          → v'.station_id ≡ b
          → route.total_travel_time ≤ d')
  unfolding get_fastest_travel_route
  get_fastest_travel_route-least =
      let (route, m, time, runs, starts, ends, (z, at_b, way, least), total, low) =
        get_optimal_travel_route-IsBest n true a wf home at_home bounded fuel enough b ne v k d walk
          at in
      let same : m ≡ time = Rides-time n (first_stop a) z route.steps m time way in
      let exact : route.total_travel_time ≡ time =
        total ∙ u32-eq_of_lt time (omega (arith, same, low)) in
      (
        route,
        z,
        runs,
        starts,
        ends,
        at_b,
        subst (λ x. Rides n true (first_stop a) z route.steps x route.total_travel_time)
            (omega (arith, exact, same))
            (subst (Rides n true (first_stop a) z route.steps m) (sym exact) way),
        Rides-times n true (first_stop a) z route.steps m time way (omega (arith, same, low))
            ∙ sym exact,
        λ v' k' d' walk' at'.
            omega (arith, exact, same, least v' k' d' walk' at', Walk-time n a v' k' d' walk'),
      )

  -- A walk is one by passengers too.
  Walk-quiet :
      (v : GraphStop) (k d : ℕ) → Walk n true a v k d → (k' : ℕ) × (d' : ℕ) × Walk n false a v k' d'
  Walk-quiet _ k d stays = (0, 0, stays)
  Walk-quiet _ _ _ (hop v to m k d w t walk is_hop is_cost) =
      let (k', d', quiet) = Walk-quiet v k d walk in
      let (w', t', is_cost') = cost-returns n wf false a home at_home v k' d' to m quiet is_hop in
      (k' + w', d' + t', hop v to m k' d' w' t' quiet is_hop is_cost')

  module _ (quiet_bounded : IsBounded n false a) (quiet_enough : rounds n false a ≤ fuel) where
    -- GetQuietTravelRoute from a station a of a well-formed network to another identifier b, if some
    -- walk leads to a stop at b, and if, by travel time and by passengers, the metrics of every walk
    -- from a that comes to no stop twice, together with that of any one hop more, add up to less
    -- than 2 ^ 32: both searches return a travel route from a to b with steps that no walk is better
    -- than, one by travel time and one by passengers. It returns the second if five times its total
    -- travel time is less than six times that of the first, and the first otherwise.
    pub get_quiet_travel_route-IsBest :
        (fastest : TravelRoute) × (quietest : TravelRoute) × (route : TravelRoute) × (m : ℕ)
        × (time : ℕ) × (m' : ℕ) × (time' : ℕ) × (get_fastest_travel_route fuel a b n
            ≡ some (returns fastest))
        × (get_optimal_travel_route fuel a b false n ≡ some (returns quietest))
        × (get_quiet_travel_route fuel a b n ≡ some (returns route))
        × IsBest n true a b fastest.steps m time
        × (fastest.total_travel_time ≡ u32 time)
        × IsBest n false a b quietest.steps m' time'
        × (quietest.total_travel_time ≡ u32 time')
        × (5 * quietest.total_travel_time < 6 * fastest.total_travel_time → route ≡ quietest)
        × (6 * fastest.total_travel_time ≤ 5 * quietest.total_travel_time → route ≡ fastest)
    unfolding get_quiet_travel_route get_fastest_travel_route
    get_quiet_travel_route-IsBest =
        let (fastest, m, time, runs, _, _, best, total, _) =
          get_optimal_travel_route-IsBest n true a wf home at_home bounded fuel enough b ne v k d
            walk at in
        let (k', d', quiet) = Walk-quiet v k d walk in
        let (quietest, m', time', runs', _, _, best', total', _) =
          get_optimal_travel_route-IsBest n false a wf home at_home quiet_bounded fuel quiet_enough
            b ne v k' d' quiet at in
        elim (Bool-cases (ltb (5 * quietest.total_travel_time) (6 * fastest.total_travel_time))) [
          | inl e ↦ (
            fastest,
            quietest,
            quietest,
            m,
            time,
            m',
            time',
            runs,
            runs',
            ground (arith, runs, runs', e),
            best,
            total,
            best',
            total',
            (λ h. refl),
            λ h. absurd (ground (arith, h, e)),
          )
          | inr e ↦ (
            fastest,
            quietest,
            fastest,
            m,
            time,
            m',
            time',
            runs,
            runs',
            ground (arith, runs, runs', e),
            best,
            total,
            best',
            total',
            (λ h. absurd (ground (arith, h, e))),
            λ h. refl,
          )
        ]
