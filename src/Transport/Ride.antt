-- ===== src/Transport/Ride.antt =====
-- `GetTravelTime` along a route of a line.
use mathlib.Core.List.{Memᴰ}
use mathlib.Core.List.Memᴰ
use learncppthroughprojects.Prelude.{
  Bool-cases, Option-cases, inl, inr, refl, ℕ, zero, suc, ◌+◌, ◌<◌, true, false, Option, none, some,
  List, [], ◌∷◌, Text, ◌≡◌, ◌≢◌, ap, ◌∙◌, arith, length, get_elem?, if◌then◌else◌, ◌==◌, eq_iff,
  text_eq, u32, u32_mod, u32-eq_of_lt,
}
use learncppthroughprojects.Map.{Map}
use learncppthroughprojects.Transport.Types.{RouteEdge, StationNode, TransportNetwork}
use learncppthroughprojects.Transport.Edge.{has_route}
use learncppthroughprojects.Transport.Network.{get_station_node}

-- The loop over the edges that go out: the first that has the route.
unfoldable pub next_edge : List RouteEdge → Text → Text → Map Text ℕ → Option (Text × ℕ)
next_edge edges line route [] = none
next_edge edges line route ((to, p) ∷ rest) =
    let later = next_edge edges line route rest in
    elim (get_elem? edges p) [
      | none ↦ later
      | some edge ↦ if has_route line route edge then some (to, edge.travel_time) else later
    ]

-- One round of the loop; `none` is the early `return 0`.
unfoldable pub ride_step : Text → Text → Text → TransportNetwork → Option (Text × ℕ)
ride_step line route cur n = elim (get_station_node cur n) [
  | none ↦ none
  | some node ↦ next_edge n.edges line route node.to_station_id_to_edge
]

-- The loop, for at most `fuel` tests of its condition; `none` if it is still running.
unfoldable pub ride : ℕ → Text → Text → Text → Text → ℕ → TransportNetwork → Option ℕ
ride zero line route cur b time n = none
ride (suc fuel) line route cur b time n = elim (cur == b) [
  | true ↦ some time
  | false ↦ elim (ride_step line route cur n) [
    | none ↦ some 0
    | some (next, t) ↦ ride fuel line route next b (u32 (time + t)) n
  ]
]

-- `GetTravelTime(line, route, a, b)`
unfoldable pub travel_time_along : ℕ → Text → Text → Text → Text → TransportNetwork → Option ℕ
travel_time_along fuel line route a b n = ride fuel line route a b 0 n

abbrev pub sum : List ℕ → ℕ
sum [] = 0
sum (t ∷ ts) = t + sum ts

-- At a station the route goes on to the next: of the edges that go out, the one to it has the route,
-- with that travel time, and no other has.
pub record GoesOn (line route : Text) (n : TransportNetwork) (s next : Text) (t : ℕ) : Type 0 where
  pub node : StationNode
  pub p : ℕ
  pub edge : RouteEdge
  pub is_station : get_station_node s n ≡ some node
  pub is_edge : Memᴰ (next, p) node.to_station_id_to_edge
  pub is_stored : get_elem? n.edges p ≡ some edge
  pub is_served : has_route line route edge ≡ true
  pub is_time : edge.travel_time ≡ t
  pub alone :
      (to : Text) (q : ℕ) (other : RouteEdge)
      → Memᴰ (to, q) node.to_station_id_to_edge
      → get_elem? n.edges q ≡ some other
      → has_route line route other ≡ true
      → (to ≡ next) × (q ≡ p)

-- The stations that the route comes to, with the travel time to each from the one before.
pub data Leads (line route b : Text) (n : TransportNetwork) : Text → List ℕ → Type 0 where
  arrived : Leads line route b n b []
  rides :
      (s next : Text) (t : ℕ) (ts : List ℕ)
      → s ≢ b
      → GoesOn line route n s next t
      → Leads line route b n next ts
      → Leads line route b n s (t ∷ ts)

-- The loop finds the only edge with the route, in whatever order it meets the edges.
next_edge-alone :
    (edges : List RouteEdge) (line route next : Text) (p : ℕ) (edge : RouteEdge) (mp : Map Text ℕ)
    → get_elem? edges p ≡ some edge
    → has_route line route edge ≡ true
    → ((to : Text) (q : ℕ) (other : RouteEdge)
        → Memᴰ (to, q) mp
        → get_elem? edges q ≡ some other
        → has_route line route other ≡ true
        → (to ≡ next) × (q ≡ p))
    → Memᴰ (next, p) mp
    → next_edge edges line route mp ≡ some (next, edge.travel_time)
unfolding next_edge
next_edge-alone edges line route next p edge [] found served alone h = absurd (Memᴰ.not-nil h)
next_edge-alone edges line route next p edge ((to, q) ∷ mp) found served alone h =
    let later : Memᴰ (next, p) mp → next_edge edges line route mp ≡ some (next, edge.travel_time) =
      next_edge-alone edges line route next p edge mp found served
        (λ u r other mem. alone u r other (Memᴰ.tail mem)) in
    elim (Memᴰ.cases_cons h) [
      | inr rest ↦ elim (Option-cases (get_elem? edges q)) [
        | inl missing ↦ ground (arith, missing, later rest)
        | inr (other, at) ↦ elim (Bool-cases (has_route line route other)) [
          | inl e ↦
              let same = alone to q other (Memᴰ.head refl) at e in
              ground (arith, at, e, same.0, same.1, found)
          | inr e ↦ ground (arith, at, e, later rest)
        ]
      ]
      | inl here ↦ ground (arith, here, found, served)
    ]

ride_step-GoesOn :
    (line route : Text) (n : TransportNetwork) (s next : Text) (t : ℕ)
    → GoesOn line route n s next t
    → ride_step line route s n ≡ some (next, t)
unfolding ride_step
ride_step-GoesOn line route n s next t g =
    let steps =
      next_edge-alone n.edges line route next g.p g.edge g.node.to_station_id_to_edge g.is_stored
        g.is_served g.alone g.is_edge in
    ground (arith, g.is_station, steps, g.is_time)

ride_lem :
    (line route a b : Text) (n : TransportNetwork) (ts : List ℕ) (fuel time : ℕ)
    → Leads line route b n a ts
    → length ts < fuel
    → time + sum ts < u32_mod
    → ride fuel line route a b time n ≡ some (time + sum ts)
unfolding ride
ride_lem line route a b n ts zero time l h small = absurd (omega arith)
ride_lem line route _ b n _ (suc fuel) time arrived h small = ground (arith, eq_iff b b)
ride_lem line route _ b n _ (suc fuel) time (rides s next t ts ne goes l) h small =
    let at = ride_step-GoesOn line route n s next t goes in
    let other : (s == b) ≡ false = ground (arith, eq_iff s b) in
    let kept : u32 (time + t) ≡ time + t = u32-eq_of_lt (time + t) (omega arith) in
    ground (
      arith,
      other,
      at,
      kept,
      ride_lem line route next b n ts fuel (time + t) l (omega arith) (omega arith),
    )

-- GetTravelTime along a route of a line, from station a to station b, where the route leads from a
-- to b: at each station before b exactly one of the edges that go out has that route of that line,
-- and the edge leads to the next; and their travel times add up to less than 2 ^ 32. Then the loop
-- ends, after one round for each of them, in whatever order it meets the edges of a station, and the
-- result is the sum of their travel times.
pub travel_time_along-Leads :
    (line route a b : Text) (n : TransportNetwork) (ts : List ℕ) (fuel : ℕ)
    → Leads line route b n a ts
    → length ts < fuel
    → sum ts < u32_mod
    → travel_time_along fuel line route a b n ≡ some (sum ts)
unfolding travel_time_along
travel_time_along-Leads line route a b n ts fuel l enough small =
    ride_lem line route a b n ts fuel 0 l enough (omega arith) ∙ ap some (omega arith)
