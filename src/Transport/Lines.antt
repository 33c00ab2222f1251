-- ===== src/Transport/Lines.antt =====
-- When `AddLine` returns, and when it dereferences a null pointer.
use learncppthroughprojects.Prelude.{
  ℕ, Bool, true, false, none, some, List, [], ◌∷◌, All, All-map, Text, ◌≡◌, inl, inr, refl, ap, ◌∙◌,
  arith, get_elem?, get_elem?-some_of_lt, ◌==◌, eq_iff, text_eq, Bool-cases, Outcome, returns,
  undefined_behaviour,
}
use learncppthroughprojects.Transport.Types.{Route, Line, RouteEdge, StationNode, TransportNetwork}
use learncppthroughprojects.Transport.Edge.{add_route}
use learncppthroughprojects.Transport.Node.{get_or_make_edge, add_incoming_edge}
use learncppthroughprojects.Transport.Network.{
  get_station_node, put_node, put_edge, edge_pointer, make_edge, join_stations, add_stop,
  on_success, add_stops, add_route_stops, add_routes, add_line,
}
use learncppthroughprojects.Transport.Pointers.{incoming_pointer, get_station_node-put_node}
use learncppthroughprojects.Transport.WellFormed.{
  IsWellFormed, make_edge-IsHalfJoined, add_route-new_edge,
}
use learncppthroughprojects.Transport.LineWellFormed.{add_stop-IsWellFormed, make_edge-at}

abbrev pub IsKnown : Text → TransportNetwork → Type 0
IsKnown id n = (node : StationNode) × (get_station_node id n ≡ some node)

-- Every station of the first network is one of the second.
abbrev Extends : TransportNetwork → TransportNetwork → Type 0
Extends n n' = (id : Text) → IsKnown id n → IsKnown id n'

put_node-Extends :
    (id : Text) (node : StationNode) (n : TransportNetwork) → Extends n (put_node id node n)
put_node-Extends id node n j (found, e) = elim (Bool-cases (id == j)) [
  | inl same ↦ (node, get_station_node-put_node id j node n ∙ rw same refl)
  | inr other ↦ (found, get_station_node-put_node id j node n ∙ rw other e)
]

put_edge-Extends : (p : ℕ) (e : RouteEdge) (n : TransportNetwork) → Extends n (put_edge p e n)
unfolding put_edge get_station_node
put_edge-Extends p e n j known = known

make_edge-Extends :
    (prev cur : Text) (node : StationNode) (n : TransportNetwork)
    → Extends n (make_edge prev cur node n).1
unfolding make_edge get_station_node
make_edge-Extends prev cur node n =
    put_node-Extends prev (get_or_make_edge cur node n.edges).1
      (record n { edges = (get_or_make_edge cur node n.edges).2 })

-- A call returns, in a network that is well formed and has all stations of the one before.
abbrev ReturnsFrom : TransportNetwork → Outcome (Bool × TransportNetwork) → Type 0
ReturnsFrom n r =
    (ok : Bool) × (n' : TransportNetwork) × (r ≡ returns (ok, n')) × IsWellFormed n' × Extends n n'

make_edge-is_made :
    (prev cur : Text) (node : StationNode) (n : TransportNetwork)
    → get_station_node prev n ≡ some node
    → IsWellFormed n
    → (edge : RouteEdge) × (get_elem?
          (make_edge prev cur node n).1.edges
          (make_edge prev cur node n).0
        ≡ some edge)
make_edge-is_made prev cur node n found w =
    let half = make_edge-IsHalfJoined prev cur node n found w in
    let made = make_edge prev cur node n in
    get_elem?-some_of_lt made.1.edges made.0 (half.bounded prev cur made.0 half.joined)

join_stations-returns :
    (prev cur route_id line_id : Text) (p : ℕ) (edge : RouteEdge) (n : TransportNetwork)
    → IsKnown cur n
    → (ok : Bool) × (n' : TransportNetwork) × (join_stations prev cur route_id line_id p edge n
        ≡ returns (ok, n'))
      × Extends n n'
unfolding join_stations
join_stations-returns prev cur route_id line_id p edge n known =
    let edge' = (add_route route_id line_id edge).1 in
    let n1 = put_edge p edge' n in
    let (node, found) = put_edge-Extends p edge' n cur known in
    elim (Bool-cases (add_route route_id line_id edge).0) [
      | inr refused ↦ (false, n1, rw refused refl, put_edge-Extends p edge' n)
      | inl taken ↦
          let n2 = put_node cur (add_incoming_edge prev p node).1 n1 in
          (
            true,
            n2,
            rw (taken, found) refl,
            λ j k.
                put_node-Extends cur (add_incoming_edge prev p node).1 n1 j
                  (put_edge-Extends p edge' n j k),
          )
    ]

add_stop-returns :
    (prev cur route_id line_id : Text) (n : TransportNetwork)
    → IsWellFormed n
    → IsKnown prev n
    → IsKnown cur n
    → ReturnsFrom n (add_stop prev cur route_id line_id n)
add_stop-returns prev cur route_id line_id n w (node, found) known =
    let made = make_edge prev cur node n in
    let (edge, at) = make_edge-is_made prev cur node n found w in
    let grown = make_edge-Extends prev cur node n in
    let (ok, n', e, more) =
      join_stations-returns prev cur route_id line_id made.0 edge made.1 (grown cur known) in
    let same : add_stop prev cur route_id line_id n ≡ returns (ok, n') =
      unfold add_stop in rw (found, add_stop, at) e in
    (
      ok,
      n',
      same,
      add_stop-IsWellFormed prev cur route_id line_id n w ok n' same,
      λ j k. more j (grown j k),
    )

-- A chain of calls returns if each of them does.
on_success-returns :
    (n : TransportNetwork) (r : Outcome (Bool × TransportNetwork))
    (next : TransportNetwork → Outcome (Bool × TransportNetwork))
    → ReturnsFrom n r
    → ((n1 : TransportNetwork) → IsWellFormed n1 → Extends n n1 → ReturnsFrom n1 (next n1))
    → ReturnsFrom n (on_success r next)
on_success-returns n r next (true, n1, e, w, more) rest =
    let (ok, n2, e2, w2, more2) = rest n1 w more in (ok, n2, rw e e2, w2, λ j k. more2 j (more j k))
on_success-returns n r next (false, n1, e, w, more) rest = (false, n1, rw e refl, w, more)

add_stops-returns :
    (route_id line_id prev : Text) (stops : List Text) (n : TransportNetwork)
    → IsWellFormed n
    → IsKnown prev n
    → All (λ s. IsKnown s n) stops
    → ReturnsFrom n (add_stops route_id line_id prev stops n)
unfolding add_stops
add_stops-returns route_id line_id prev [] n w known all_known = (true, n, refl, w, λ j k. k)
add_stops-returns route_id line_id prev (cur ∷ stops) n w known (here, all_known) =
    on_success-returns n (add_stop prev cur route_id line_id n)
      (λ n1. add_stops route_id line_id cur stops n1)
      (add_stop-returns prev cur route_id line_id n w known here)
      (λ n1 w1 more.
        add_stops-returns route_id line_id cur stops n1 w1 (more cur here)
          (All-map more stops all_known))

add_route_stops-returns :
    (route : Route) (stops : List Text) (n : TransportNetwork)
    → IsWellFormed n
    → All (λ s. IsKnown s n) stops
    → ReturnsFrom n (add_route_stops route stops n)
add_route_stops-returns route [] n w all_known = (true, n, refl, w, λ j k. k)
add_route_stops-returns route (first ∷ stops) n w (known, all_known) =
    add_stops-returns route.id route.line_id first stops n w known all_known

-- Every stop of every route is a station of the network.
abbrev pub HasStops : List Route → TransportNetwork → Type 0
HasStops routes n = All (λ route. All (λ s. IsKnown s n) route.stops) routes

add_routes-returns :
    (routes : List Route) (n : TransportNetwork)
    → IsWellFormed n
    → HasStops routes n
    → ReturnsFrom n (add_routes routes n)
unfolding add_routes
add_routes-returns [] n w known = (true, n, refl, w, λ j k. k)
add_routes-returns (route ∷ routes) n w (here, known) =
    on_success-returns n (add_route_stops route route.stops n) (λ n1. add_routes routes n1)
      (add_route_stops-returns route route.stops n w here)
      (λ n1 w1 more.
        add_routes-returns routes n1 w1 (All-map (λ r. All-map more r.stops) routes known))

-- AddLine, in a well-formed network that has every stop of every route of the line as a station,
-- returns: it neither dereferences a null pointer nor throws; and the network it leaves is well
-- formed, whether it returns true or false.
pub add_line-returns :
    (line : Line) (n : TransportNetwork)
    → IsWellFormed n
    → HasStops line.routes n
    → (ok : Bool) × (n' : TransportNetwork) × (add_line line n ≡ returns (ok, n')) × IsWellFormed n'
unfolding add_line
add_line-returns line n w known =
    let (ok, n', e, w', _) = add_routes-returns line.routes n w known in (ok, n', e, w')

-- A station that the network does not have has no edge coming in.
edge_pointer-unknown :
    (prev cur : Text) (n : TransportNetwork)
    → IsWellFormed n
    → get_station_node cur n ≡ none
    → edge_pointer prev cur n ≡ none
unfolding incoming_pointer
edge_pointer-unknown prev cur n w unknown = ground (arith, w.mirrored prev cur)

make_edge-unknown :
    (prev cur : Text) (node : StationNode) (n : TransportNetwork)
    → IsKnown prev n
    → get_station_node cur n ≡ none
    → get_station_node cur (make_edge prev cur node n).1 ≡ none
unfolding make_edge get_station_node
make_edge-unknown prev cur node n (_, found) unknown =
    let made = get_or_make_edge cur node n.edges in
    ground (
      arith,
      get_station_node-put_node prev cur made.1 (record n { edges = made.2 }),
      eq_iff prev cur,
    )

join_stations-unknown :
    (prev cur route_id line_id : Text) (p : ℕ) (edge : RouteEdge) (n : TransportNetwork)
    → get_station_node cur n ≡ none
    → (add_route route_id line_id edge).0 ≡ true
    → join_stations prev cur route_id line_id p edge n ≡ undefined_behaviour
unfolding join_stations put_edge get_station_node
join_stations-unknown prev cur route_id line_id p edge n unknown taken = rw (taken, unknown) refl

add_stop-unknown :
    (prev cur route_id line_id : Text) (n : TransportNetwork)
    → IsWellFormed n
    → IsKnown prev n
    → get_station_node cur n ≡ none
    → add_stop prev cur route_id line_id n ≡ undefined_behaviour
add_stop-unknown prev cur route_id line_id n w (node, found) unknown =
    let made = make_edge prev cur node n in
    let (edge, at) = make_edge-is_made prev cur node n found w in
    let is_new =
      make_edge-at prev cur node n found (edge_pointer-unknown prev cur n w unknown) at in
    let taken : (add_route route_id line_id edge).0 ≡ true =
      ap (λ e. (add_route route_id line_id e).0) is_new ∙ add_route-new_edge route_id line_id in
    unfold add_stop in
    rw (found, add_stop, at)
      (join_stations-unknown prev cur route_id line_id made.0 edge made.1
        (make_edge-unknown prev cur node n (node, found) unknown) taken)

-- AddLine, in a well-formed network, for a line whose first route begins with a station that the
-- network has and goes on to one that it does not have: the null pointer to the second station is
-- dereferenced, whatever follows.
pub add_line-unknown :
    (line : Line) (n : TransportNetwork) (route : Route) (routes : List Route) (a b : Text)
    (stops : List Text)
    → IsWellFormed n
    → line.routes ≡ route ∷ routes
    → route.stops ≡ a ∷ b ∷ stops
    → IsKnown a n
    → get_station_node b n ≡ none
    → add_line line n ≡ undefined_behaviour
unfolding add_line add_routes add_stops
add_line-unknown line n route routes a b stops w is_line is_route known unknown =
    rw (is_line, is_route, add_stop-unknown a b route.id route.line_id n w known unknown) refl
