-- ===== src/Transport/LineServes.antt =====
-- After `AddLine` returned true, every route of the line serves its stops.
use learncppthroughprojects.Prelude.{
  ℕ, ◌<◌, Bool, true, false, some, List, [], ◌∷◌, All, All-map, All-get_elem?, Text, ◌≡◌, ◌⊎◌, inl,
  inr, refl, sym, ◌∙◌, subst, arith, length, get_elem?, get_elem?-set_self, lt_of_get_elem?, eq_iff,
  text_eq, elem, Option-cases, Outcome, returns, throws, undefined_behaviour,
}
use learncppthroughprojects.Transport.Types.{Route, Line, RouteEdge, TransportNetwork}
use learncppthroughprojects.Transport.Edge.{add_route}
use learncppthroughprojects.Transport.Network.{
  get_station_node, put_edge, edge_pointer, make_edge, join_stations, add_stop, on_success,
  add_stops, add_route_stops, add_routes, add_line, get_routes_serving_station,
}
use learncppthroughprojects.Transport.Pointers.{edge_pointer-put_edge, received}
use learncppthroughprojects.Transport.WellFormed.{
  IsWellFormed, IsHalfJoined, make_edge-IsHalfJoined, put_edge-IsHalfJoined,
}
use learncppthroughprojects.Transport.LineWellFormed.{add_stop-IsWellFormed}
use learncppthroughprojects.Transport.Serving.{serving_out, serving_in}
use learncppthroughprojects.Transport.Carrying.{
  Carries, Grows, Grows-refl, Grows-trans, Carries-Grows, make_edge-Grows, put_edge-Grows,
  received-Grows, add_route-has_route,
}

-- What a round of `AddLine` that goes on has done.
abbrev Joined : Text → Text → Text → Text → TransportNetwork → TransportNetwork → Type 0
Joined prev cur route_id line_id n n' = Grows n n' × Carries line_id route_id prev cur n'

put_edge-Joined :
    (prev cur route_id line_id : Text) (p : ℕ) (edge : RouteEdge) (n : TransportNetwork)
    → get_elem? n.edges p ≡ some edge
    → edge_pointer prev cur n ≡ some p
    → Joined prev cur route_id line_id n (put_edge p (add_route route_id line_id edge).1 n)
unfolding put_edge
put_edge-Joined prev cur route_id line_id p edge n at out =
    let edge' = (add_route route_id line_id edge).1 in
    (
      put_edge-Grows route_id line_id p edge n at,
      record {
        pointer = p;
        edge = edge';
        out = edge_pointer-put_edge p edge' n prev cur ∙ out;
        at = get_elem?-set_self n.edges p edge' (lt_of_get_elem? n.edges p at);
        carried = ground (
          arith,
          add_route-has_route route_id line_id edge line_id route_id,
          eq_iff line_id line_id,
          eq_iff route_id route_id,
        );
      },
    )

join_stations-Joined :
    (prev cur route_id line_id : Text) (p : ℕ) (edge : RouteEdge) (n n' : TransportNetwork)
    → IsHalfJoined prev cur p n
    → get_elem? n.edges p ≡ some edge
    → join_stations prev cur route_id line_id p edge n ≡ returns (true, n')
    → Joined prev cur route_id line_id n n'
unfolding join_stations
join_stations-Joined prev cur route_id line_id p edge n n' half at h =
    let edge' = (add_route route_id line_id edge).1 in
    let n1 = put_edge p edge' n in
    let (grows, carries) = put_edge-Joined prev cur route_id line_id p edge n at half.joined in
    elim (Option-cases (get_station_node cur n1)) [
      | inl missing ↦ absurd (ground arith)
      | inr (node, found) ↦
          let same : n' ≡ received prev cur p node n1 = ground arith in
          let more =
            received-Grows prev cur p node n1 found
              (put_edge-IsHalfJoined prev cur p p edge' n half) in
          subst (Joined prev cur route_id line_id n) (sym same) (
            Grows-trans n n1 (received prev cur p node n1) grows more,
            Carries-Grows line_id route_id prev cur n1 (received prev cur p node n1) more carries,
          )
    ]

add_stop-Joined :
    (prev cur route_id line_id : Text) (n n' : TransportNetwork)
    → IsWellFormed n
    → add_stop prev cur route_id line_id n ≡ returns (true, n')
    → Joined prev cur route_id line_id n n'
unfolding add_stop
add_stop-Joined prev cur route_id line_id n n' w h = elim (Option-cases (get_station_node prev n)) [
  | inl missing ↦ absurd (ground arith)
  | inr (node, found) ↦
      let made = make_edge prev cur node n in
      elim (Option-cases (get_elem? made.1.edges made.0)) [
        | inl dangling ↦ absurd (ground arith)
        | inr (edge, at) ↦
            let (grows, carries) =
              join_stations-Joined prev cur route_id line_id made.0 edge made.1 n'
                (make_edge-IsHalfJoined prev cur node n found w) at (ground arith) in
            (Grows-trans n made.1 n' (make_edge-Grows prev cur node n found) grows, carries)
      ]
]

-- A station at one end of an edge that has the route.
abbrev Touches : Text → Text → TransportNetwork → Text → Type 0
Touches line_id r n s =
    ((a : Text) × Carries line_id r a s n) ⊎ ((b : Text) × Carries line_id r s b n)

Touches-Grows :
    (line_id r : Text) (n n' : TransportNetwork) (s : Text)
    → Grows n n'
    → Touches line_id r n s
    → Touches line_id r n' s
Touches-Grows line_id r n n' s g (inl (a, c)) = inl (a, Carries-Grows line_id r a s n n' g c)
Touches-Grows line_id r n n' s g (inr (b, c)) = inr (b, Carries-Grows line_id r s b n n' g c)

Touches-serves :
    (line_id r : Text) (n : TransportNetwork) (s : Text)
    → IsWellFormed n
    → Touches line_id r n s
    → elem r (get_routes_serving_station s n) ≡ true
Touches-serves line_id r n s w (inl (a, c)) =
    serving_in n c.pointer c.edge line_id r c.at c.carried a s (w.mirrored a s ∙ c.out)
Touches-serves line_id r n s w (inr (b, c)) =
    serving_out n c.pointer c.edge line_id r c.at c.carried s b c.out

-- A chain of calls that returned true: the first did, and the second from there.
on_success-true :
    (r : Outcome (Bool × TransportNetwork))
    (next : TransportNetwork → Outcome (Bool × TransportNetwork)) {n' : TransportNetwork}
    → on_success r next ≡ returns (true, n')
    → (n1 : TransportNetwork) × (r ≡ returns (true, n1)) × (next n1 ≡ returns (true, n'))
on_success-true (returns (true, n1)) next h = (n1, refl, h)
on_success-true (returns (false, n1)) next h = cc
on_success-true (throws e) next h = cc
on_success-true undefined_behaviour next h = cc

-- The network after a part of a line: what it grew from, and what it is.
abbrev GrownFrom : TransportNetwork → TransportNetwork → Type 0
GrownFrom n n' = Grows n n' × IsWellFormed n'

add_stops-Touches :
    (route_id line_id prev : Text) (stops : List Text) (n n' : TransportNetwork)
    → IsWellFormed n
    → add_stops route_id line_id prev stops n ≡ returns (true, n')
    → GrownFrom n n' × All (Touches line_id route_id n') stops
unfolding add_stops
add_stops-Touches route_id line_id prev [] n n' w h =
    let same : n' ≡ n = ground arith in (subst (GrownFrom n) (sym same) (Grows-refl n, w), tt)
add_stops-Touches route_id line_id prev (cur ∷ stops) n n' w h =
    let (n1, first, rest) =
      on_success-true (add_stop prev cur route_id line_id n)
        (λ n1. add_stops route_id line_id cur stops n1) h in
    let (grows, carries) = add_stop-Joined prev cur route_id line_id n n1 w first in
    let w1 = add_stop-IsWellFormed prev cur route_id line_id n w true n1 first in
    let ((more, w'), touched) = add_stops-Touches route_id line_id cur stops n1 n' w1 rest in
    (
      (Grows-trans n n1 n' grows more, w'),
      (Touches-Grows line_id route_id n1 n' cur more (inl (prev, carries)), touched),
    )

-- Every stop of the route, if there are two or more, has an edge with the route.
abbrev RouteTouches : TransportNetwork → Route → Type 0
RouteTouches n route = 1 < length route.stops → All (Touches route.line_id route.id n) route.stops

add_route_stops-Touches :
    (route : Route) (stops : List Text) (n n' : TransportNetwork)
    → IsWellFormed n
    → add_route_stops route stops n ≡ returns (true, n')
    → GrownFrom n n' × (1 < length stops → All (Touches route.line_id route.id n') stops)
unfolding add_stops
add_route_stops-Touches route [] n n' w h =
    let same : n' ≡ n = ground arith in (subst (GrownFrom n) (sym same) (Grows-refl n, w), λ l. tt)
add_route_stops-Touches route (first ∷ []) n n' w h =
    let (grown, _) = add_stops-Touches route.id route.line_id first [] n n' w h in
    (grown, λ l. absurd (omega arith))
add_route_stops-Touches route (first ∷ second ∷ stops) n n' w h =
    let (n1, joined, rest) =
      on_success-true (add_stop first second route.id route.line_id n)
        (λ n1. add_stops route.id route.line_id second stops n1) h in
    let (grows, carries) = add_stop-Joined first second route.id route.line_id n n1 w joined in
    let w1 = add_stop-IsWellFormed first second route.id route.line_id n w true n1 joined in
    let ((more, _), _) = add_stops-Touches route.id route.line_id second stops n1 n' w1 rest in
    let (grown, touched) =
      add_stops-Touches route.id route.line_id first (second ∷ stops) n n' w h in
    (
      grown,
      λ l. (Touches-Grows route.line_id route.id n1 n' first more (inr (second, carries)), touched),
    )

RouteTouches-Grows :
    (route : Route) (n n' : TransportNetwork)
    → Grows n n'
    → RouteTouches n route
    → RouteTouches n' route
RouteTouches-Grows route n n' g touched l =
    All-map (λ s. Touches-Grows route.line_id route.id n n' s g) route.stops (touched l)

add_routes-Touches :
    (routes : List Route) (n n' : TransportNetwork)
    → IsWellFormed n
    → add_routes routes n ≡ returns (true, n')
    → GrownFrom n n' × All (RouteTouches n') routes
unfolding add_routes
add_routes-Touches [] n n' w h =
    let same : n' ≡ n = ground arith in (subst (GrownFrom n) (sym same) (Grows-refl n, w), tt)
add_routes-Touches (route ∷ routes) n n' w h =
    let (n1, first, rest) =
      on_success-true (add_route_stops route route.stops n) (λ n1. add_routes routes n1) h in
    let ((grows, w1), here) = add_route_stops-Touches route route.stops n n1 w first in
    let ((more, w'), touched) = add_routes-Touches routes n1 n' w1 rest in
    ((Grows-trans n n1 n' grows more, w'), (RouteTouches-Grows route n1 n' more here, touched))

-- AddLine, called on a well-formed network, that returned true: of the network it leaves,
-- GetRoutesServingStation gives, at every stop of every route of the line that has two stops or
-- more, a list with that route among its entries.
pub get_routes_serving_station-add_line :
    (line : Line) (n n' : TransportNetwork) (i j : ℕ) (route : Route) (stop : Text)
    → IsWellFormed n
    → add_line line n ≡ returns (true, n')
    → get_elem? line.routes i ≡ some route
    → 1 < length route.stops
    → get_elem? route.stops j ≡ some stop
    → elem route.id (get_routes_serving_station stop n') ≡ true
unfolding add_line
get_routes_serving_station-add_line line n n' i j route stop w h is_route long is_stop =
    let ((_, w'), touched) = add_routes-Touches line.routes n n' w h in
    let here : RouteTouches n' route =
      All-get_elem? (RouteTouches n') line.routes i touched is_route in
    Touches-serves route.line_id route.id n' stop w'
      (All-get_elem? (Touches route.line_id route.id n') route.stops j (here long) is_stop)
