-- ===== src/Transport/LineWellFormed.antt =====
-- `AddLine` keeps the invariant of the pointers.
use learncppthroughprojects.Prelude.{
  ℕ, Bool, true, false, none, some, List, [], ◌∷◌, ◌++◌, Text, ◌≡◌, inl, inr, refl, sym, ap, subst,
  get_elem?, get_elem?-append, arith, Outcome, returns, throws, undefined_behaviour, text_eq,
  Option-cases, Bool-cases,
}
use learncppthroughprojects.Transport.Types.{Route, Line, RouteEdge, StationNode, TransportNetwork}
use learncppthroughprojects.Transport.Edge.{add_route, new_edge}
use learncppthroughprojects.Transport.Network.{
  get_station_node, put_edge, make_edge, edge_pointer, join_stations, add_stop, on_success,
  add_stops, add_route_stops, add_routes, add_line,
}
use learncppthroughprojects.Transport.Pointers.{make_edge-cases, received}
use learncppthroughprojects.Transport.WellFormed.{
  IsWellFormed, IsHalfJoined, make_edge-IsHalfJoined, make_edge-IsWellFormed, put_edge-IsHalfJoined,
  put_edge-IsWellFormed, received-IsWellFormed, add_route-new_edge,
}

-- `P` holds of every network that a call can return.
abbrev pub Returns : (TransportNetwork → Type 0) → Outcome (Bool × TransportNetwork) → Type 0
Returns P r = (ok : Bool) (n : TransportNetwork) → r ≡ returns (ok, n) → P n

abbrev pub Keeps : Outcome (Bool × TransportNetwork) → Type 0
Keeps r = Returns IsWellFormed r

module _ (P : TransportNetwork → Type 0) where
  Returns-pure : (b : Bool) (n : TransportNetwork) → P n → Returns P (returns (b, n))
  Returns-pure b n p ok n' h = let same : n' ≡ n = ground arith in subst P (sym same) p

  pub Returns-on_success :
      (r : Outcome (Bool × TransportNetwork))
      (next : TransportNetwork → Outcome (Bool × TransportNetwork))
      → Returns P r
      → ((n : TransportNetwork) → P n → Returns P (next n))
      → Returns P (on_success r next)
  Returns-on_success (returns (true, n)) next first rest ok n' h =
      rest n (first true n refl) ok n' h
  Returns-on_success (returns (false, n)) next first rest ok n' h =
      Returns-pure false n (first false n refl) ok n' h
  Returns-on_success (throws e) next first rest ok n' h = cc
  Returns-on_success undefined_behaviour next first rest ok n' h = cc

join_stations-IsWellFormed :
    (prev cur route_id line_id : Text) (p : ℕ) (edge : RouteEdge) (n : TransportNetwork)
    → IsHalfJoined prev cur p n
    → ((add_route route_id line_id edge).0 ≡ false → IsWellFormed n)
    → Keeps (join_stations prev cur route_id line_id p edge n)
unfolding join_stations
join_stations-IsWellFormed prev cur route_id line_id p edge n half whole ok n' h =
    let edge' = (add_route route_id line_id edge).1 in
    elim (Bool-cases (add_route route_id line_id edge).0) [
      | inr refused ↦
          let same : n' ≡ put_edge p edge' n = ground arith in
          subst IsWellFormed (sym same) (put_edge-IsWellFormed p edge' n (whole refused))
      | inl taken ↦ elim (Option-cases (get_station_node cur (put_edge p edge' n))) [
        | inl missing ↦ absurd (ground arith)
        | inr (node, found) ↦
            let same : n' ≡ received prev cur p node (put_edge p edge' n) = ground arith in
            subst IsWellFormed (sym same) (
              received-IsWellFormed prev cur p node (put_edge p edge' n) found
                (put_edge-IsHalfJoined prev cur p p edge' n half))
      ]
    ]

-- The edge that is made for a pair of stations that had none.
pub make_edge-at :
    (prev cur : Text) (node : StationNode) {edge : RouteEdge} (n : TransportNetwork)
    → get_station_node prev n ≡ some node
    → edge_pointer prev cur n ≡ none
    → get_elem? (make_edge prev cur node n).1.edges (make_edge prev cur node n).0 ≡ some edge
    → edge ≡ new_edge
make_edge-at prev cur node n found none_before at = elim (make_edge-cases prev cur node n found) [
  | inl old ↦ absurd (ground (arith, old.0))
  | inr (_, fresh, grown) ↦ cc (
    at,
    ap (λ es. get_elem? es (make_edge prev cur node n).0) grown,
    ap (get_elem? (n.edges ++ new_edge ∷ [])) fresh,
    get_elem?-append n.edges (new_edge ∷ []),
  )
]

-- A route is refused only by an edge that was there before.
refused-IsWellFormed :
    (prev cur route_id line_id : Text) (node : StationNode) (edge : RouteEdge)
    (n : TransportNetwork)
    → get_station_node prev n ≡ some node
    → IsWellFormed n
    → get_elem? (make_edge prev cur node n).1.edges (make_edge prev cur node n).0 ≡ some edge
    → (add_route route_id line_id edge).0 ≡ false
    → IsWellFormed (make_edge prev cur node n).1
refused-IsWellFormed prev cur route_id line_id node edge n found w at refused =
    elim (make_edge-cases prev cur node n found) [
      | inl old ↦ make_edge-IsWellFormed prev cur node n found w old.0 old.1
      | inr (none_before, fresh, grown) ↦ absurd (
          ground (
            arith,
            add_route-new_edge route_id line_id,
            ap (add_route route_id line_id) (make_edge-at prev cur node n found none_before at),
          ))
    ]

-- One round of the loop of `AddLine`, whether it goes on or returns.
pub add_stop-IsWellFormed :
    (prev cur route_id line_id : Text) (n : TransportNetwork)
    → IsWellFormed n
    → Keeps (add_stop prev cur route_id line_id n)
unfolding add_stop
add_stop-IsWellFormed prev cur route_id line_id n w ok n' h =
    elim (Option-cases (get_station_node prev n)) [
      | inl missing ↦ let same : n' ≡ n = ground arith in subst IsWellFormed (sym same) w
      | inr (node, found) ↦
          let made = make_edge prev cur node n in
          elim (Option-cases (get_elem? made.1.edges made.0)) [
            | inl dangling ↦ absurd (ground arith)
            | inr (edge, at) ↦
                join_stations-IsWellFormed prev cur route_id line_id made.0 edge made.1
                  (make_edge-IsHalfJoined prev cur node n found w)
                  (refused-IsWellFormed prev cur route_id line_id node edge n found w at) ok n'
                  (ground arith)
          ]
    ]

add_stops-IsWellFormed :
    (route_id line_id prev : Text) (stops : List Text) (n : TransportNetwork)
    → IsWellFormed n
    → Keeps (add_stops route_id line_id prev stops n)
unfolding add_stops
add_stops-IsWellFormed route_id line_id prev [] n w = Returns-pure IsWellFormed true n w
add_stops-IsWellFormed route_id line_id prev (cur ∷ stops) n w =
    Returns-on_success IsWellFormed (add_stop prev cur route_id line_id n)
      (λ n1. add_stops route_id line_id cur stops n1)
      (add_stop-IsWellFormed prev cur route_id line_id n w)
      (λ n1 w1. add_stops-IsWellFormed route_id line_id cur stops n1 w1)

add_route_stops-IsWellFormed :
    (route : Route) (stops : List Text) (n : TransportNetwork)
    → IsWellFormed n
    → Keeps (add_route_stops route stops n)
add_route_stops-IsWellFormed route [] n w = Returns-pure IsWellFormed true n w
add_route_stops-IsWellFormed route (first ∷ stops) n w =
    add_stops-IsWellFormed route.id route.line_id first stops n w

add_routes-IsWellFormed :
    (routes : List Route) (n : TransportNetwork) → IsWellFormed n → Keeps (add_routes routes n)
unfolding add_routes
add_routes-IsWellFormed [] n w = Returns-pure IsWellFormed true n w
add_routes-IsWellFormed (route ∷ routes) n w =
    Returns-on_success IsWellFormed (add_route_stops route route.stops n)
      (λ n1. add_routes routes n1) (add_route_stops-IsWellFormed route route.stops n w)
      (λ n1 w1. add_routes-IsWellFormed routes n1 w1)

-- `AddLine` keeps the network well formed, also where it returns false half way through a line.
pub add_line-IsWellFormed :
    (line : Line) (n n' : TransportNetwork) (ok : Bool)
    → IsWellFormed n
    → add_line line n ≡ returns (ok, n')
    → IsWellFormed n'
unfolding add_line
add_line-IsWellFormed line n n' ok w h = add_routes-IsWellFormed line.routes n w ok n' h
