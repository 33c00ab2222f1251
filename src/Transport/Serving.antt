-- ===== src/Transport/Serving.antt =====
-- `StationNode::GetRoutes`: a station is served by every route of its edges.
use learncppthroughprojects.Prelude.{
  ℕ, true, ◌||◌, some, List, [], ◌∷◌, ◌++◌, Text, ◌≡◌, arith, get_elem?, if◌then◌else◌, ◌==◌,
  eq_iff, text_eq, elem, elem-append, Option-cases, Bool-cases, inl, inr, ap,
}
use learncppthroughprojects.Map.{Map, lookup}
use learncppthroughprojects.Transport.Types.{RouteEdge, TransportNetwork}
use learncppthroughprojects.Transport.Edge.{has_route, routes_of_line, concat_routes, get_routes}
use learncppthroughprojects.Transport.Node.{
  routes_at, emplace_all, emplace_edges, get_node_routes, get_edge,
}
use learncppthroughprojects.Transport.Network.{
  get_station_node, edge_pointer, get_routes_serving_station,
}
use learncppthroughprojects.Transport.Pointers.{incoming_pointer}

concat_routes-elem :
    (r line_id : Text) (m : Map Text (List Text)) {ids : List Text}
    → lookup line_id m ≡ some ids
    → elem r ids ≡ true
    → elem r (concat_routes m) ≡ true
unfolding concat_routes lookup
concat_routes-elem r line_id [] h e = cc
concat_routes-elem r line_id ((l, ids') ∷ m) {ids} h e =
    ground (arith, elem-append r ids' (concat_routes m), concat_routes-elem r line_id m {ids = ids})

-- A route that the edge has for some line is one of all its routes.
has_route-get_routes :
    (line_id r : Text) (e : RouteEdge) → has_route line_id r e ≡ true → elem r (get_routes e) ≡ true
unfolding has_route routes_of_line get_routes elem
has_route-get_routes line_id r e h = elim (Option-cases (lookup line_id e.line_to_route_ids)) [
  | inl missing ↦ absurd (ground arith)
  | inr (ids, found) ↦ concat_routes-elem r line_id e.line_to_route_ids found (ground arith)
]

elem-emplace_all :
    (r : Text) (routes xs : List Text)
    → elem r (emplace_all routes xs) ≡ (elem r routes || elem r xs)
unfolding emplace_all elem
elem-emplace_all r routes [] = ground arith
elem-emplace_all r routes (x ∷ xs) = ground (
  arith,
  elem-emplace_all r (if elem x routes then routes else routes ++ x ∷ []) xs,
  elem-append r routes (x ∷ []),
  eq_iff r x,
)

module _ (edges : List RouteEdge) (r : Text) where
  emplace_edges-keeps :
      (routes : List Text) (m : Map Text ℕ)
      → elem r routes ≡ true
      → elem r (emplace_edges edges routes m) ≡ true
  unfolding emplace_edges
  emplace_edges-keeps routes [] h = h
  emplace_edges-keeps routes ((s, p) ∷ m) h =
      emplace_edges-keeps (emplace_all routes (routes_at edges p)) m
        (ground (arith, elem-emplace_all r routes (routes_at edges p)))

  emplace_edges-finds :
      (routes : List Text) (m : Map Text ℕ) (s : Text) {p : ℕ}
      → lookup s m ≡ some p
      → elem r (routes_at edges p) ≡ true
      → elem r (emplace_edges edges routes m) ≡ true
  unfolding emplace_edges lookup
  emplace_edges-finds routes [] s h e = cc
  emplace_edges-finds routes ((t, q) ∷ m) s {p} h e = elim (Bool-cases (t == s)) [
    | inl here ↦
        let same : q ≡ p = ground arith in
        emplace_edges-keeps (emplace_all routes (routes_at edges q)) m
          (ground (arith, elem-emplace_all r routes (routes_at edges q), ap (routes_at edges) same))
    | inr later ↦
        emplace_edges-finds (emplace_all routes (routes_at edges q)) m s {p = p} (ground arith) e
  ]

module _ (n : TransportNetwork) (p : ℕ) (e : RouteEdge) (line_id r : Text)
    (at : get_elem? n.edges p ≡ some e) (carried : has_route line_id r e ≡ true) where
  routes_at-elem : elem r (routes_at n.edges p) ≡ true
  routes_at-elem = rw (routes_at, at) (has_route-get_routes line_id r e carried)

  -- An edge that carries the route goes out of the station, or comes in.
  pub serving_out :
      (a b : Text) → edge_pointer a b n ≡ some p → elem r (get_routes_serving_station a n) ≡ true
  unfolding get_routes_serving_station get_node_routes edge_pointer get_edge
  serving_out a b out = elim (Option-cases (get_station_node a n)) [
    | inl missing ↦ absurd (ground arith)
    | inr (node, found) ↦
        rw (get_routes_serving_station, found)
          (emplace_edges-keeps n.edges r (emplace_edges n.edges [] node.to_station_id_to_edge)
            node.from_station_id_to_edge
            (emplace_edges-finds n.edges r [] node.to_station_id_to_edge b {p = p} (ground arith)
              routes_at-elem))
  ]

  pub serving_in :
      (a b : Text)
      → incoming_pointer a b n ≡ some p
      → elem r (get_routes_serving_station b n) ≡ true
  unfolding get_routes_serving_station get_node_routes incoming_pointer
  serving_in a b coming = elim (Option-cases (get_station_node b n)) [
    | inl missing ↦ absurd (ground arith)
    | inr (node, found) ↦
        rw (get_routes_serving_station, found)
          (emplace_edges-finds n.edges r (emplace_edges n.edges [] node.to_station_id_to_edge)
            node.from_station_id_to_edge a {p = p} (ground arith) routes_at-elem)
  ]
