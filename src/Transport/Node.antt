-- ===== src/Transport/Node.antt =====
-- `StationNode` of src/transport-network-internal.cpp. The edges of the network are passed along.
use learncppthroughprojects.Prelude.{
  elem, ℕ, Bool, true, false, not, Option, none, some, List, [], ◌∷◌, ◌++◌, Text, length, get_elem?,
  if◌then◌else◌, ◌==◌, text_eq, nat_eq,
}
use learncppthroughprojects.Prelude.Int.{pos}
use learncppthroughprojects.Map.{Map, lookup, insert}
use learncppthroughprojects.Transport.Types.{RouteEdge, StationNode, RouteMetadata}
use learncppthroughprojects.Transport.Edge.{new_edge, get_routes, get_route_metadata}

-- `std::make_shared<StationNode>()`, which zero-initialises.
abbrev pub new_node : StationNode
new_node = record { passengers = pos 0; to_station_id_to_edge = []; from_station_id_to_edge = [] }

-- `GetOrMakeEdge`: the edge, the node and the edges after the call.
unfoldable pub get_or_make_edge :
    Text → StationNode → List RouteEdge → ℕ × StationNode × List RouteEdge
get_or_make_edge end_station_id node edges =
    elim (lookup end_station_id node.to_station_id_to_edge) [
      | some p ↦ (p, node, edges)
      | none ↦ (
        length edges,
        record node {
          to_station_id_to_edge = insert end_station_id (length edges) node.to_station_id_to_edge;
        },
        edges ++ new_edge ∷ [],
      )
    ]

-- `AddIncomingEdge`
unfoldable pub add_incoming_edge : Text → ℕ → StationNode → Bool × StationNode
add_incoming_edge from_station_id edge node =
    let stored = record node {
      from_station_id_to_edge = insert from_station_id edge node.from_station_id_to_edge;
    } in
    elim (lookup from_station_id node.from_station_id_to_edge) [
      | none ↦ (true, stored)
      | some old ↦ if not (old == edge) then (false, node) else (true, stored)
    ]

-- `GetEdge`
unfoldable pub get_edge : Text → StationNode → Option ℕ
get_edge station_id node = lookup station_id node.to_station_id_to_edge

-- The edge behind a pointer; one that was never made has no routes.
abbrev pub routes_at : List RouteEdge → ℕ → List Text
routes_at edges p = elim (get_elem? edges p) [ none ↦ [] | some e ↦ get_routes e ]

-- `routes.emplace` for each of the identifiers: a set, in the order of first insertion.
unfoldable pub emplace_all : List Text → List Text → List Text
emplace_all routes [] = routes
emplace_all routes (r ∷ rs) = emplace_all (if elem r routes then routes else routes ++ r ∷ []) rs

unfoldable pub emplace_edges : List RouteEdge → List Text → Map Text ℕ → List Text
emplace_edges edges routes [] = routes
emplace_edges edges routes ((_, p) ∷ m) =
    emplace_edges edges (emplace_all routes (routes_at edges p)) m

-- `StationNode::GetRoutes`
unfoldable pub get_node_routes : List RouteEdge → StationNode → List Text
get_node_routes edges node =
    emplace_edges edges (emplace_edges edges [] node.to_station_id_to_edge)
      node.from_station_id_to_edge

-- `GetStationIdToRoutesMetadata`
unfoldable pub station_id_to_routes_metadata :
    List RouteEdge → Map Text ℕ → Map Text (List RouteMetadata)
station_id_to_routes_metadata edges [] = []
station_id_to_routes_metadata edges ((id, p) ∷ m) =
    (id, elim (get_elem? edges p) [ none ↦ [] | some e ↦ get_route_metadata e ])
    ∷ station_id_to_routes_metadata edges m
