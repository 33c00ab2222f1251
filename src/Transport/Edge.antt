-- ===== src/Transport/Edge.antt =====
-- `RouteEdge` of src/transport-network-internal.cpp.
use learncppthroughprojects.Prelude.{
  elem, ℕ, Bool, true, false, none, some, List, [], ◌∷◌, ◌++◌, map, Text, if◌then◌else◌, text_eq,
}
use learncppthroughprojects.Map.{Map, lookup, insert}
use learncppthroughprojects.Transport.Types.{RouteEdge, RouteMetadata}

-- `std::make_shared<RouteEdge>()`, which zero-initialises.
abbrev pub new_edge : RouteEdge
new_edge = record { travel_time = 0; line_to_route_ids = [] }

-- `GetRoutes(lineId)`
unfoldable pub routes_of_line : Text → RouteEdge → List Text
routes_of_line line_id e = elim (lookup line_id e.line_to_route_ids) [ none ↦ [] | some ids ↦ ids ]

unfoldable pub has_route : Text → Text → RouteEdge → Bool
has_route line_id route_id e = elem route_id (routes_of_line line_id e)

unfoldable pub add_route : Text → Text → RouteEdge → Bool × RouteEdge
add_route route_id line_id e =
    if has_route line_id route_id e then (false, e) else elim (lookup line_id e.line_to_route_ids) [
      | none ↦ (
        true,
        record e { line_to_route_ids = insert line_id (route_id ∷ []) e.line_to_route_ids },
      )
      | some ids ↦ (
        true,
        record e { line_to_route_ids = insert line_id (ids ++ route_id ∷ []) e.line_to_route_ids },
      )
    ]

unfoldable pub concat_routes : Map Text (List Text) → List Text
concat_routes [] = []
concat_routes ((_, ids) ∷ m) = ids ++ concat_routes m

-- `GetRoutes()`
unfoldable pub get_routes : RouteEdge → List Text
get_routes e = concat_routes e.line_to_route_ids

unfoldable pub metadata : ℕ → Map Text (List Text) → List RouteMetadata
metadata time [] = []
metadata time ((line_id, ids) ∷ m) =
    map (λ id. record { line_id = line_id; route_id = id; travel_time = time }) ids
    ++ metadata time m

-- `GetRouteMetadata`
unfoldable pub get_route_metadata : RouteEdge → List RouteMetadata
unfolding metadata
get_route_metadata e = metadata e.travel_time e.line_to_route_ids
