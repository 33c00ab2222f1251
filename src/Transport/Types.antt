-- ===== src/Transport/Types.antt =====
-- The structures of inc/network-monitor/transport-network.h and of
-- inc/network-monitor-internal/transport-network-internal.h.
use learncppthroughprojects.Prelude.{
  ℕ, Option, none, some, List, Text, codes, if◌then◌else◌, ◌==◌, text_eq,
}
use learncppthroughprojects.Prelude.Int.{ℤ}
use learncppthroughprojects.Map.{Map}

-- An `Id` is a `std::string`.
pub record Station : Type 0 where
  pub id : Text
  pub name : Text

pub record Route : Type 0 where
  pub id : Text
  pub direction : Text
  pub line_id : Text
  pub start_station_id : Text
  pub end_station_id : Text
  pub stops : List Text

pub record RouteStep : Type 0 where
  pub start_station_id : Text
  pub end_station_id : Text
  pub line_id : Text
  pub route_id : Text
  pub travel_time : ℕ

pub record TravelRoute : Type 0 where
  pub start_station_id : Text
  pub end_station_id : Text
  pub total_travel_time : ℕ
  pub steps : List RouteStep

pub record Line : Type 0 where
  pub id : Text
  pub name : Text
  pub routes : List Route

pub data PassengerEventType : Type 0 where
  passenger_in passenger_out : PassengerEventType

pub record PassengerEvent : Type 0 where
  pub station_id : Text
  pub event_type : PassengerEventType

-- `PassengerEvent::ToType`
unfoldable pub to_type : Text → Option PassengerEventType
to_type s =
    if s == codes "in"
    then some passenger_in
    else if s == codes "out"
    then some passenger_out
    else none

pub record RouteMetadata : Type 0 where
  pub line_id : Text
  pub route_id : Text
  pub travel_time : ℕ

pub record RouteEdge : Type 0 where
  pub travel_time : ℕ
  pub line_to_route_ids : Map Text (List Text)

-- A `shared_ptr<RouteEdge>` is the index of the edge among those that the network has made.
pub record StationNode : Type 0 where
  pub passengers : ℤ
  pub to_station_id_to_edge : Map Text ℕ
  pub from_station_id_to_edge : Map Text ℕ

-- The nodes are owned by the map; the edges stand on a heap, since two nodes share each of them.
-- An edge is never freed while the network lives.
pub record TransportNetwork : Type 0 where
  pub station_id_to_node : Map Text StationNode
  pub edges : List RouteEdge
