-- ===== src/Tests/Layouts.antt =====
-- A layout in JSON, with a small JSON library, and what `FromJson` makes of it.
use learncppthroughprojects.Prelude.{
  ℕ, List, [], ◌∷◌, Text, codes, ◌≡◌, refl, Outcome, returns, throws, invalid_argument, text_eq,
  text_beq, if◌then◌else◌, ◌==◌,
}
use learncppthroughprojects.Map.{lookup, insert, contains}
use learncppthroughprojects.Transport.Types.{Station, Line}
use learncppthroughprojects.Transport.Network.{new_network}
use learncppthroughprojects.Transport.Loading.{load}
use learncppthroughprojects.Transport.Reading.{JsonLibrary, read_layout, from_json, from_json-load}
use learncppthroughprojects.Tests.Networks.{station_a, station_b, line_ab}

-- A list is an object whose keys do not matter.
pub data Json : Type 0 where
  text : Text → Json
  number : ℕ → Json
  empty : Json
  entry : Text → Json → Json → Json

abbrev pub object : List (Text × Json) → Json
object [] = empty
object ((key, value) ∷ entries) = entry key value (object entries)

abbrev pub list : List Json → Json
list [] = empty
list (value ∷ values) = entry [] value (list values)

abbrev at_key : Json → Text → Outcome Json
at_key (entry first value rest) key = if first == key then returns value else at_key rest key
at_key _ key = throws invalid_argument

abbrev elements_of : Json → List Json
elements_of (entry _ value rest) = value ∷ elements_of rest
elements_of _ = []

abbrev text_of : Json → Outcome Text
text_of (text t) = returns t
text_of _ = throws invalid_argument

abbrev number_of : Json → Outcome ℕ
number_of (number k) = returns k
number_of _ = throws invalid_argument

abbrev pub library : JsonLibrary Json
library = record {
  at = at_key;
  elements = elements_of;
  get_string = text_of;
  get_unsigned = number_of;
}

abbrev pub station_json : Text → Text → Json
station_json id name = object ((codes "station_id", text id) ∷ (codes "name", text name) ∷ [])

abbrev route_json : Json
route_json = object (
    (codes "route_id", text (codes "r"))
    ∷ (codes "direction", text (codes "inbound"))
    ∷ (codes "start_station_id", text (codes "a"))
    ∷ (codes "end_station_id", text (codes "b"))
    ∷ (codes "route_stops", list (text (codes "a") ∷ text (codes "b") ∷ []))
    ∷ [])

abbrev line_json : Json
line_json = object (
    (codes "line_id", text (codes "l"))
    ∷ (codes "name", text (codes "L"))
    ∷ (codes "routes", list (route_json ∷ []))
    ∷ [])

abbrev time_json : Json
time_json = object (
    (codes "start_station_id", text (codes "a"))
    ∷ (codes "end_station_id", text (codes "b"))
    ∷ (codes "travel_time", number 4)
    ∷ [])

abbrev layout_json : Json
layout_json = object (
    (
      codes "stations",
      list (station_json (codes "a") (codes "A") ∷ station_json (codes "b") (codes "B") ∷ []),
    )
    ∷ (codes "lines", list (line_json ∷ []))
    ∷ (codes "travel_times", list (time_json ∷ []))
    ∷ [])

abbrev layout : List Station × List Line × List (Text × Text × ℕ)
layout = (station_a ∷ station_b ∷ [], line_ab ∷ [], (codes "a", codes "b", 4) ∷ [])

layout_json-read : read_layout library layout_json ≡ returns layout
unfolding lookup insert contains text_beq
layout_json-read = refl

from_json-load_example :
    from_json library layout_json new_network
    ≡ load (station_a ∷ station_b ∷ []) (line_ab ∷ []) ((codes "a", codes "b", 4) ∷ []) new_network
from_json-load_example = from_json-load library layout_json new_network layout layout_json-read
