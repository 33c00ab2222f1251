-- ===== src/Transport/Reading.antt =====
-- `TransportNetwork::FromJson` with the reading of the JSON, which reads and changes the network by
-- turns; the JSON library is a parameter.
use learncppthroughprojects.Prelude.{
  ℕ, Bool, true, ◌||◌, none, some, List, [], ◌∷◌, ◌++◌, map, Text, codes, ◌≡◌, refl, sym, ◌∙◌,
  subst, arith, Outcome, returns, ◌>>=◌, >>=-eq-returns, >>=-cong, >>=-assoc, for_each, read_each,
  for_each-read_each, if◌then◌else◌, text_eq,
}
use learncppthroughprojects.Map.{Map, lookup, insert, contains}
use learncppthroughprojects.Transport.Types.{Station, Route, Line, TransportNetwork}
use learncppthroughprojects.Transport.Network.{add_station, set_travel_time}
use learncppthroughprojects.Transport.Loading.{
  or_throw, load_stations, load_lines, load_travel_times, load,
}

-- What the source calls of `nlohmann::json`: `operator[]`, the elements between `begin` and `end`,
-- and the conversions.
pub record JsonLibrary (J : Type 0) : Type 0 where
  pub at : J → Text → Outcome J
  pub elements : J → List J
  pub get_string : J → Outcome Text
  pub get_unsigned : J → Outcome ℕ

-- `lineIdToName` and `lineToRoutes`.
pub record LineTables : Type 0 where
  pub line_id_to_name : Map Text Text
  pub line_to_routes : Map Text (List Route)

abbrev pub no_lines : LineTables
no_lines = record { line_id_to_name = []; line_to_routes = [] }

abbrev pub push_route : Text → Route → LineTables → LineTables
push_route line_id route t = record t {
  line_to_routes = elim (lookup line_id t.line_to_routes) [
    | none ↦ insert line_id (route ∷ []) t.line_to_routes
    | some routes ↦ insert line_id (routes ++ route ∷ []) t.line_to_routes
  ];
}

-- `lineIdToName[id]`
abbrev pub name_of : Text → LineTables → Text
name_of id t = elim (lookup id t.line_id_to_name) [ none ↦ [] | some name ↦ name ]

abbrev pub lines_of : LineTables → List Line
lines_of t =
    map (λ (id, routes). record { id = id; name = name_of id t; routes = routes }) t.line_to_routes

load_stations-for_each :
    (stations : List Station) (n : TransportNetwork)
    → for_each (λ station n. or_throw (add_station station n)) stations n ≡ load_stations stations n
unfolding load_stations
load_stations-for_each [] n = refl
load_stations-for_each (station ∷ stations) n =
    >>=-cong (or_throw (add_station station n)) (λ n1. load_stations-for_each stations n1)

-- `success |= SetTravelTime(...)`
abbrev pub set_time : Text × Text × ℕ → Bool × TransportNetwork → Outcome (Bool × TransportNetwork)
set_time (a, b, time) (success, n) =
    let (set, n1) = set_travel_time a b time n in returns (success || set, n1)

load_travel_times-for_each :
    (times : List (Text × Text × ℕ)) (success : Bool) (n : TransportNetwork)
    → for_each set_time times (success, n) ≡ returns (load_travel_times times success n)
unfolding load_travel_times
load_travel_times-for_each [] success n = refl
load_travel_times-for_each ((a, b, time) ∷ times) success n = load_travel_times-for_each times _ _

module _ {J : Type 0} (json : JsonLibrary J) where
  abbrev pub string_at : J → Text → Outcome Text
  string_at j key = json.at j key >>= json.get_string

  abbrev pub elements_at : J → Text → Outcome (List J)
  elements_at j key = json.at j key >>= λ list. returns (json.elements list)

  abbrev pub read_station : J → Outcome Station
  read_station j = string_at j (codes "station_id") >>= λ id.
      string_at j (codes "name") >>= λ name. returns (record { id = id; name = name })

  abbrev pub read_route : Text → J → Outcome Route
  read_route line_id j =
      elements_at j (codes "route_stops") >>= read_each json.get_string >>= λ stops.
      string_at j (codes "route_id") >>= λ id. string_at j (codes "direction") >>= λ direction.
      string_at j (codes "start_station_id") >>= λ start_station_id.
      string_at j (codes "end_station_id") >>= λ end_station_id. returns (record {
        id = id;
        direction = direction;
        line_id = line_id;
        start_station_id = start_station_id;
        end_station_id = end_station_id;
        stops = stops;
      })

  abbrev pub read_travel_time : J → Outcome (Text × Text × ℕ)
  read_travel_time j = string_at j (codes "start_station_id") >>= λ a.
      string_at j (codes "end_station_id") >>= λ b.
      json.at j (codes "travel_time") >>= json.get_unsigned >>= λ time. returns (a, b, time)

  -- The name of a line that has been read before is not read again.
  abbrev pub read_name : Text → J → LineTables → Outcome LineTables
  read_name line_id j t =
      if contains line_id t.line_id_to_name
      then returns t
      else string_at j (codes "name") >>= λ name.
          returns (record t { line_id_to_name = insert line_id name t.line_id_to_name })

  abbrev pub read_line : J → LineTables → Outcome LineTables
  read_line j t = string_at j (codes "line_id") >>= λ line_id. read_name line_id j t >>= λ t1.
      elements_at j (codes "routes") >>= λ routes.
      for_each (λ r u. read_route line_id r >>= λ route. returns (push_route line_id route u))
        routes t1

  abbrev pub read_lines : J → Outcome (List Line)
  read_lines src = elements_at src (codes "lines") >>= λ lines.
      for_each read_line lines no_lines >>= λ t. returns (lines_of t)

  -- The bodies of the loops over the stations and over the travel times.
  abbrev pub load_station : J → TransportNetwork → Outcome TransportNetwork
  load_station j n = read_station j >>= λ station. or_throw (add_station station n)

  abbrev pub load_travel_time : J → Bool × TransportNetwork → Outcome (Bool × TransportNetwork)
  load_travel_time j s = read_travel_time j >>= λ time. set_time time s

  unfoldable pub from_json : J → TransportNetwork → Outcome (Bool × TransportNetwork)
  from_json src n = elements_at src (codes "stations") >>= λ stations.
      for_each load_station stations n >>= λ n1. read_lines src >>= λ lines.
      load_lines lines n1 >>= λ n2.
      elements_at src (codes "travel_times") >>= λ times. for_each load_travel_time times (true, n2)

  -- All that is read, without a network.
  abbrev pub read_layout : J → Outcome (List Station × List Line × List (Text × Text × ℕ))
  read_layout src = elements_at src (codes "stations") >>= read_each read_station >>= λ stations.
      read_lines src >>= λ lines.
      elements_at src (codes "travel_times") >>= read_each read_travel_time >>= λ times.
      returns (stations, lines, times)

  -- The same, with what each loop reads.
  from_json-loads :
      (src : J) (n : TransportNetwork) (js ts : List J) (stations : List Station)
      (lines : List Line) (times : List (Text × Text × ℕ))
      → elements_at src (codes "stations") ≡ returns js
      → read_each read_station js ≡ returns stations
      → read_lines src ≡ returns lines
      → elements_at src (codes "travel_times") ≡ returns ts
      → read_each read_travel_time ts ≡ returns times
      → from_json src n ≡ load stations lines times n
  unfolding from_json load
  from_json-loads src n js ts stations lines times at_stations each_station reads at_times
        each_time =
      let each_load : for_each load_station js n ≡ load_stations stations n =
        for_each-read_each read_station (λ station m. or_throw (add_station station m)) js stations
          n each_station
        ∙ load_stations-for_each stations n in
      rw (at_stations, reads, at_times, each_load)
        (>>=-cong (load_stations stations n) (λ n1. >>=-cong (load_lines lines n1) (λ n2.
            for_each-read_each read_travel_time set_time ts times (true, n2) each_time
            ∙ load_travel_times-for_each times true n2))
          ∙ sym (
              >>=-assoc (load_stations stations n) (λ n1. load_lines lines n1)
                (λ n2. returns (load_travel_times times true n2))))

  -- FromJson reads the JSON and changes the network by turns. Where all of the JSON can be read, it
  -- does what the loops over the stations, lines and travel times that were read do, whatever the
  -- JSON library and the network: it throws, or returns the same result and the same network.
  pub from_json-load :
      (src : J) (n : TransportNetwork) (layout : List Station × List Line × List (Text × Text × ℕ))
      → read_layout src ≡ returns layout
      → from_json src n ≡ load layout.0 layout.1 layout.2 n
  from_json-load src n layout h =
      let (stations, read_stations, h1) =
        >>=-eq-returns (elements_at src (codes "stations") >>= read_each read_station) _
          {b = layout} h in
      let (js, at_stations, each_station) =
        >>=-eq-returns (elements_at src (codes "stations")) (read_each read_station) {b = stations}
          read_stations in
      let (lines, reads_lines, h2) = >>=-eq-returns (read_lines src) _ {b = layout} h1 in
      let (times, read_times, h3) =
        >>=-eq-returns (elements_at src (codes "travel_times") >>= read_each read_travel_time) _
          {b = layout} h2 in
      let (ts, at_times, each_time) =
        >>=-eq-returns (elements_at src (codes "travel_times")) (read_each read_travel_time)
          {b = times} read_times in
      let same : (stations, lines, times) ≡ layout = ground (arith, h3) in
      subst (λ z. from_json src n ≡ load z.0 z.1 z.2 n) same
        (from_json-loads src n js ts stations lines times at_stations each_station reads_lines
          at_times each_time)
