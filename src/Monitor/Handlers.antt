-- ===== src/Monitor/Handlers.antt =====
-- The methods of `NetworkMonitor`, and the functions that it passes to its client.
use learncppthroughprojects.Prelude.{
  ℕ, Bool, true, false, not, none, some, List, [], ◌∷◌, ◌++◌, map, Text, codes, Outcome, returns,
  undefined_behaviour, ◌>>=◌, if◌then◌else◌,
}
use learncppthroughprojects.Transport.Types.{to_type}
use learncppthroughprojects.Transport.Network.{new_network, record_passenger_event}
use learncppthroughprojects.Transport.Reading.{JsonLibrary, from_json}
use learncppthroughprojects.Client.Types.{StompClientError, new_client, Effect, call}
use learncppthroughprojects.Client.Handlers.{connect, subscribe, close}
use learncppthroughprojects.Monitor.Types.{
  NetworkMonitorConfig, MonitorFunction, log_disconnect, log_subscribe, log_close,
  subscribe_on_connect, handle_on_message, NetworkMonitor, Output, performs, logs, Handled,
}

abbrev pub has_succeeded : StompClientError → Bool
has_succeeded StompClientError.ok = true
has_succeeded _ = false

abbrev pub log : Text → Text → Output
log source msg = logs (record { source = source; msg = msg })

abbrev pub new_monitor : NetworkMonitor
new_monitor = record { network = new_network; client = none }

abbrev pub log_result : Text → StompClientError → Text → Output
log_result source code msg =
    if has_succeeded code then log source (codes "ok") else log source (codes "error: " ++ msg)

-- `client_->Subscribe`, with the numbers that the client draws; the pointer is not null while a
-- function of the client runs.
unfoldable pub subscribe_client : ℕ → ℕ → NetworkMonitor → Handled
subscribe_client first second m = elim m.client [
  | none ↦ undefined_behaviour
  | some c ↦
      let (_, c', effects) =
        subscribe first second (some log_subscribe) (some handle_on_message) c in
      returns (record m { client = some c' }, map performs effects)
]

-- What the program uses of the JSON library: the fields `passenger_event` and `station_id` of a
-- message; it may throw.
module _ (read_event : Text → Outcome (Text × Text)) where
  -- `OnMessage`, behind its first line of output.
  unfoldable pub on_event : Text → NetworkMonitor → Handled
  on_event msg m = read_event msg >>= λ (passenger_event, station_id).
      elim (to_type passenger_event) [
        | none ↦ returns (m, log (codes "OnMessage") (codes "parse error: " ++ msg) ∷ [])
        | some event_type ↦
            record_passenger_event (record { station_id = station_id; event_type = event_type })
              m.network
            >>= λ (_, network). returns (record m { network = network }, [])
      ]

  unfoldable pub on_message : StompClientError → Text → NetworkMonitor → Handled
  on_message code msg m =
      (if has_succeeded code
        then on_event msg m
        else returns (m, log (codes "OnMessage") (codes "receive error: " ++ msg) ∷ []))
      >>= λ (m', out). returns (m', log (codes "Received:") msg ∷ out)

  -- A call of one of the functions.
  unfoldable pub on_call :
      ℕ → ℕ → MonitorFunction → StompClientError → Text → NetworkMonitor → Handled
  on_call first second subscribe_on_connect code msg m =
      let line = log_result (codes "OnConnect") code msg in
      if has_succeeded code
      then (subscribe_client first second m >>= λ (m', out). returns (m', line ∷ out))
      else returns (m, line ∷ [])
  on_call first second handle_on_message code msg m = on_message code msg m
  on_call first second log_subscribe code msg m =
      returns (m, log_result (codes "OnSubscribe") code msg ∷ [])
  on_call first second log_disconnect code msg m =
      returns (m, log_result (codes "OnDisconnect") code msg ∷ [])
  on_call first second log_close code msg m =
      returns
        (m, log (codes "OnClose") (if has_succeeded code then codes "ok" else codes "error") ∷ [])

  -- The effects of a method of the client: calls run the functions, all else goes out. A method
  -- calls a function last, but for the function that is passed to `ws_.Close`; that calls
  -- `log_close`, which only writes a line.
  unfoldable pub perform : ℕ → ℕ → List (Effect MonitorFunction) → NetworkMonitor → Handled
  perform first second [] m = returns (m, [])
  perform first second (call role f code msg ∷ effects) m =
      on_call first second f code msg m >>= λ (m1, out).
      perform first second effects m1 >>= λ (m2, rest). returns (m2, out ++ rest)
  perform first second (effect ∷ effects) m =
      perform first second effects m >>= λ (m1, rest). returns (m1, performs effect ∷ rest)

-- `Configure`; the arguments are what the JSON library makes of the file at a path, and what the TLS
-- library makes of a certificate. Each may throw.
module _ {J : Type 0} (json : JsonLibrary J) (parse_file : Text → Outcome J)
    (load_verify_file : Text → Outcome (Unit {0})) where
  unfoldable pub configure :
      NetworkMonitorConfig → NetworkMonitor → Outcome (Bool × NetworkMonitor × List Output)
  configure config m = parse_file config.network_layout_path >>= λ src.
      from_json json src m.network >>= λ (success, network).
      if not success
      then returns (false, record m { network = network }, [])
      else load_verify_file config.cert_path >>= λ _.
          connect (some subscribe_on_connect) (some log_disconnect)
            (new_client config.url config.endpoint)
          >>= λ (c, effects).
              returns (true, record { network = network; client = some c }, map performs effects)

-- The timer of `Run` that has expired.
unfoldable pub on_timer : NetworkMonitor → Handled
on_timer m = elim m.client [
  | none ↦ undefined_behaviour
  | some c ↦ close (some log_close) c >>= λ (c', effects).
      returns (record m { client = some c' }, map performs effects)
]
