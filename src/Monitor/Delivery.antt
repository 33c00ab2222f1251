-- ===== src/Monitor/Delivery.antt =====
-- From the frames of the server to the counts of the network.
use learncppthroughprojects.Prelude.{
  ℕ, Bool, false, some, List, [], ◌∷◌, ◌++◌, map, All, Text, codes, ◌≡◌, refl, ap, ◌∙◌, arith,
  Outcome, returns, >>=-eq-returns,
}
use learncppthroughprojects.Transport.Types.{to_type, PassengerEvent, TransportNetwork}
use learncppthroughprojects.Transport.Network.{record_passenger_event}
use learncppthroughprojects.Transport.Passengers.{record_all}
use learncppthroughprojects.Client.Types.{StompClientError, StompClient, call, message_callback}
use learncppthroughprojects.Client.Handlers.{invoke}
use learncppthroughprojects.Client.Frames.{ServerFrame}
use learncppthroughprojects.Client.Events.{Event, dispatch, ws_message}
use learncppthroughprojects.Client.Delivery.{text_of, IsSendable, message_handler-message_text}
use learncppthroughprojects.Monitor.Types.{
  MonitorFunction, handle_on_message, NetworkMonitor, Output,
}
use learncppthroughprojects.Monitor.Handlers.{log, on_event, on_message, on_call, perform}
use learncppthroughprojects.Monitor.Events.{handle, run}

abbrev pub received : Text → Output
received body = log (codes "Received:") body

abbrev pub report_texts : List (ServerFrame × PassengerEvent) → List (Event MonitorFunction)
report_texts reports = map (λ r. ws_message false (text_of r.0)) reports

abbrev pub events_of : List (ServerFrame × PassengerEvent) → List PassengerEvent
events_of reports = map (λ r. r.1) reports

abbrev pub received_all : List (ServerFrame × PassengerEvent) → List Output
received_all reports = map (λ r. received r.0.body) reports

module _ (read_event : Text → Outcome (Text × Text)) where
  -- The body is read as the event.
  abbrev pub IsRead : Text → PassengerEvent → Type 0
  IsRead body event =
      (type : Text) × (read_event body ≡ returns (type, event.station_id))
      × (to_type type ≡ some event.event_type)

  -- A message whose body is read as an event that the network takes.
  on_message-IsRead :
      (body : Text) (event : PassengerEvent) (m : NetworkMonitor) (ok : Bool) (n : TransportNetwork)
      → IsRead body event
      → record_passenger_event event m.network ≡ returns (ok, n)
      → on_message read_event StompClientError.ok body m
        ≡ returns (record m { network = n }, received body ∷ [])
  unfolding on_message on_event
  on_message-IsRead body event m ok n (type, reads, is_type) h = ground (arith, reads, is_type, h)

  module _ (c : StompClient MonitorFunction) (set : c.on_message ≡ some handle_on_message) where
    abbrev pub monitor_of : TransportNetwork → NetworkMonitor
    monitor_of n = record { network = n; client = some c }

    handle-message :
        (first second : ℕ) (m : ServerFrame) (event : PassengerEvent) (n n' : TransportNetwork)
        (ok : Bool)
        → IsSendable c.subscription_id m
        → IsRead m.body event
        → record_passenger_event event n ≡ returns (ok, n')
        → handle read_event first second (ws_message false (text_of m)) (monitor_of n)
          ≡ returns (monitor_of n', received m.body ∷ [])
    unfolding handle dispatch perform on_call
    handle-message first second m event n n' ok sendable reads h =
        let sent : dispatch (ws_message false (text_of m)) c
            ≡ returns (c, call message_callback handle_on_message StompClientError.ok m.body ∷ []) =
          unfold invoke in message_handler-message_text c m sendable ∙ rw set refl in
        let told = on_message-IsRead m.body event (monitor_of n) ok n' reads h in
        ground (arith, sent, told)

  pub run-cons :
      (first second : ℕ) (e : Event MonitorFunction) (es : List (Event MonitorFunction))
      (m m1 m2 : NetworkMonitor) (xs ys : List Output)
      → handle read_event first second e m ≡ returns (m1, xs)
      → run read_event first second es m1 ≡ returns (m2, ys)
      → run read_event first second (e ∷ es) m ≡ returns (m2, xs ++ ys)
  unfolding run
  run-cons first second e es m m1 m2 xs ys h k = rw (h, k) refl

  -- A message with the event that its body is read as.
  abbrev pub IsReport : Text → ServerFrame × PassengerEvent → Type 0
  IsReport subscription (m, event) = IsSendable subscription m × IsRead m.body event

  -- The monitor records exactly the events of the messages, in their order.
  pub run-record_all :
      (c : StompClient MonitorFunction) (first second : ℕ)
      (reports : List (ServerFrame × PassengerEvent)) (n n' : TransportNetwork)
      → c.on_message ≡ some handle_on_message
      → All (IsReport c.subscription_id) reports
      → record_all (events_of reports) n ≡ returns n'
      → run read_event first second (report_texts reports) (record { network = n; client = some c })
        ≡ returns (record { network = n'; client = some c }, received_all reports)
  unfolding run record_all
  run-record_all c first second [] n n' set all_report h = ap (λ x. returns (x, [])) (ground arith)
  run-record_all c first second ((m, event) ∷ reports) n n' set ((sendable, reads), rest) h =
      let ((ok, n1), recorded, later) =
        >>=-eq-returns (record_passenger_event event n) (λ r. record_all (events_of reports) r.1)
          h in
      run-cons first second (ws_message false (text_of m)) (report_texts reports) _
        (record { network = n1; client = some c }) _ (received m.body ∷ []) _
        (handle-message c set first second m event n n1 ok sendable reads recorded)
        (run-record_all c first second reports n1 n' set rest later)
