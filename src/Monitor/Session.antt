-- ===== src/Monitor/Session.antt =====
-- The whole program with a server that answers: the layout is loaded, the client connects and
-- subscribes, and the counts of the network follow the messages.
use learncppthroughprojects.Prelude.{
  ℕ, true, false, some, List, [], ◌∷◌, All, Text, codes, ◌≡◌, refl, arith, length, Outcome, returns,
  ◌>>=◌,
}
use learncppthroughprojects.Prelude.Int.{◌+ℤ◌}
use learncppthroughprojects.Transport.Types.{PassengerEvent, TransportNetwork}
use learncppthroughprojects.Transport.Network.{new_network, get_passenger_count}
use learncppthroughprojects.Transport.Reading.{JsonLibrary, from_json}
use learncppthroughprojects.Transport.Passengers.{balance, Within, get_passenger_count-record_all}
use learncppthroughprojects.Client.Types.{
  StompClientError, StompClient, new_client, connect_sent, subscribe_sent, Effect, connect_ws,
  send_ws, call, connect_callback, subscribe_callback,
}
use learncppthroughprojects.Client.Handlers.{
  to_string, connect_text, subscribe_text, connect, subscribe, on_ws_connected, on_ws_connect,
  on_sent, invoke_if_set,
}
use learncppthroughprojects.Client.Frames.{ServerFrame, IsReadable}
use learncppthroughprojects.Stomp.Types.{StompCommand}
use learncppthroughprojects.Client.Events.{Event, dispatch, ws_connected, ws_message, ws_sent}
use learncppthroughprojects.Client.Delivery.{
  IsReceipt, connected_text, receipt_text, subscribed_client, message_handler-connected_text,
  message_handler-receipt_text,
}
use learncppthroughprojects.Monitor.Types.{
  NetworkMonitorConfig, MonitorFunction, subscribe_on_connect, handle_on_message, log_subscribe,
  log_disconnect, NetworkMonitor, Output, performs,
}
use learncppthroughprojects.Monitor.Handlers.{
  log, new_monitor, on_call, subscribe_client, perform, configure,
}
use learncppthroughprojects.Monitor.Events.{handle, run}
use learncppthroughprojects.Monitor.Delivery.{
  run-cons, IsReport, report_texts, events_of, received_all, run-record_all,
}

abbrev pub connecting_client : Text → Text → StompClient MonitorFunction
connecting_client url endpoint = record (new_client url endpoint) {
  on_connect = some subscribe_on_connect;
  on_disconnect = some log_disconnect;
}

abbrev pub monitor_client : Text → Text → ℕ → ℕ → StompClient MonitorFunction
monitor_client url endpoint first second =
    subscribed_client url endpoint subscribe_on_connect log_disconnect log_subscribe
      handle_on_message first second

abbrev pub monitor_with : StompClient MonitorFunction → TransportNetwork → NetworkMonitor
monitor_with c n = record { network = n; client = some c }

-- What the server answers with in the handshake, and the numbers that the client draws.
pub record Handshake : Type 0 where
  pub first : ℕ
  pub second : ℕ
  pub hello : ServerFrame
  pub receipt : ServerFrame

pub record IsHandshake (h : Handshake) : Type 0 where
  pub greets : IsReadable StompCommand.connected h.hello
  pub confirms : IsReceipt (to_string h.second) h.receipt

-- What the WebSocket client tells the STOMP client after `Configure`.
abbrev pub answers :
    NetworkMonitorConfig
    → Handshake
    → List (ServerFrame × PassengerEvent)
    → List (Event MonitorFunction)
answers config h reports =
    ws_connected false config.username config.password
    ∷ ws_sent connect_sent false
    ∷ ws_message false (connected_text h.hello)
    ∷ ws_sent subscribe_sent false
    ∷ ws_message false (receipt_text h.receipt)
    ∷ report_texts reports

abbrev pub outputs :
    NetworkMonitorConfig → Handshake → List (ServerFrame × PassengerEvent) → List Output
outputs config h reports =
    performs (send_ws (connect_text config.url config.username config.password) connect_sent)
    ∷ log (codes "OnConnect") (codes "ok")
    ∷ performs (send_ws (subscribe_text (to_string h.first) (to_string h.second)) subscribe_sent)
    ∷ log (codes "OnSubscribe") (codes "ok")
    ∷ received_all reports

module _ {J : Type 0} (json : JsonLibrary J) (parse_file : Text → Outcome J)
    (load_verify_file : Text → Outcome (Unit {0})) (read_event : Text → Outcome (Text × Text)) where
  configure-load :
      (config : NetworkMonitorConfig) (src : J) (n : TransportNetwork)
      → parse_file config.network_layout_path ≡ returns src
      → from_json json src new_network ≡ returns (true, n)
      → load_verify_file config.cert_path ≡ returns tt
      → configure json parse_file load_verify_file config new_monitor
        ≡ returns (
          true,
          monitor_with (connecting_client config.url config.endpoint) n,
          performs connect_ws ∷ [],
        )
  unfolding configure connect
  configure-load config src n reads loads verifies = ground (arith, reads, loads, verifies)

  handle-dispatch :
      (c c' : StompClient MonitorFunction) (n : TransportNetwork) (first second : ℕ)
      (e : Event MonitorFunction) (effects : List (Effect MonitorFunction))
      → dispatch e c ≡ returns (c', effects)
      → handle read_event first second e (monitor_with c n)
        ≡ perform read_event first second effects (monitor_with c' n)
  unfolding handle
  handle-dispatch c c' n first second e effects h = rw h refl

  -- The handshake, and then what the monitor does with the rest.
  run-handshake :
      (config : NetworkMonitorConfig) (h : Handshake)
      (reports : List (ServerFrame × PassengerEvent)) (n n' : TransportNetwork)
      → IsHandshake h
      → run read_event h.first h.second
          (report_texts reports)
          (monitor_with (monitor_client config.url config.endpoint h.first h.second) n)
        ≡ returns (
          monitor_with (monitor_client config.url config.endpoint h.first h.second) n',
          received_all reports,
        )
      → run read_event h.first h.second
          (answers config h reports)
          (monitor_with (connecting_client config.url config.endpoint) n)
        ≡ returns (
          monitor_with (monitor_client config.url config.endpoint h.first h.second) n',
          outputs config h reports,
        )
  unfolding handle dispatch on_ws_connected on_ws_connect on_sent perform on_call subscribe_client
      subscribe
  run-handshake config h reports n n' w rest =
      let c = monitor_client config.url config.endpoint h.first h.second in
      let c0 = connecting_client config.url config.endpoint in
      let c2 = record c { subscribed = false } in
      let m0 = monitor_with c0 n in
      let m2 = monitor_with c2 n in
      let m = monitor_with c n in
      let m' = monitor_with c n' in
      let next = run-cons read_event h.first h.second in
      let connected : dispatch (ws_message false (connected_text h.hello)) c0
          ≡ returns (
            record c0 { connected = true },
            call connect_callback subscribe_on_connect StompClientError.ok [] ∷ [],
          ) =
        unfold invoke_if_set in message_handler-connected_text c0 h.hello w.greets in
      let subscribed : dispatch (ws_message false (receipt_text h.receipt)) c2
          ≡ returns (
            c,
            call subscribe_callback log_subscribe StompClientError.ok (codes "Success") ∷ [],
          ) =
        unfold invoke_if_set in message_handler-receipt_text c2 h.receipt w.confirms in
      next _ _ m0 m0 m' _ _ refl (
        next _ _ m0 m0 m' [] _ refl (
          next _ _ m0 m2 m' _ _
            (handle-dispatch c0 (record c0 { connected = true }) n h.first h.second
              (ws_message false (connected_text h.hello)) _ connected)
            (next _ _ m2 m2 m' [] _ refl (
              next _ _ m2 m m' _ _
                (handle-dispatch c2 c n h.first h.second (ws_message false (receipt_text h.receipt))
                  _ subscribed)
                rest))))

  -- The program from Configure on: the layout file is read, FromJson of it returns true and leaves the
  -- network n, and the certificate is read; the server accepts the WebSocket connection, answers the
  -- frames of the client with any CONNECTED frame and any RECEIPT frame with the receipt-id of the
  -- subscription, and sends any MESSAGE frames of it to /passengers, each of the wire format, below
  -- 2 ^ 32 bytes, with headers that suit its command and with a right content-length, and the
  -- messages with a body that the JSON library reads as a passenger event; and no counter of n is
  -- so near an end of `int` that the messages could reach it. Then nothing throws, Configure
  -- returns true, the outputs are the two frames and the lines of the log in order, and each
  -- station counts what it counted in n, plus its own events of type In, minus its own events of
  -- type Out.
  pub run-answers :
      (config : NetworkMonitorConfig) (src : J) (n : TransportNetwork) (h : Handshake)
      (reports : List (ServerFrame × PassengerEvent))
      → parse_file config.network_layout_path ≡ returns src
      → from_json json src new_network ≡ returns (true, n)
      → load_verify_file config.cert_path ≡ returns tt
      → IsHandshake h
      → All (IsReport read_event (to_string h.first)) reports
      → Within (length (events_of reports)) n
      → (configure json parse_file load_verify_file config new_monitor
          ≡ returns (
            true,
            monitor_with (connecting_client config.url config.endpoint) n,
            performs connect_ws ∷ [],
          ))
        × (n' : TransportNetwork) × (run read_event h.first h.second
              (answers config h reports)
              (monitor_with (connecting_client config.url config.endpoint) n)
            ≡ returns (
              monitor_with (monitor_client config.url config.endpoint h.first h.second) n',
              outputs config h reports,
            ))
        × ((s : Text)
            → get_passenger_count s n'
              ≡ (get_passenger_count s n >>= λ k. returns (k +ℤ balance s (events_of reports))))
  run-answers config src n h reports reads loads verifies w all_report within =
      let (n', recorded, counts) = get_passenger_count-record_all (events_of reports) n within in
      let c = monitor_client config.url config.endpoint h.first h.second in
      (
        configure-load config src n reads loads verifies,
        n',
        run-handshake config h reports n n' w
            (run-record_all read_event c h.first h.second reports n n' refl all_report recorded),
        counts,
      )
