-- ===== src/Tests/Sessions.antt =====
-- Sessions of the client and of the monitor with a server, and their properties applied to them.
use learncppthroughprojects.Prelude.{
  ℕ, ◌≤◌, true, false, some, List, [], ◌∷◌, Text, codes, ◌≡◌, refl, arith, Outcome, returns, ◌>>=◌,
  nat_eq, text_eq, text_beq,
}
use learncppthroughprojects.Prelude.Int.{◌+ℤ◌}
use learncppthroughprojects.Map.{insert, lookup, contains}
use learncppthroughprojects.Stomp.Types.{StompCommand}
use learncppthroughprojects.Stomp.Frame.{stomp_frame}
use learncppthroughprojects.Stomp.Validate.{refuse}
use learncppthroughprojects.Stomp.Wire.{render, header_lines}
use learncppthroughprojects.Stomp.Syntax.{parsed}
use learncppthroughprojects.Transport.Types.{
  PassengerEvent, passenger_in, TransportNetwork, to_type,
}
use learncppthroughprojects.Transport.Network.{
  new_network, add_station, get_station_node, put_node, get_passenger_count,
}
use learncppthroughprojects.Transport.Loading.{load_lines}
use learncppthroughprojects.Transport.Passengers.{balance, Within}
use learncppthroughprojects.Client.Types.{
  StompClientError, StompClient, new_client, Effect, connect_ws, send_ws, call, connect_sent,
  subscribe_sent, connect_callback, subscribe_callback, message_callback, disconnect_callback,
}
use learncppthroughprojects.Client.Handlers.{
  digits, to_string, connect_text, subscribe_text, connect, subscribe, on_ws_disconnected, invoke,
  is_connected, is_subscribed,
}
use learncppthroughprojects.Client.Frames.{
  connect_headers, subscribe_headers, stomp_frame-connect_text, stomp_frame-subscribe_text,
}
use learncppthroughprojects.Client.Events.{
  Event, dispatch, run, connects, subscribes, ws_disconnected,
}
use learncppthroughprojects.Client.Runs.{disconnects, run-disconnects, run-disconnected}
use learncppthroughprojects.Client.Delivery.{subscribed_client, session, run-session}
use learncppthroughprojects.Client.Frames.{ServerFrame}
use learncppthroughprojects.Transport.Reading.{from_json}
use learncppthroughprojects.Tests.Layouts.{Json, object, list, station_json, library}
use learncppthroughprojects.Tests.Servers.{
  hello, receipt_42, message_in, hello-IsReadable, receipt_42-IsReceipt, message_in-IsSendable,
}
use learncppthroughprojects.Monitor.Types.{NetworkMonitorConfig, performs}
use learncppthroughprojects.Monitor.Handlers.{configure, new_monitor}
use learncppthroughprojects.Monitor.Events
use learncppthroughprojects.Monitor.Session.{
  connecting_client, monitor_client, monitor_with, Handshake, answers, outputs, run-answers,
}

-- A client, with numbers for the caller's functions, whose connection is lost twice.
abbrev connected_client : StompClient ℕ
connected_client = record (new_client (codes "u") (codes "/e")) {
  connected = true;
  on_disconnect = some 2;
}

abbrev closed_client : StompClient ℕ
closed_client = record connected_client { disconnected = true }

abbrev two_losses : List (Event ℕ)
two_losses = ws_disconnected true ∷ ws_disconnected false ∷ []

abbrev one_report : List (Effect ℕ)
one_report = call disconnect_callback 2 StompClientError.error [] ∷ []

two_losses-returns : run two_losses connected_client ≡ returns (closed_client, one_report)
unfolding run dispatch on_ws_disconnected invoke
two_losses-returns = refl

run-disconnects_example :
    (disconnects one_report ≤ 1) × (disconnects one_report ≡ 1 → closed_client.disconnected ≡ true)
run-disconnects_example =
    run-disconnects two_losses connected_client closed_client one_report two_losses-returns

abbrev another_connect : List (Event ℕ)
another_connect = connects (some 1) (some 2) ∷ subscribes 7 42 (some 3) (some 4) ∷ []

abbrev again : StompClient ℕ
again = record closed_client {
  subscription_id = codes "7";
  receipt_id = codes "42";
  on_connect = some 1;
  on_disconnect = some 2;
  on_subscribe = some 3;
  on_message = some 4;
}

abbrev again_effects : List (Effect ℕ)
again_effects = connect_ws ∷ send_ws (subscribe_text (codes "7") (codes "42")) subscribe_sent ∷ []

another_connect-returns : run another_connect closed_client ≡ returns (again, again_effects)
unfolding run dispatch connect subscribe to_string digits
another_connect-returns = refl

run-disconnected_example :
    (is_connected again ≡ false) × (is_subscribed again ≡ false) × (disconnects again_effects ≡ 0)
run-disconnected_example =
    run-disconnected another_connect closed_client again again_effects refl another_connect-returns

stomp_frame-connect_text_example :
    stomp_frame (connect_text (codes "u") (codes "n") (codes "p"))
    ≡ returns (
        refuse (
          parsed StompCommand.stomp
            (connect_headers (codes "u") (codes "n") (codes "p"))
            []
            (connect_text (codes "u") (codes "n") (codes "p"))))
unfolding render header_lines
stomp_frame-connect_text_example =
    stomp_frame-connect_text (codes "u") (codes "n") (codes "p") (ground arith) (ground arith)
      (ground arith) (omega arith)

stomp_frame-subscribe_text_example :
    stomp_frame (subscribe_text (to_string 7) (to_string 42))
    ≡ returns (
        refuse (
          parsed StompCommand.subscribe
            (subscribe_headers (to_string 7) (to_string 42))
            []
            (subscribe_text (to_string 7) (to_string 42))))
unfolding render header_lines to_string digits
stomp_frame-subscribe_text_example = stomp_frame-subscribe_text 7 42 (omega arith)

run-session_example :
    run {F = ℕ}
      (session (codes "n") (codes "p") 1 2 3 4 7 42 hello receipt_42 (message_in ∷ []))
      (new_client (codes "u") (codes "/e"))
    ≡ returns (
      subscribed_client (codes "u") (codes "/e") 1 2 3 4 7 42,
      connect_ws
          ∷ send_ws (connect_text (codes "u") (codes "n") (codes "p")) connect_sent
          ∷ call connect_callback 1 StompClientError.ok []
          ∷ send_ws (subscribe_text (to_string 7) (to_string 42)) subscribe_sent
          ∷ call subscribe_callback 3 StompClientError.ok (codes "Success")
          ∷ call message_callback 4 StompClientError.ok (codes "in")
          ∷ [],
    )
run-session_example =
    run-session (codes "u") (codes "/e") (codes "n") (codes "p") 1 2 3 4 7 42 hello receipt_42
      (message_in ∷ []) hello-IsReadable receipt_42-IsReceipt (message_in-IsSendable, tt)

-- The monitor of a network of one station; the body of the message is the type of the event.
abbrev one_layout : Json
one_layout = object (
    (codes "stations", list (station_json (codes "a") (codes "A") ∷ []))
    ∷ (codes "lines", list [])
    ∷ (codes "travel_times", list [])
    ∷ [])

abbrev one_station : TransportNetwork
one_station = (add_station (record { id = codes "a"; name = codes "A" }) new_network).1

abbrev one_config : NetworkMonitorConfig
one_config = record {
  url = codes "u";
  endpoint = codes "/e";
  port = codes "443";
  username = codes "n";
  password = codes "p";
  stomp_endpoint = codes "/s";
  cert_path = [];
  network_layout_path = codes "l";
}

abbrev one_handshake : Handshake
one_handshake = record { first = 7; second = 42; hello = hello; receipt = receipt_42 }

abbrev in_at_a : ServerFrame × PassengerEvent
in_at_a = (message_in, record { station_id = codes "a"; event_type = passenger_in })

abbrev parse_one : Text → Outcome Json
parse_one path = returns one_layout

abbrev verify_any : Text → Outcome (Unit {0})
verify_any path = returns tt

abbrev read_type : Text → Outcome (Text × Text)
read_type body = returns (body, codes "a")

one_layout-loads : from_json library one_layout new_network ≡ returns (true, one_station)
unfolding from_json load_lines lookup insert contains text_beq add_station get_station_node put_node
one_layout-loads = refl

one_station-Within : Within 1 one_station
unfolding add_station get_station_node put_node lookup insert text_beq
one_station-Within s node h = ground arith

codes_in : to_type (codes "in") ≡ some passenger_in
unfolding to_type text_beq
codes_in = refl

run-answers_example :
    (configure library parse_one verify_any one_config new_monitor
      ≡ returns (
        true,
        monitor_with (connecting_client (codes "u") (codes "/e")) one_station,
        performs connect_ws ∷ [],
      ))
    × (n' : TransportNetwork) × (Events.run read_type 7 42
          (answers one_config one_handshake (in_at_a ∷ []))
          (monitor_with (connecting_client (codes "u") (codes "/e")) one_station)
        ≡ returns (
          monitor_with (monitor_client (codes "u") (codes "/e") 7 42) n',
          outputs one_config one_handshake (in_at_a ∷ []),
        ))
    × ((s : Text)
        → get_passenger_count s n'
          ≡ (get_passenger_count s one_station >>= λ k. returns (k +ℤ balance s (in_at_a.1 ∷ []))))
run-answers_example =
    run-answers library parse_one verify_any read_type one_config one_layout one_station
      one_handshake (in_at_a ∷ []) refl one_layout-loads refl
      (record { greets = hello-IsReadable; confirms = receipt_42-IsReceipt })
      ((message_in-IsSendable, (codes "in", refl, codes_in)), tt) one_station-Within
