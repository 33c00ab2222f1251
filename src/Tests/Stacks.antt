-- ===== src/Tests/Stacks.antt =====
-- The two clients together, and the properties of them applied.
use learncppthroughprojects.Prelude.{
  ℕ, true, some, List, [], ◌∷◌, codes, ◌≡◌, refl, all, returns, throws, undefined_behaviour,
}
use learncppthroughprojects.Client
use learncppthroughprojects.Client.Types.{
  StompClientError, Effect, new_client, connect_ws, send_ws, call, connect_sent, subscribe_sent,
  connect_callback, subscribe_callback, message_callback,
}
use learncppthroughprojects.Client.Handlers.{
  connect_text, subscribe_text, to_string, connect, close, on_ws_connected, on_ws_connect,
}
use learncppthroughprojects.Client.Events.{Event, dispatch}
use learncppthroughprojects.Client.Runs.{disconnects}
use learncppthroughprojects.Client.Delivery.{subscribed_client}
use learncppthroughprojects.WebSocket
use learncppthroughprojects.WebSocket.Types.{operation_aborted, success}
use learncppthroughprojects.WebSocket.Client.{
  complete, on_resolve, on_connect_tcp, on_tls_handshake, on_handshake, proceed, on_read,
  on_written, listen_to_incoming_message,
}
use learncppthroughprojects.Stack.{
  Stack, Move, connects, closes, ends, call_ws, call_ws_all, receive, event_of, deliver, move, run,
  new_stack,
}
use learncppthroughprojects.Stack.Told.{is_told}
use learncppthroughprojects.Stack.Runs.{run-events, run-disconnects_none}
use learncppthroughprojects.Stack.Steps.{reading}
use learncppthroughprojects.Stack.Session.{moves, run-moves}
use learncppthroughprojects.Tests.Servers.{
  hello, receipt_42, message_in, hello-IsReadable, receipt_42-IsReceipt, message_in-IsSendable,
}

-- A connection of which the name is resolved, and then the handshakes succeed.
abbrev connected_moves : List (Move ℕ)
connected_moves =
    connects (some 1) (some 2)
    ∷ ends 0 success [] [] []
    ∷ ends 0 success [] [] []
    ∷ ends 0 success [] [] []
    ∷ ends 0 success [] (codes "n") (codes "p")
    ∷ []

abbrev fresh : Stack ℕ
fresh = new_stack (codes "u") (codes "/e") (codes "443")

abbrev connected : Stack ℕ × List (Effect ℕ)
connected = elim (run connected_moves fresh) [
  | returns r ↦ r
  | throws x ↦ (fresh, [])
  | undefined_behaviour ↦ (fresh, [])
]

connected-returns : run connected_moves fresh ≡ returns connected
unfolding run move complete on_resolve on_connect_tcp on_tls_handshake on_handshake proceed
    listen_to_incoming_message deliver event_of receive dispatch call_ws_all call_ws connect
    on_ws_connected on_ws_connect WebSocket.Client.connect WebSocket.Client.send
connected-returns = refl

run-events_example :
    (es : List (Event ℕ)) × (Client.Events.run es (new_client (codes "u") (codes "/e"))
      ≡ returns (connected.0.stomp, connected.1))
    × (all is_told es ≡ true)
run-events_example =
    run-events (codes "u") (codes "/e") (codes "443") connected_moves connected.0 connected.1
      connected-returns

-- Close is called, and the read that is pending is aborted.
abbrev closed_moves : List (Move ℕ)
closed_moves = ends 1 operation_aborted [] [] [] ∷ []

abbrev closed : Stack ℕ × List (Effect ℕ)
closed = elim (run (closes (some 5) ∷ closed_moves) connected.0) [
  | returns r ↦ r
  | throws x ↦ (fresh, [])
  | undefined_behaviour ↦ (fresh, [])
]

closed-returns : run (closes (some 5) ∷ closed_moves) connected.0 ≡ returns closed
unfolding run move complete on_resolve on_connect_tcp on_tls_handshake on_handshake proceed
    listen_to_incoming_message deliver event_of receive dispatch call_ws_all call_ws connect close
    on_ws_connected on_ws_connect on_read WebSocket.Client.on_received WebSocket.Client.connect
    WebSocket.Client.send WebSocket.Client.close
closed-returns = refl

run-disconnects_none_example : disconnects closed.1 ≡ 0
run-disconnects_none_example =
    run-disconnects_none (codes "u") (codes "/e") (codes "443") connected_moves closed_moves
      (some 5) connected.0 closed.0 connected.1 closed.1 connected-returns closed-returns refl

run-moves_example :
    run {F = ℕ}
      (moves (codes "n") (codes "p") 1 2 3 4 7 42 hello receipt_42 (message_in ∷ []))
      (new_stack (codes "u") (codes "/e") (codes "443"))
    ≡ returns (
      reading
          (codes "u")
          (codes "/e")
          (codes "443")
          (subscribed_client (codes "u") (codes "/e") 1 2 3 4 7 42),
      connect_ws
          ∷ send_ws (connect_text (codes "u") (codes "n") (codes "p")) connect_sent
          ∷ call connect_callback 1 StompClientError.ok []
          ∷ send_ws (subscribe_text (to_string 7) (to_string 42)) subscribe_sent
          ∷ call subscribe_callback 3 StompClientError.ok (codes "Success")
          ∷ call message_callback 4 StompClientError.ok (codes "in")
          ∷ [],
    )
run-moves_example =
    run-moves (codes "u") (codes "/e") (codes "443") (codes "n") (codes "p") 1 2 3 4 7 42 hello
      receipt_42 (message_in ∷ []) hello-IsReadable receipt_42-IsReceipt (message_in-IsSendable, tt)
