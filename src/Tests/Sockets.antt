-- ===== src/Tests/Sockets.antt =====
-- Runs of a `WebSocketClient`, and its properties applied to them.
use learncppthroughprojects.Prelude.{ℕ, ◌+◌, ◌≤◌, some, List, [], ◌∷◌, codes, ◌≡◌, refl, returns}
use learncppthroughprojects.WebSocket.Types.{
  success, failure, WebSocketClient, resolve, connect_tcp, handshake_tls, handshake_ws, read,
  Effect, start, call_connect, call_message, new_web_socket,
}
use learncppthroughprojects.WebSocket.Client.{
  connect, proceed, on_resolve, on_connect_tcp, on_tls_handshake, on_handshake,
  listen_to_incoming_message, on_read, on_received, complete,
}
use learncppthroughprojects.WebSocket.World.{World, Move, connects, ends, move, run}
use learncppthroughprojects.WebSocket.Reports.{
  is_establishing, is_chain, is_read, is_call_connect, is_call_disconnect, total, count,
}
use learncppthroughprojects.WebSocket.Connections.{connections, idle_world, run-connections}
use learncppthroughprojects.WebSocket.Losses.{run-silent}

-- A connection that is established, receives one message, and then fails.
abbrev moves : List (Move ℕ)
moves =
    connects (some 1) (some 2) (some 3)
    ∷ ends 0 success []
    ∷ ends 0 success []
    ∷ ends 0 success []
    ∷ ends 0 success []
    ∷ ends 0 success (codes "hi")
    ∷ []

abbrev listening_client : WebSocketClient ℕ
listening_client = record (new_web_socket (codes "u") (codes "/e") (codes "443")) {
  on_connect = some 1;
  on_message = some 2;
  on_disconnect = some 3;
}

abbrev listening : World ℕ
listening = record { client = listening_client; pending = read ∷ [] }

abbrev effects : List (Effect ℕ)
effects =
    start (resolve (codes "u") (codes "443"))
    ∷ start connect_tcp
    ∷ start handshake_tls
    ∷ start (handshake_ws (codes "u") (codes "/e"))
    ∷ call_connect 1 success
    ∷ start read
    ∷ call_message 2 success (codes "hi")
    ∷ start read
    ∷ []

moves-returns :
    run moves (idle_world (codes "u") (codes "/e") (codes "443")) ≡ returns (listening, effects)
unfolding run move connect complete proceed on_resolve on_connect_tcp on_tls_handshake on_handshake
    listen_to_incoming_message on_read on_received
moves-returns = refl

run-connections_example :
    (total is_establishing listening.pending + count is_call_connect effects ≡ connections moves)
    × (total is_chain listening.pending ≤ connections moves)
run-connections_example =
    run-connections (codes "u") (codes "/e") (codes "443") moves listening effects refl
      moves-returns

abbrev two_failures : List (Move ℕ)
two_failures = ends 0 failure [] ∷ ends 0 failure [] ∷ []

abbrev two_reads : List (Effect ℕ)
two_reads = start read ∷ start read ∷ []

two_failures-returns : run two_failures listening ≡ returns (listening, two_reads)
unfolding run move complete on_read on_received listen_to_incoming_message
two_failures-returns = refl

run-silent_example :
    (count is_call_disconnect two_reads ≡ 0)
    × (total is_read listening.pending ≤ total is_read listening.pending)
run-silent_example = run-silent two_failures listening listening two_reads refl two_failures-returns
