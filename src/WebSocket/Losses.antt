-- ===== src/WebSocket/Losses.antt =====
-- What the caller is told when the connection is lost.
use learncppthroughprojects.Prelude.{
  ℕ, ◌≤◌, Bool, true, false, not, Option, none, some, List, [], ◌∷◌, Text, ◌≡◌, refl, ap, arith,
  all, returns, Ensures, Ensures-then, Ensures-if, ret, raised, Ensures-returns, get_elem?,
  Option-cases, inl, inr,
}
use learncppthroughprojects.WebSocket.Types.{
  ErrorCode, is_error, is_aborted, WebSocketClient, Operation, resolve, connect_tcp, handshake_tls,
  handshake_ws, read, write, close_ws, Effect,
}
use learncppthroughprojects.WebSocket.Client.{
  connect, send, close, complete, proceed, on_resolve, on_connect_tcp, on_tls_handshake,
  on_handshake, on_read, on_received, on_written, listen_to_incoming_message,
}
use learncppthroughprojects.WebSocket.World.{
  World, Move, connects, sends, closes, ends, started, remove_at, after, move, run,
}
use learncppthroughprojects.WebSocket.Reports.{
  is_read, is_call_disconnect, total, count, total-append, count-append, total-remove_at,
}
use learncppthroughprojects.WebSocket.Connections.{run-cons-returns}

module _ {F : Type 0} where
  -- No operation ends with `operation_aborted`.
  abbrev pub is_not_aborted : Move F → Bool
  is_not_aborted (ends _ ec _) = not (is_aborted ec)
  is_not_aborted _ = true

  -- No call of `onDisconnect`, and no fewer reads than before.
  abbrev Silent : ℕ → WebSocketClient F × List (Effect F) → Type 0
  Silent reads (c, out) = (count is_call_disconnect out ≡ 0) × (reads ≤ total is_read (started out))

  proceed-Silent :
      (next : Operation F) (ec : ErrorCode) (c : WebSocketClient F)
      → Silent 0 (c, proceed next ec c)
  unfolding proceed
  proceed-Silent next ec c = (ground arith, omega arith)

  on_handshake-Silent :
      (ec : ErrorCode) (c : WebSocketClient F)
      → is_aborted ec ≡ false
      → Ensures (Silent 0) (on_handshake ec c)
  unfolding on_handshake listen_to_incoming_message
  on_handshake-Silent ec c kept = elim (Option-cases c.on_connect) [
    | inl e ↦ simp e (Ensures-if (is_error ec) _ _ raised (ret (ground arith, omega arith)))
    | inr (f, e) ↦
        simp e
          (Ensures-if (is_error ec) _ _ (ret (refl, omega arith)) (ret (ground arith, omega arith)))
  ]

  on_received-Silent :
      (ec : ErrorCode) (received : Text) (c : WebSocketClient F)
      → is_aborted ec ≡ false
      → Silent 1 (on_received ec received c)
  unfolding on_received on_read listen_to_incoming_message
  on_received-Silent ec received c kept = (ground arith, ground arith)

  on_written-Silent :
      (on_send : Option F) (ec : ErrorCode) (c : WebSocketClient F)
      → Ensures (Silent 0) (on_written on_send ec c)
  unfolding on_written
  on_written-Silent none ec c = Ensures-if (is_error ec) _ _ (ret (refl, omega arith)) raised
  on_written-Silent (some f) ec c =
      Ensures-if (is_error ec) _ _ (ret (refl, omega arith)) (ret (refl, omega arith))

  complete-Silent :
      (op : Operation F) (ec : ErrorCode) (received : Text) (c : WebSocketClient F)
      → is_aborted ec ≡ false
      → Ensures (Silent (is_read op)) (complete op ec received c)
  unfolding complete on_resolve on_connect_tcp on_tls_handshake
  complete-Silent (resolve url port) ec received c kept = ret (proceed-Silent connect_tcp ec c)
  complete-Silent connect_tcp ec received c kept = ret (proceed-Silent handshake_tls ec c)
  complete-Silent handshake_tls ec received c kept =
      ret (proceed-Silent (handshake_ws c.url c.endpoint) ec c)
  complete-Silent (handshake_ws url endpoint) ec received c kept = on_handshake-Silent ec c kept
  complete-Silent read ec received c kept = ret (on_received-Silent ec received c kept)
  complete-Silent (write text on_send) ec received c kept = on_written-Silent on_send ec c
  complete-Silent (close_ws none) ec received c kept = ret (refl, omega arith)
  complete-Silent (close_ws (some f)) ec received c kept = ret (refl, omega arith)

  -- The same for a move.
  abbrev Stays : World F → World F × List (Effect F) → Type 0
  Stays w (w', out) =
      (count is_call_disconnect out ≡ 0) × (total is_read w.pending ≤ total is_read w'.pending)

  move-Stays : (m : Move F) (w : World F) → is_not_aborted m ≡ true → Ensures (Stays w) (move m w)
  unfolding move connect send close
  move-Stays (connects f g h) w kept = ret (
    refl,
    omega (arith, total-append is_read w.pending (resolve w.client.url w.client.port ∷ [])),
  )
  move-Stays (sends message on_send) w kept =
      ret (refl, omega (arith, total-append is_read w.pending (write message on_send ∷ [])))
  move-Stays (closes on_close) w kept =
      ret (refl, omega (arith, total-append is_read w.pending (close_ws on_close ∷ [])))
  move-Stays (ends i ec received) w kept = elim (Option-cases (get_elem? w.pending i)) [
    | inl missing ↦ rw (missing, move) (ret (refl, omega arith))
    | inr (op, at) ↦
        rw (at, move)
          (Ensures-then (λ r. returns (after (remove_at i w.pending) r))
            (complete-Silent op ec received w.client (ground arith))
            (λ r s. ret (
              s.0,
              omega (
                arith,
                s.1,
                total-remove_at is_read i w.pending at,
                total-append is_read (remove_at i w.pending) (started r.1),
              ),
            )))
  ]

  -- Over any calls and any ends of operations, none of them with operation_aborted, and unless a
  -- call throws: onDisconnect is never called, whatever other errors the reads end with, and there
  -- are no fewer reads pending than at the start, since each of them is started anew.
  pub run-silent :
      (ms : List (Move F)) (w w' : World F) (out : List (Effect F))
      → all is_not_aborted ms ≡ true
      → run ms w ≡ returns (w', out)
      → (count is_call_disconnect out ≡ 0) × (total is_read w.pending ≤ total is_read w'.pending)
  unfolding run
  run-silent [] w w' out kept h =
      Ensures-returns {P = Stays w} (ret {a = (w, [])} (refl, omega arith)) h
  run-silent (m ∷ ms) w w' out kept h =
      let (w1, first, rest, here, there, both) = run-cons-returns m ms w w' out h in
      let s1 = Ensures-returns (move-Stays m w (ground arith)) here in
      let s2 = run-silent ms w1 w' rest (ground arith) there in
      let calls_of = ap (count is_call_disconnect) both in
      (
        omega (arith, s1.0, s2.0, calls_of, count-append is_call_disconnect first rest),
        omega (arith, s1.1, s2.1),
      )
