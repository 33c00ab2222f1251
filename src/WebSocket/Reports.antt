-- ===== src/WebSocket/Reports.antt =====
-- How often the caller is told of a connection, over every sequence of moves.
use learncppthroughprojects.Prelude.{
  ℕ, zero, suc, ◌+◌, ◌≤◌, Option, none, some, List, [], ◌∷◌, ◌++◌, Text, ◌≡◌, refl, arith, Ensures,
  ret, raised, Ensures-if, get_elem?, Bool-cases, inl, inr,
}
use learncppthroughprojects.WebSocket.Types.{
  ErrorCode, is_error, WebSocketClient, Operation, resolve, connect_tcp, handshake_tls,
  handshake_ws, read, write, close_ws, Effect, call_connect, call_disconnect,
}
use learncppthroughprojects.WebSocket.Client.{
  complete, proceed, on_resolve, on_connect_tcp, on_tls_handshake, on_handshake, on_read,
  on_received, on_written, listen_to_incoming_message,
}
use learncppthroughprojects.WebSocket.World.{started, remove_at}

module _ {F : Type 0} where
  -- The operations before the connection is established.
  abbrev pub is_establishing : Operation F → ℕ
  is_establishing (resolve _ _) = 1
  is_establishing connect_tcp = 1
  is_establishing handshake_tls = 1
  is_establishing (handshake_ws _ _) = 1
  is_establishing _ = 0

  abbrev pub is_read : Operation F → ℕ
  is_read read = 1
  is_read _ = 0

  abbrev pub total : (Operation F → ℕ) → List (Operation F) → ℕ
  total p [] = 0
  total p (op ∷ ops) = p op + total p ops

  abbrev pub is_call_connect : Effect F → ℕ
  is_call_connect (call_connect _ _) = 1
  is_call_connect _ = 0

  abbrev pub is_call_disconnect : Effect F → ℕ
  is_call_disconnect (call_disconnect _ _) = 1
  is_call_disconnect _ = 0

  abbrev pub count : (Effect F → ℕ) → List (Effect F) → ℕ
  count p [] = 0
  count p (e ∷ es) = p e + count p es

  pub total-append :
      (p : Operation F → ℕ) (xs ys : List (Operation F))
      → total p (xs ++ ys) ≡ total p xs + total p ys
  total-append p [] ys = omega arith
  total-append p (x ∷ xs) ys = omega (arith, total-append p xs ys)

  pub count-append :
      (p : Effect F → ℕ) (xs ys : List (Effect F)) → count p (xs ++ ys) ≡ count p xs + count p ys
  count-append p [] ys = omega arith
  count-append p (x ∷ xs) ys = omega (arith, count-append p xs ys)

  pub total-remove_at :
      (p : Operation F → ℕ) (i : ℕ) (ops : List (Operation F)) {op : Operation F}
      → get_elem? ops i ≡ some op
      → total p ops ≡ p op + total p (remove_at i ops)
  total-remove_at p i [] h = cc
  total-remove_at p zero (x ∷ ops) h = ground arith
  total-remove_at p (suc i) (x ∷ ops) h = omega (arith, total-remove_at p i ops h)

  -- From `Connect` to the read that is always pending behind the handshake.
  abbrev pub is_chain : Operation F → ℕ
  is_chain op = is_establishing op + is_read op

  -- What the end of an operation does: an operation of the connection is followed by the next one
  -- or by a report, and a read by at most one read.
  abbrev pub Follows :
      Operation F → WebSocketClient F → WebSocketClient F × List (Effect F) → Type 0
  Follows op c (c', out) =
      (c'.on_connect ≡ c.on_connect)
      × (total is_establishing (started out) + count is_call_connect out ≡ is_establishing op)
      × (total is_chain (started out) ≤ is_chain op)

  proceed-Follows :
      (op next : Operation F) (ec : ErrorCode) (c : WebSocketClient F) (f : F)
      → c.on_connect ≡ some f
      → is_establishing op ≡ 1
      → is_establishing next ≡ 1
      → Follows op c (c, proceed next ec c)
  unfolding proceed
  proceed-Follows op next ec c f set one one' = elim (Bool-cases (is_error ec)) [
    | inl e ↦ rw (e, set) (refl, ground arith, ground arith)
    | inr e ↦ rw e (refl, ground arith, ground arith)
  ]

  -- A read is followed by a read, or by nothing that is counted here.
  listen-Follows :
      (ec : ErrorCode) (c : WebSocketClient F) → Follows read c (c, listen_to_incoming_message ec c)
  unfolding listen_to_incoming_message
  listen-Follows ec c = ground arith

  on_handshake-Follows :
      (url endpoint : Text) (ec : ErrorCode) (c : WebSocketClient F) (f : F)
      → c.on_connect ≡ some f
      → Ensures (Follows (handshake_ws url endpoint) c) (on_handshake ec c)
  unfolding on_handshake
  on_handshake-Follows url endpoint ec c f set =
      let listens = listen-Follows ec c in
      Ensures-if (is_error ec) _ _ (simp set (ret (refl, refl, omega arith)))
        (simp set (ret (refl, ground (arith, listens), ground (arith, listens))))

  on_received-Follows :
      (ec : ErrorCode) (received : Text) (c : WebSocketClient F)
      → Follows read c (on_received ec received c)
  unfolding on_received on_read listen_to_incoming_message
  on_received-Follows ec received c = ground arith

  on_written-Follows :
      (text : Text) (on_send : Option F) (ec : ErrorCode) (c : WebSocketClient F)
      → Ensures (Follows (write text on_send) c) (on_written on_send ec c)
  unfolding on_written
  on_written-Follows text none ec c =
      Ensures-if (is_error ec) _ _ (ret (refl, refl, omega arith)) raised
  on_written-Follows text (some f) ec c =
      Ensures-if (is_error ec) _ _ (ret (refl, refl, omega arith)) (ret (refl, refl, omega arith))

  pub complete-Follows :
      (op : Operation F) (ec : ErrorCode) (received : Text) (c : WebSocketClient F)
      → (is_establishing op ≡ 1 → (f : F) × (c.on_connect ≡ some f))
      → Ensures (Follows op c) (complete op ec received c)
  unfolding complete on_resolve on_connect_tcp on_tls_handshake
  complete-Follows (resolve url port) ec received c set =
      let (f, e) = set refl in
      ret (proceed-Follows (resolve url port) connect_tcp ec c f e refl refl)
  complete-Follows connect_tcp ec received c set =
      let (f, e) = set refl in ret (proceed-Follows connect_tcp handshake_tls ec c f e refl refl)
  complete-Follows handshake_tls ec received c set =
      let (f, e) = set refl in
      ret (proceed-Follows handshake_tls (handshake_ws c.url c.endpoint) ec c f e refl refl)
  complete-Follows (handshake_ws url endpoint) ec received c set =
      let (f, e) = set refl in on_handshake-Follows url endpoint ec c f e
  complete-Follows read ec received c set = ret (on_received-Follows ec received c)
  complete-Follows (write text on_send) ec received c set = on_written-Follows text on_send ec c
  complete-Follows (close_ws none) ec received c set = ret (refl, refl, omega arith)
  complete-Follows (close_ws (some f)) ec received c set = ret (refl, refl, omega arith)
