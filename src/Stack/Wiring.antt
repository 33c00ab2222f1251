-- ===== src/Stack/Wiring.antt =====
-- Which functions the WebSocketClient has for what, and when it calls them.
use learncppthroughprojects.Prelude.{
  ℕ, zero, suc, Bool, true, false, Option, none, some, List, [], ◌∷◌, ◌++◌, Text, ◌≡◌, refl, subst,
  arith, All, All-append, Ensures, ret, raised, Bool-cases, Option-cases, all, inl, inr,
}
use learncppthroughprojects.Client
use learncppthroughprojects.Client.Types.{SendHandler, connect_ws, send_ws, call, print}
use learncppthroughprojects.Client.Plain.{is_plain}
use learncppthroughprojects.WebSocket.Types.{
  ErrorCode, is_error, is_aborted, success, operation_aborted, failure, WebSocketClient, Operation,
  resolve, connect_tcp, handshake_tls, handshake_ws, read, write, close_ws, Effect, start,
  call_connect, call_message, call_disconnect, call_sent, call_closed,
}
use learncppthroughprojects.WebSocket
use learncppthroughprojects.WebSocket.Client.{
  calls_if_set, proceed, on_resolve, on_connect_tcp, on_tls_handshake, on_handshake,
  listen_to_incoming_message, on_read, on_written, complete,
}
use learncppthroughprojects.WebSocket.World.{World, remove_at}
use learncppthroughprojects.Stack.{
  WsFunction, on_connected, on_received, on_lost, on_frame_sent, on_ws_closed, call_ws, call_ws_all,
}

module _ {F : Type 0} where
  -- If it is set, it is the function that is passed for that.
  abbrev Set : (WsFunction F → Type 0) → Option (WsFunction F) → Type 0
  Set P none = Unit
  Set P (some f) = P f

  abbrev IsSent : WsFunction F → Type 0
  IsSent f = (h : SendHandler) × (f ≡ on_frame_sent h)

  abbrev IsClosed : WsFunction F → Type 0
  IsClosed f = (g : Option F) × (f ≡ on_ws_closed g)

  abbrev pub IsWiredOp : Operation (WsFunction F) → Type 0
  IsWiredOp (write _ f) = Set IsSent f
  IsWiredOp (close_ws f) = Set IsClosed f
  IsWiredOp _ = Unit

  abbrev pub IsWiredClient : WebSocketClient (WsFunction F) → Type 0
  IsWiredClient c =
      Set (λ f. f ≡ on_connected) c.on_connect
      × Set (λ f. f ≡ on_received) c.on_message
      × Set (λ f. f ≡ on_lost) c.on_disconnect

  abbrev pub IsWired : World (WsFunction F) → Type 0
  IsWired w = IsWiredClient w.client × All IsWiredOp w.pending

  -- What a call of a function is then for; a lost connection is not told when `closed` is set.
  abbrev pub IsFine : Bool → Effect (WsFunction F) → Type 0
  IsFine closed (start op) = IsWiredOp op
  IsFine closed (call_connect f ec) = f ≡ on_connected
  IsFine closed (call_message f ec text) = f ≡ on_received
  IsFine closed (call_disconnect f ec) = (f ≡ on_lost) × (closed ≡ false)
  IsFine closed (call_sent f ec) = IsSent f × (is_error ec ≡ false)
  IsFine closed (call_closed f ec) = IsClosed f

  abbrev pub Completed :
      WebSocketClient (WsFunction F)
      → WebSocketClient (WsFunction F) × List (Effect (WsFunction F))
      → Type 0
  Completed c (c', out) = IsWiredClient c' × (c'.closed ≡ c.closed) × All (IsFine c.closed) out

  calls_if_set-IsFine :
      (closed : Bool) (calling : WsFunction F → Effect (WsFunction F)) (P : WsFunction F → Type 0)
      (f : Option (WsFunction F))
      → ((g : WsFunction F) → P g → IsFine closed (calling g))
      → Set P f
      → All (IsFine closed) (calls_if_set calling f)
  calls_if_set-IsFine closed calling P none h set = tt
  calls_if_set-IsFine closed calling P (some g) h set = (h g set, tt)

  proceed-IsFine :
      (next : Operation (WsFunction F)) (ec : ErrorCode) (c : WebSocketClient (WsFunction F))
      → IsWiredClient c
      → IsWiredOp next
      → All (IsFine c.closed) (proceed next ec c)
  unfolding proceed
  proceed-IsFine next success c (set, _, _) op = (op, tt)
  proceed-IsFine next operation_aborted c (set, _, _) op =
      calls_if_set-IsFine c.closed _ (λ f. f ≡ on_connected) c.on_connect (λ g e. e) set
  proceed-IsFine next failure c (set, _, _) op =
      calls_if_set-IsFine c.closed _ (λ f. f ≡ on_connected) c.on_connect (λ g e. e) set

  listen-IsFine :
      (ec : ErrorCode) (c : WebSocketClient (WsFunction F))
      → IsWiredClient c
      → All (IsFine c.closed) (listen_to_incoming_message ec c)
  unfolding listen_to_incoming_message
  listen-IsFine success c set = (tt, tt)
  listen-IsFine failure c set = (tt, tt)
  listen-IsFine operation_aborted c (_, _, set) = elim (Bool-cases c.closed) [
    | inl e ↦ rw e tt
    | inr e ↦
        rw e (calls_if_set-IsFine false _ (λ f. f ≡ on_lost) c.on_disconnect (λ g h. (h, refl)) set)
  ]

  on_received-Completed :
      (ec : ErrorCode) (received : Text) (c : WebSocketClient (WsFunction F))
      → IsWiredClient c
      → Completed c (WebSocket.Client.on_received ec received c)
  unfolding WebSocket.Client.on_received on_read
  on_received-Completed success received c (set, set', set'') =
      let c' = record c { buffer = [] } in
      (
        (set, set', set''),
        refl,
        All-append (IsFine c.closed)
            (calls_if_set (λ f. call_message f success (c.buffer ++ received)) c.on_message)
            (listen_to_incoming_message success c')
            (calls_if_set-IsFine c.closed _ (λ f. f ≡ on_received) c.on_message (λ g e. e) set')
            (listen-IsFine success c' (set, set', set'')),
      )
  on_received-Completed operation_aborted received c set =
      (set, refl, listen-IsFine operation_aborted (record c { buffer = c.buffer ++ received }) set)
  on_received-Completed failure received c set =
      (set, refl, listen-IsFine failure (record c { buffer = c.buffer ++ received }) set)

  on_handshake-Completed :
      (ec : ErrorCode) (c : WebSocketClient (WsFunction F))
      → IsWiredClient c
      → Ensures (Completed c) (on_handshake ec c)
  unfolding on_handshake
  on_handshake-Completed success c set = ret (
    set,
    refl,
    All-append (IsFine c.closed) (calls_if_set (λ f. call_connect f success) c.on_connect)
        (listen_to_incoming_message success c)
        (calls_if_set-IsFine c.closed _ (λ f. f ≡ on_connected) c.on_connect (λ g e. e) set.0)
        (listen-IsFine success c set),
  )
  on_handshake-Completed operation_aborted c set = elim (Option-cases c.on_connect) [
    | inl none_set ↦ rw none_set raised
    | inr (f, found) ↦
        rw found (ret (set, refl, (subst (Set (λ f. f ≡ on_connected)) found set.0, tt)))
  ]
  on_handshake-Completed failure c set = elim (Option-cases c.on_connect) [
    | inl none_set ↦ rw none_set raised
    | inr (f, found) ↦
        rw found (ret (set, refl, (subst (Set (λ f. f ≡ on_connected)) found set.0, tt)))
  ]

  on_written-Completed :
      (f : Option (WsFunction F)) (ec : ErrorCode) (c : WebSocketClient (WsFunction F))
      → IsWiredClient c
      → Set IsSent f
      → Ensures (Completed c) (on_written f ec c)
  unfolding on_written
  on_written-Completed none success c set sent = raised
  on_written-Completed (some f) success c set sent = ret (set, refl, ((sent, refl), tt))
  on_written-Completed f operation_aborted c set sent = ret (set, refl, tt)
  on_written-Completed f failure c set sent = ret (set, refl, tt)

  pub complete-Completed :
      (op : Operation (WsFunction F)) (ec : ErrorCode) (received : Text)
      (c : WebSocketClient (WsFunction F))
      → IsWiredClient c
      → IsWiredOp op
      → Ensures (Completed c) (complete op ec received c)
  unfolding complete on_resolve on_connect_tcp on_tls_handshake
  complete-Completed (resolve _ _) ec received c set op =
      ret (set, refl, proceed-IsFine connect_tcp ec c set tt)
  complete-Completed connect_tcp ec received c set op =
      ret (set, refl, proceed-IsFine handshake_tls ec c set tt)
  complete-Completed handshake_tls ec received c set op =
      ret (set, refl, proceed-IsFine (handshake_ws c.url c.endpoint) ec c set tt)
  complete-Completed (handshake_ws _ _) ec received c set op = on_handshake-Completed ec c set
  complete-Completed read ec received c set op = ret (on_received-Completed ec received c set)
  complete-Completed (write _ f) ec received c set op = on_written-Completed f ec c set op
  complete-Completed (WebSocket.Types.close_ws f) ec received c set op =
      ret (set, refl, calls_if_set-IsFine c.closed _ IsClosed f (λ g e. e) op)

  pub remove_at-IsWired :
      (i : ℕ) (ops : List (Operation (WsFunction F)))
      → All IsWiredOp ops
      → All IsWiredOp (remove_at i ops)
  remove_at-IsWired i [] h = tt
  remove_at-IsWired zero (op ∷ ops) (h, hs) = hs
  remove_at-IsWired (suc i) (op ∷ ops) (h, hs) = (h, remove_at-IsWired i ops hs)

  pub call_ws-IsWired :
      (e : Client.Types.Effect F) (w : World (WsFunction F)) → IsWired w → IsWired (call_ws e w)
  unfolding call_ws WebSocket.Client.connect WebSocket.Client.send WebSocket.Client.close
  call_ws-IsWired connect_ws w (set, ops) =
      ((refl, refl, refl), All-append IsWiredOp w.pending _ ops (tt, tt))
  call_ws-IsWired (send_ws text h) w (set, ops) =
      (set, All-append IsWiredOp w.pending _ ops ((h, refl), tt))
  call_ws-IsWired (Client.Types.close_ws g) w (set, ops) =
      (set, All-append IsWiredOp w.pending _ ops ((g, refl), tt))
  call_ws-IsWired (call _ _ _ _) w wired = wired
  call_ws-IsWired (print _) w wired = wired

  pub call_ws_all-IsWired :
      (es : List (Client.Types.Effect F)) (w : World (WsFunction F))
      → IsWired w
      → IsWired (call_ws_all es w)
  unfolding call_ws_all
  call_ws_all-IsWired [] w wired = wired
  call_ws_all-IsWired (e ∷ es) w wired =
      call_ws_all-IsWired es (call_ws e w) (call_ws-IsWired e w wired)

  pub call_ws-closed :
      (e : Client.Types.Effect F) (w : World (WsFunction F))
      → is_plain e ≡ true
      → w.client.closed ≡ true
      → (call_ws e w).client.closed ≡ true
  unfolding call_ws WebSocket.Client.send WebSocket.Client.close
  call_ws-closed connect_ws w h closed = cc
  call_ws-closed (send_ws text h) w _ closed = closed
  call_ws-closed (Client.Types.close_ws g) w _ closed = refl
  call_ws-closed (call _ _ _ _) w _ closed = closed
  call_ws-closed (print _) w _ closed = closed

  pub call_ws_all-closed :
      (es : List (Client.Types.Effect F)) (w : World (WsFunction F))
      → all is_plain es ≡ true
      → w.client.closed ≡ true
      → (call_ws_all es w).client.closed ≡ true
  unfolding call_ws_all
  call_ws_all-closed [] w h closed = closed
  call_ws_all-closed (e ∷ es) w h closed =
      let (first, rest) : (is_plain e ≡ true) × (all is_plain es ≡ true) = ground (arith, h) in
      call_ws_all-closed es (call_ws e w) rest (call_ws-closed e w first closed)
