-- ===== src/Client/Plain.antt =====
-- Which calls connect `ws_`, and which tell of a lost connection.
use learncppthroughprojects.Prelude.{
  ℕ, Bool, true, false, Option, none, some, List, [], ◌∷◌, Text, ◌≡◌, refl, arith, all, returns,
  Ensures, ret, raised, Ensures-if, Ensures-bind,
}
use learncppthroughprojects.Stomp.Types.{StompFrame, error_eq, command_eq}
use learncppthroughprojects.Client.Types.{
  StompClientError, StompClient, SendHandler, connect_sent, subscribe_sent, Effect, Callback, call,
  disconnect_callback, connect_ws,
}
use learncppthroughprojects.Client.Handlers.{
  subscribe, close, on_ws_connected, on_ws_connect, message_handler, on_sent, on_closed, on_frame,
  on_receipt, on_message_frame, report, invoke, invoke_if_set,
}
use learncppthroughprojects.Client.Events.{
  Event, dispatch, connects, subscribes, closes, ws_connected, ws_message, ws_disconnected, ws_sent,
  ws_closed,
}
use learncppthroughprojects.Client.Runs.{is_disconnect, disconnects, is_disconnect_role}

module _ {F : Type 0} where
  -- Neither `ws_.Connect` nor a call of `onDisconnect`.
  abbrev pub is_plain : Effect F → Bool
  is_plain connect_ws = false
  is_plain (call disconnect_callback _ _ _) = false
  is_plain _ = true

  abbrev pub is_plain_event : Event F → Bool
  is_plain_event (connects _ _) = false
  is_plain_event (ws_disconnected _) = false
  is_plain_event _ = true

  is_disconnect-IsPlain : (e : Effect F) → is_plain e ≡ true → is_disconnect e ≡ 0
  is_disconnect-IsPlain (call disconnect_callback _ _ _) h = cc
  is_disconnect-IsPlain connect_ws h = cc
  is_disconnect-IsPlain e h = refl

  pub disconnects-IsPlain : (es : List (Effect F)) → all is_plain es ≡ true → disconnects es ≡ 0
  disconnects-IsPlain [] h = refl
  disconnects-IsPlain (e ∷ es) h =
      let (first, rest) : (is_plain e ≡ true) × (all is_plain es ≡ true) = ground (arith, h) in
      omega (arith, is_disconnect-IsPlain e first, disconnects-IsPlain es rest)

  abbrev IsPlain : StompClient F × List (Effect F) → Type 0
  IsPlain (c, out) = all is_plain out ≡ true

  ret-IsPlain :
      (c : StompClient F) (out : List (Effect F))
      → all is_plain out ≡ true
      → Ensures IsPlain (returns (c, out))
  ret-IsPlain c out h = ret h

  invoke-IsPlain :
      (role : Callback) (f : Option F) (code : StompClientError) (text : Text) (c : StompClient F)
      → is_disconnect_role role ≡ false
      → Ensures IsPlain (invoke role f code text c)
  unfolding invoke
  invoke-IsPlain role none code text c h = raised
  invoke-IsPlain role (some f) code text c h = ret (ground arith)

  invoke_if_set-IsPlain :
      (role : Callback) (f : Option F) (code : StompClientError) (text : Text) (c : StompClient F)
      → is_disconnect_role role ≡ false
      → Ensures IsPlain (invoke_if_set role f code text c)
  unfolding invoke_if_set
  invoke_if_set-IsPlain role none code text c h = ret refl
  invoke_if_set-IsPlain role (some f) code text c h = ret (ground arith)

  ruleset plain = (refl, Ensures-if, ret-IsPlain, invoke-IsPlain, invoke_if_set-IsPlain)

  report-IsPlain :
      (msg body : Text) (otherwise : List (Effect F)) (c : StompClient F)
      → all is_plain otherwise ≡ true
      → Ensures IsPlain (report msg body otherwise c)
  unfolding report
  report-IsPlain msg body otherwise c h = search (plain, h)

  on_receipt-IsPlain :
      (f : StompFrame) (msg : Text) (c : StompClient F) → Ensures IsPlain (on_receipt f msg c)
  unfolding on_receipt
  on_receipt-IsPlain f msg c = search plain

  on_message_frame-IsPlain :
      (f : StompFrame) (msg : Text) (c : StompClient F) → Ensures IsPlain (on_message_frame f msg c)
  unfolding on_message_frame
  on_message_frame-IsPlain f msg c = search plain

  on_frame-IsPlain :
      (f : StompFrame) (msg : Text) (c : StompClient F) → Ensures IsPlain (on_frame f msg c)
  unfolding on_frame
  on_frame-IsPlain f msg c =
      search (plain, report-IsPlain, on_receipt-IsPlain, on_message_frame-IsPlain)

  message_handler-IsPlain :
      (failed : Bool) (msg : Text) (c : StompClient F)
      → Ensures IsPlain (message_handler failed msg c)
  unfolding message_handler
  message_handler-IsPlain failed msg c =
      search (plain, Ensures-bind, on_frame-IsPlain, report-IsPlain)

  on_sent-IsPlain :
      (failed : Bool) (handler : SendHandler) (c : StompClient F)
      → Ensures IsPlain (on_sent handler failed c)
  unfolding on_sent
  on_sent-IsPlain failed connect_sent c = search plain
  on_sent-IsPlain failed subscribe_sent c = search plain

  on_closed-IsPlain :
      (failed : Bool) (f : Option F) (c : StompClient F) → Ensures IsPlain (on_closed f failed c)
  unfolding on_closed invoke
  on_closed-IsPlain failed none c = raised
  on_closed-IsPlain failed (some f) c = ret refl

  subscribe-IsPlain :
      (first second : ℕ) (f g : Option F) (c : StompClient F)
      → all is_plain (subscribe first second f g c).2 ≡ true
  unfolding subscribe
  subscribe-IsPlain first second f g c = ground arith

  pub dispatch-IsPlain :
      (e : Event F) (c : StompClient F) → is_plain_event e ≡ true → Ensures IsPlain (dispatch e c)
  unfolding dispatch close on_ws_connected on_ws_connect
  dispatch-IsPlain (connects f g) c h = cc
  dispatch-IsPlain (subscribes first second f g) c h = ret (subscribe-IsPlain first second f g c)
  dispatch-IsPlain (closes f) c h = ret refl
  dispatch-IsPlain (ws_connected failed username password) c h = search plain
  dispatch-IsPlain (ws_message failed msg) c h = message_handler-IsPlain failed msg c
  dispatch-IsPlain (ws_disconnected failed) c h = cc
  dispatch-IsPlain (ws_sent handler failed) c h = on_sent-IsPlain failed handler c
  dispatch-IsPlain (ws_closed f failed) c h = on_closed-IsPlain failed f c
