-- ===== src/Client/Delivery.antt =====
-- What the client makes of the frames that it waits for, up to a whole session.
use learncppthroughprojects.Prelude.{
  ℕ, true, false, some, List, [], ◌∷◌, ◌++◌, map, All, Text, codes, ◌≡◌, refl, ◌∙◌, arith, returns,
  eq_refl, text_eq, text_beq,
}
use learncppthroughprojects.Map.{lookup}
use learncppthroughprojects.Stomp.Types.{
  StompCommand, StompHeader, StompError, StompFrame, command_eq, error_eq, header_eq,
}
use learncppthroughprojects.Stomp.Frame.{stomp_frame, get_header_value}
use learncppthroughprojects.Stomp.Wire.{render}
use learncppthroughprojects.Stomp.Sections.{with_ack}
use learncppthroughprojects.Client.Types.{
  StompClientError, StompClient, new_client, connect_sent, subscribe_sent, connect_callback,
  subscribe_callback, message_callback, Effect, connect_ws, send_ws, call,
}
use learncppthroughprojects.Client.Handlers.{
  to_string, connect_text, subscribe_text, connect, subscribe, on_ws_connected, on_ws_connect,
  on_sent, message_handler, on_frame, on_receipt, on_message_frame, invoke, invoke_if_set,
}
use learncppthroughprojects.Client.Frames.{
  ServerFrame, frame_text, IsReadable, stomp_frame-frame_text,
}
use learncppthroughprojects.Client.Events.{
  Event, dispatch, run, connects, subscribes, ws_connected, ws_message, ws_sent,
}

-- The frames that the client waits for.
abbrev pub connected_text : ServerFrame → Text
connected_text f = frame_text StompCommand.connected f

abbrev pub receipt_text : ServerFrame → Text
receipt_text f = frame_text StompCommand.receipt f

abbrev pub text_of : ServerFrame → Text
text_of f = frame_text StompCommand.message f

-- The receipt with that identifier, and a message of that subscription.
abbrev pub IsReceipt : Text → ServerFrame → Type 0
IsReceipt receipt_id f =
    IsReadable StompCommand.receipt f × (lookup StompHeader.receipt_id f.headers ≡ some receipt_id)

abbrev pub IsSendable : Text → ServerFrame → Type 0
IsSendable subscription f =
    IsReadable StompCommand.message f
    × (lookup StompHeader.subscription f.headers ≡ some subscription)
    × (lookup StompHeader.destination f.headers ≡ some (codes "/passengers"))

module _ {F : Type 0} (c : StompClient F) where
  -- A frame without error is handled by its command.
  pub message_handler-on_frame :
      (msg : Text) (f : StompFrame)
      → stomp_frame msg ≡ returns f
      → f.state ≡ StompError.ok
      → message_handler false msg c ≡ on_frame f msg c
  unfolding message_handler
  message_handler-on_frame msg f h ok = ground (arith, h, ok)

  pub message_handler-connected_text :
      (f : ServerFrame)
      → IsReadable StompCommand.connected f
      → message_handler false (connected_text f) c
        ≡ invoke_if_set connect_callback c.on_connect StompClientError.ok []
            (record c { connected = true })
  unfolding on_frame
  message_handler-connected_text f r =
      let (reads, _) = stomp_frame-frame_text StompCommand.connected f r in
      message_handler-on_frame (connected_text f) _ reads refl

  pub message_handler-receipt_text :
      (f : ServerFrame)
      → IsReceipt c.receipt_id f
      → message_handler false (receipt_text f) c
        ≡ invoke_if_set subscribe_callback c.on_subscribe StompClientError.ok
            (codes "Success")
            (record c { subscribed = true })
  unfolding on_frame on_receipt get_header_value with_ack text_beq invoke_if_set lookup render
  message_handler-receipt_text f (r, identifies) =
      let (reads, _) = stomp_frame-frame_text StompCommand.receipt f r in
      message_handler-on_frame (receipt_text f) _ reads refl
      ∙ rw (identifies, eq_refl c.receipt_id) refl

  pub message_handler-message_text :
      (m : ServerFrame)
      → IsSendable c.subscription_id m
      → message_handler false (text_of m) c
        ≡ invoke message_callback c.on_message StompClientError.ok m.body c
  unfolding on_frame on_message_frame get_header_value with_ack text_beq lookup invoke
  message_handler-message_text m (r, subscribed, addressed) =
      let (reads, body) = stomp_frame-frame_text StompCommand.message m r in
      message_handler-on_frame (text_of m) _ reads refl
      ∙ rw (subscribed, addressed, eq_refl c.subscription_id, body) refl

module _ {F : Type 0} where
  pub run-cons :
      (e : Event F) (es : List (Event F)) (c c1 c2 : StompClient F) (xs ys : List (Effect F))
      → dispatch e c ≡ returns (c1, xs)
      → run es c1 ≡ returns (c2, ys)
      → run (e ∷ es) c ≡ returns (c2, xs ++ ys)
  unfolding run
  run-cons e es c c1 c2 xs ys h k = rw (h, k) refl

  -- A subscribed client gives the bodies of the subscription's messages to `onMessage`, in order.
  pub run-messages :
      (c : StompClient F) (f : F) (ms : List ServerFrame)
      → c.on_message ≡ some f
      → All (IsSendable c.subscription_id) ms
      → run (map (λ m. ws_message false (text_of m)) ms) c
        ≡ returns (c, map (λ m. call message_callback f StompClientError.ok m.body) ms)
  unfolding run
  run-messages c f [] set ok = refl
  run-messages c f (m ∷ ms) set (ok, oks) =
      run-cons (ws_message false (text_of m)) _ c c c
        (call message_callback f StompClientError.ok m.body ∷ []) _
        (unfold dispatch invoke in message_handler-message_text c m ok ∙ rw set refl)
        (run-messages c f ms set oks)

  -- The client after the session has begun.
  abbrev pub subscribed_client : Text → Text → F → F → F → F → ℕ → ℕ → StompClient F
  subscribed_client url endpoint f_connect f_disconnect f_subscribe f_message first second =
      record {
        connected = true;
        subscribed = true;
        disconnected = false;
        subscription_id = to_string first;
        receipt_id = to_string second;
        endpoint = endpoint;
        url = url;
        on_message = some f_message;
        on_subscribe = some f_subscribe;
        on_connect = some f_connect;
        on_disconnect = some f_disconnect;
      }

  -- A whole session: Connect, the STOMP handshake, Subscribe, its receipt, and then any messages.
  abbrev pub session :
      Text
      → Text
      → F
      → F
      → F
      → F
      → ℕ
      → ℕ
      → ServerFrame
      → ServerFrame
      → List ServerFrame
      → List (Event F)
  session username password f_connect f_disconnect f_subscribe f_message first second hello receipt
        ms =
      connects (some f_connect) (some f_disconnect)
      ∷ ws_connected false username password
      ∷ ws_sent connect_sent false
      ∷ ws_message false (connected_text hello)
      ∷ subscribes first second (some f_subscribe) (some f_message)
      ∷ ws_sent subscribe_sent false
      ∷ ws_message false (receipt_text receipt)
      ∷ map (λ m. ws_message false (text_of m)) ms

  -- A session with a server that answers with any CONNECTED frame, any RECEIPT frame with the
  -- receipt-id of the subscription and any MESSAGE frames of it to /passengers, each of the wire
  -- format, below 2 ^ 32 bytes, with headers that suit its command and with a right content-length:
  -- nothing throws, the client sends the two frames, reports the connection and the subscription,
  -- and then passes on the bodies of the messages, each of them once and in their order; and it
  -- counts as connected and subscribed.
  pub run-session :
      (url endpoint username password : Text) (f_connect f_disconnect f_subscribe f_message : F)
      (first second : ℕ) (hello receipt : ServerFrame) (ms : List ServerFrame)
      → IsReadable StompCommand.connected hello
      → IsReceipt (to_string second) receipt
      → All (IsSendable (to_string first)) ms
      → run
          (session username password f_connect f_disconnect f_subscribe f_message first second hello
            receipt ms)
          (new_client url endpoint)
        ≡ returns (
          subscribed_client url endpoint f_connect f_disconnect f_subscribe f_message first second,
          connect_ws
              ∷ send_ws (connect_text url username password) connect_sent
              ∷ call connect_callback f_connect StompClientError.ok []
              ∷ send_ws (subscribe_text (to_string first) (to_string second)) subscribe_sent
              ∷ call subscribe_callback f_subscribe StompClientError.ok (codes "Success")
              ∷ map (λ m. call message_callback f_message StompClientError.ok m.body) ms,
        )
  unfolding dispatch connect subscribe on_ws_connected on_ws_connect on_sent invoke_if_set
  run-session url endpoint username password f_connect f_disconnect f_subscribe f_message first
        second hello receipt ms greets confirms oks =
      let c =
        subscribed_client url endpoint f_connect f_disconnect f_subscribe f_message first second in
      let c0 = record (new_client url endpoint) {
        on_connect = some f_connect;
        on_disconnect = some f_disconnect;
      } in
      let c1 = record c0 { connected = true } in
      let c2 = record c { subscribed = false } in
      run-cons _ _ (new_client url endpoint) c0 c (connect_ws ∷ []) _ refl (
        run-cons _ _ c0 c0 c _ _ refl (
          run-cons _ _ c0 c0 c [] _ refl (
            run-cons _ _ c0 c1 c _ _ (message_handler-connected_text c0 hello greets) (
              run-cons _ _ c1 c2 c _ _ refl (
                run-cons _ _ c2 c2 c [] _ refl (
                  run-cons _ _ c2 c c _ _ (message_handler-receipt_text c2 receipt confirms)
                    (run-messages c f_message ms refl oks)))))))
