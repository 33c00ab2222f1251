-- ===== src/Stack/Steps.antt =====
-- The steps of a session, down to the operations of the WebSocketClient.
use learncppthroughprojects.Prelude.{
  ℕ, false, some, List, [], ◌∷◌, ◌++◌, Text, ◌≡◌, refl, ◌∙◌, map, All, returns,
}
use learncppthroughprojects.Client
use learncppthroughprojects.Client.Types.{
  StompClientError, StompClient, new_client, connect_ws, send_ws, call, connect_sent,
  subscribe_sent, connect_callback, subscribe_callback, message_callback, Callback,
}
use learncppthroughprojects.Client.Handlers.{
  connect_text, subscribe_text, to_string, message_handler, invoke, connect, subscribe,
  on_ws_connected, on_ws_connect, on_sent, invoke_if_set,
}
use learncppthroughprojects.Client.Frames.{ServerFrame}
use learncppthroughprojects.Client.Delivery.{IsSendable, text_of, message_handler-message_text}
use learncppthroughprojects.Client.Events.{dispatch}
use learncppthroughprojects.WebSocket
use learncppthroughprojects.WebSocket.Types.{
  Operation, resolve, connect_tcp, handshake_tls, handshake_ws, read, write, success,
  new_web_socket,
}
use learncppthroughprojects.WebSocket.Client.{
  complete, on_resolve, on_connect_tcp, on_tls_handshake, on_handshake, proceed, on_read,
  on_written, listen_to_incoming_message,
}
use learncppthroughprojects.WebSocket.World.{World}
use learncppthroughprojects.Stack.{
  WsFunction, Stack, Move, connects, subscribes, ends, move, run, new_stack, deliver, event_of,
  receive, call_ws, call_ws_all, on_connected, on_received, on_lost, on_frame_sent,
}

module _ {F : Type 0} where
  -- The first pending operation ends without an error.
  abbrev pub ends_first : Text → Text → Text → Move F
  ends_first received username password = ends 0 success received username password

  -- The WebSocketClient behind the handshakes, with these operations pending.
  abbrev pub ready : Text → Text → Text → List (Operation (WsFunction F)) → World (WsFunction F)
  ready url endpoint port pending = record {
    client = record (new_web_socket url endpoint port) {
      on_connect = some on_connected;
      on_message = some on_received;
      on_disconnect = some on_lost;
    };
    pending = pending;
  }

  abbrev pub reading : Text → Text → Text → StompClient F → Stack F
  reading url endpoint port c = record { stomp = c; world = ready url endpoint port (read ∷ []) }

  pub run-cons :
      (m : Move F) (ms : List (Move F)) (s s1 s2 : Stack F) (xs ys : List (Client.Types.Effect F))
      → move m s ≡ returns (s1, xs)
      → run ms s1 ≡ returns (s2, ys)
      → run (m ∷ ms) s ≡ returns (s2, xs ++ ys)
  unfolding run
  run-cons m ms s s1 s2 xs ys h k = rw (h, k) refl

  module _ (url endpoint port : Text) where
    -- A frame is received, and makes the StompClient call a function of the user.
    pub received-frame :
        (c c' : StompClient F) (text : Text) (role : Callback) (f : F) (body : Text)
        → message_handler false text c ≡ returns (c', call role f StompClientError.ok body ∷ [])
        → move (ends_first text [] []) (reading url endpoint port c)
          ≡ returns (reading url endpoint port c', call role f StompClientError.ok body ∷ [])
    unfolding move complete WebSocket.Client.on_received on_read listen_to_incoming_message deliver
        event_of receive dispatch call_ws_all call_ws
    received-frame c c' text role f body h = rw h refl

    pub received-messages :
        (c : StompClient F) (f : F) (ms : List ServerFrame)
        → c.on_message ≡ some f
        → All (IsSendable c.subscription_id) ms
        → run (map (λ m. ends_first (text_of m) [] []) ms) (reading url endpoint port c)
          ≡ returns (
            reading url endpoint port c,
            map (λ m. call message_callback f StompClientError.ok m.body) ms,
          )
    unfolding run
    received-messages c f [] set ok = refl
    received-messages c f (m ∷ ms) set (ok, oks) =
        run-cons (ends_first (text_of m) [] []) _ _ (reading url endpoint port c)
          (reading url endpoint port c) (call message_callback f StompClientError.ok m.body ∷ []) _
          (received-frame c c (text_of m) message_callback f m.body
            (unfold invoke in message_handler-message_text c m ok ∙ rw set refl))
          (received-messages c f ms set oks)

  -- Connect has been called.
  abbrev pub connecting : Text → Text → F → F → StompClient F
  connecting url endpoint f_connect f_disconnect = record (new_client url endpoint) {
    on_connect = some f_connect;
    on_disconnect = some f_disconnect;
  }

  -- Until the CONNECT frame has been sent.
  pub run-connecting :
      (url endpoint port username password : Text) (f_connect f_disconnect : F) (ms : List (Move F))
      (end : Stack F) (out : List (Client.Types.Effect F))
      → run ms (reading url endpoint port (connecting url endpoint f_connect f_disconnect))
        ≡ returns (end, out)
      → run
          (connects (some f_connect) (some f_disconnect)
            ∷ ends_first [] [] []
            ∷ ends_first [] [] []
            ∷ ends_first [] [] []
            ∷ ends_first [] username password
            ∷ ends_first [] [] []
            ∷ ms)
          (new_stack url endpoint port)
        ≡ returns
            (end, connect_ws ∷ send_ws (connect_text url username password) connect_sent ∷ out)
  unfolding move complete on_resolve on_connect_tcp on_tls_handshake on_handshake proceed on_written
      listen_to_incoming_message deliver event_of receive dispatch call_ws_all call_ws connect
      subscribe on_ws_connected on_ws_connect on_sent invoke_if_set WebSocket.Client.connect
      WebSocket.Client.send
  run-connecting url endpoint port username password f_connect f_disconnect ms end out rest =
      let waiting : List (Operation (WsFunction F)) → Stack F = λ ops. record {
        stomp = connecting url endpoint f_connect f_disconnect;
        world = ready url endpoint port ops;
      } in
      let text = connect_text url username password in
      let write_connect : Operation (WsFunction F) =
        write text (some (on_frame_sent connect_sent)) in
      let named = waiting (resolve url port ∷ []) in
      let found = waiting (connect_tcp ∷ []) in
      let joined = waiting (handshake_tls ∷ []) in
      let secured = waiting (handshake_ws url endpoint ∷ []) in
      let accepted = waiting (write_connect ∷ read ∷ []) in
      run-cons _ _ (new_stack url endpoint port) named end (connect_ws ∷ []) _ refl (
        run-cons _ _ named found end [] _ refl (
          run-cons _ _ found joined end [] _ refl (
            run-cons _ _ joined secured end [] _ refl (
              run-cons _ _ secured accepted end (send_ws text connect_sent ∷ []) _ refl
                (run-cons _ _ accepted (waiting (read ∷ [])) end [] _ refl rest)))))

  -- Subscribe, until the SUBSCRIBE frame has been sent.
  pub run-subscribing :
      (url endpoint port : Text) (c : StompClient F) (first second : ℕ) (f_subscribe f_message : F)
      → c.subscribed ≡ false
      → (ms : List (Move F)) (end : Stack F) (out : List (Client.Types.Effect F))
      → run ms (
          reading url endpoint port (record c {
            subscription_id = to_string first;
            receipt_id = to_string second;
            on_subscribe = some f_subscribe;
            on_message = some f_message;
          }))
        ≡ returns (end, out)
      → run
          (subscribes first second (some f_subscribe) (some f_message)
            ∷ ends 1 success [] [] []
            ∷ ms)
          (reading url endpoint port c)
        ≡ returns (
          end,
          send_ws (subscribe_text (to_string first) (to_string second)) subscribe_sent ∷ out,
        )
  unfolding move complete on_resolve on_connect_tcp on_tls_handshake on_handshake proceed on_written
      listen_to_incoming_message deliver event_of receive dispatch call_ws_all call_ws connect
      subscribe on_ws_connected on_ws_connect on_sent invoke_if_set WebSocket.Client.connect
      WebSocket.Client.send
  run-subscribing url endpoint port c first second f_subscribe f_message not_yet ms end out rest =
      let c' = record c {
        subscription_id = to_string first;
        receipt_id = to_string second;
        on_subscribe = some f_subscribe;
        on_message = some f_message;
      } in
      let text = subscribe_text (to_string first) (to_string second) in
      let sending : Stack F = record {
        stomp = c';
        world =
            ready url endpoint port (read ∷ write text (some (on_frame_sent subscribe_sent)) ∷ []);
      } in
      run-cons _ _ (reading url endpoint port c) sending end (send_ws text subscribe_sent ∷ []) _
        (rw not_yet refl) (run-cons _ _ sending (reading url endpoint port c') end [] _ refl rest)
