-- ===== src/Stack/Session.antt =====
-- A whole session, down to the operations of the WebSocketClient.
use learncppthroughprojects.Prelude.{
  ℕ, true, false, some, List, [], ◌∷◌, Text, codes, ◌≡◌, refl, map, All, returns,
}
use learncppthroughprojects.Client.Types.{
  StompClientError, connect_ws, send_ws, call, connect_sent, subscribe_sent, connect_callback,
  subscribe_callback, message_callback,
}
use learncppthroughprojects.Client.Handlers.{connect_text, subscribe_text, to_string, invoke_if_set}
use learncppthroughprojects.Client.Frames.{ServerFrame, IsReadable}
use learncppthroughprojects.Stomp.Types.{StompCommand}
use learncppthroughprojects.Client.Delivery.{
  IsReceipt, connected_text, receipt_text, IsSendable, text_of, subscribed_client,
  message_handler-connected_text, message_handler-receipt_text,
}
use learncppthroughprojects.WebSocket.Types.{success}
use learncppthroughprojects.Stack.{Move, connects, subscribes, ends, run, new_stack}
use learncppthroughprojects.Stack.Steps.{
  ends_first, reading, run-cons, received-frame, received-messages, connecting, run-connecting,
  run-subscribing,
}

module _ {F : Type 0} where
  -- Connect, the four operations of the connection, CONNECT is sent, CONNECTED is received,
  -- Subscribe, its receipt, the SUBSCRIBE frame is sent, and messages are received.
  abbrev pub moves :
      Text
      → Text
      → F
      → F
      → F
      → F
      → ℕ
      → ℕ
      → ServerFrame
      → ServerFrame
      → List ServerFrame
      → List (Move F)
  moves username password f_connect f_disconnect f_subscribe f_message first second hello receipt
        ms =
      connects (some f_connect) (some f_disconnect)
      ∷ ends_first [] [] []
      ∷ ends_first [] [] []
      ∷ ends_first [] [] []
      ∷ ends_first [] username password
      ∷ ends_first [] [] []
      ∷ ends_first (connected_text hello) [] []
      ∷ subscribes first second (some f_subscribe) (some f_message)
      ∷ ends 1 success [] [] []
      ∷ ends_first (receipt_text receipt) [] []
      ∷ map (λ m. ends_first (text_of m) [] []) ms

  -- A session of a new StompClient over a new WebSocketClient, where the operations that are pending
  -- end one after another without an error, and the reads receive any CONNECTED frame, any RECEIPT
  -- frame with the receipt-id of the subscription and any MESSAGE frames of it to /passengers, each
  -- of the wire format, below 2 ^ 32 bytes, with headers that suit its command and with a right
  -- content-length: nothing throws, the client sends the two frames, reports the connection and the
  -- subscription and passes on the bodies of the messages, each of them once and in their order;
  -- and then one read is pending and nothing else.
  pub run-moves :
      (url endpoint port username password : Text)
      (f_connect f_disconnect f_subscribe f_message : F) (first second : ℕ)
      (hello receipt : ServerFrame) (ms : List ServerFrame)
      → IsReadable StompCommand.connected hello
      → IsReceipt (to_string second) receipt
      → All (IsSendable (to_string first)) ms
      → run
          (moves username password f_connect f_disconnect f_subscribe f_message first second hello
            receipt ms)
          (new_stack url endpoint port)
        ≡ returns (
          reading url endpoint port (
              subscribed_client url endpoint f_connect f_disconnect f_subscribe f_message first
                second),
          connect_ws
              ∷ send_ws (connect_text url username password) connect_sent
              ∷ call connect_callback f_connect StompClientError.ok []
              ∷ send_ws (subscribe_text (to_string first) (to_string second)) subscribe_sent
              ∷ call subscribe_callback f_subscribe StompClientError.ok (codes "Success")
              ∷ map (λ m. call message_callback f_message StompClientError.ok m.body) ms,
        )
  unfolding invoke_if_set
  run-moves url endpoint port username password f_connect f_disconnect f_subscribe f_message first
        second hello receipt ms greets confirms oks =
      let c =
        subscribed_client url endpoint f_connect f_disconnect f_subscribe f_message first second in
      let c0 = connecting url endpoint f_connect f_disconnect in
      let c1 = record c0 { connected = true } in
      let c2 = record c { subscribed = false } in
      let end = reading url endpoint port c in
      run-connecting url endpoint port username password f_connect f_disconnect _ end _ (
        run-cons _ _ (reading url endpoint port c0) (reading url endpoint port c1) end _ _
          (received-frame url endpoint port c0 c1 (connected_text hello) connect_callback f_connect
            [] (message_handler-connected_text c0 hello greets))
          (run-subscribing url endpoint port c1 first second f_subscribe f_message refl _ end _ (
            run-cons _ _ (reading url endpoint port c2) end end _ _
              (received-frame url endpoint port c2 c (receipt_text receipt) subscribe_callback
                f_subscribe (codes "Success") (message_handler-receipt_text c2 receipt confirms))
              (received-messages url endpoint port c f_message ms refl oks))))
