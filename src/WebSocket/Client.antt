-- ===== src/WebSocket/Client.antt =====
-- The methods of `WebSocketClient`. The settings of the stream, and the log, are left out.
use learncppthroughprojects.Prelude.{
  true, false, not, Option, none, some, List, [], ◌∷◌, ◌++◌, Text, returns, throws,
  bad_function_call, if◌then◌else◌,
}
use learncppthroughprojects.WebSocket.Types.{
  ErrorCode, is_error, is_aborted, WebSocketClient, Operation, resolve, connect_tcp, handshake_tls,
  handshake_ws, read, write, close_ws, Effect, start, call_connect, call_message, call_disconnect,
  call_sent, call_closed, Handled,
}

module _ {F : Type 0} where
  -- `if (f) f(...)`
  abbrev pub calls_if_set : (F → Effect F) → Option F → List (Effect F)
  calls_if_set call none = []
  calls_if_set call (some f) = call f ∷ []

  unfoldable pub connect :
      Option F → Option F → Option F → WebSocketClient F → WebSocketClient F × List (Effect F)
  connect on_connect on_message on_disconnect c = (
    record c {
      on_connect = on_connect;
      on_message = on_message;
      on_disconnect = on_disconnect;
      closed = false;
    },
    start (resolve c.url c.port) ∷ [],
  )

  unfoldable pub send : Text → Option F → WebSocketClient F → WebSocketClient F × List (Effect F)
  send message on_send c = (c, start (write message on_send) ∷ [])

  unfoldable pub close : Option F → WebSocketClient F → WebSocketClient F × List (Effect F)
  close on_close c = (record c { closed = true }, start (close_ws on_close) ∷ [])

  -- `OnResolve`, `OnConnect` and `OnTlsHandshake`: an error is reported, or else the next operation
  -- is started.
  unfoldable pub proceed : Operation F → ErrorCode → WebSocketClient F → List (Effect F)
  proceed next ec c =
      if is_error ec then calls_if_set (λ f. call_connect f ec) c.on_connect else start next ∷ []

  unfoldable pub on_resolve : ErrorCode → WebSocketClient F → List (Effect F)
  on_resolve ec c = proceed connect_tcp ec c

  unfoldable pub on_connect_tcp : ErrorCode → WebSocketClient F → List (Effect F)
  on_connect_tcp ec c = proceed handshake_tls ec c

  unfoldable pub on_tls_handshake : ErrorCode → WebSocketClient F → List (Effect F)
  on_tls_handshake ec c = proceed (handshake_ws c.url c.endpoint) ec c

  unfoldable pub listen_to_incoming_message : ErrorCode → WebSocketClient F → List (Effect F)
  listen_to_incoming_message ec c =
      if is_aborted ec
      then (if not c.closed then calls_if_set (λ f. call_disconnect f ec) c.on_disconnect else [])
      else start read ∷ []

  -- On an error `onConnect_` is called without a test.
  unfoldable pub on_handshake : ErrorCode → WebSocketClient F → Handled F
  on_handshake ec c =
      if is_error ec
      then elim c.on_connect [
        | none ↦ throws bad_function_call
        | some f ↦ returns (c, call_connect f ec ∷ [])
      ]
      else returns
          (c, calls_if_set (λ f. call_connect f ec) c.on_connect ++ listen_to_incoming_message ec c)

  unfoldable pub on_read : ErrorCode → WebSocketClient F → WebSocketClient F × List (Effect F)
  on_read ec c =
      if is_error ec
      then (c, [])
      else (record c { buffer = [] }, calls_if_set (λ f. call_message f ec c.buffer) c.on_message)

  -- The function that is passed to `async_read`, which has put what it received in the buffer.
  unfoldable pub on_received :
      ErrorCode → Text → WebSocketClient F → WebSocketClient F × List (Effect F)
  on_received ec received c =
      let (c', calls) = on_read ec (record c { buffer = c.buffer ++ received }) in
      (c', calls ++ listen_to_incoming_message ec c')

  -- The function that is passed to `async_write`: `onSend` is not called on an error.
  unfoldable pub on_written : Option F → ErrorCode → WebSocketClient F → Handled F
  on_written on_send ec c = if is_error ec then returns (c, []) else elim on_send [
    | none ↦ throws bad_function_call
    | some f ↦ returns (c, call_sent f ec ∷ [])
  ]

  -- The end of an operation; the text is what a read received.
  unfoldable pub complete : Operation F → ErrorCode → Text → WebSocketClient F → Handled F
  complete (resolve _ _) ec _ c = returns (c, on_resolve ec c)
  complete connect_tcp ec _ c = returns (c, on_connect_tcp ec c)
  complete handshake_tls ec _ c = returns (c, on_tls_handshake ec c)
  complete (handshake_ws _ _) ec _ c = on_handshake ec c
  complete read ec received c = returns (on_received ec received c)
  complete (write _ on_send) ec _ c = on_written on_send ec c
  complete (close_ws on_close) ec _ c = returns (c, calls_if_set (λ f. call_closed f ec) on_close)
