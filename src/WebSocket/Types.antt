-- ===== src/WebSocket/Types.antt =====
-- The state of `WebSocketClient`, and the asynchronous operations that it starts.
use learncppthroughprojects.Prelude.{Bool, true, false, Option, none, List, [], Text, Outcome}

-- `boost::system::error_code`: zero, `operation_aborted`, and all others.
pub data ErrorCode : Type 0 where
  success operation_aborted failure : ErrorCode

abbrev pub is_error : ErrorCode → Bool
is_error success = false
is_error _ = true

abbrev pub is_aborted : ErrorCode → Bool
is_aborted operation_aborted = true
is_aborted _ = false

-- The data members, the resolver and the stream left out: their calls are effects. `F` stands for
-- what the caller's functions are.
pub record WebSocketClient (F : Type 0) : Type 0 where
  pub url : Text
  pub endpoint : Text
  pub port : Text
  pub closed : Bool
  pub buffer : Text
  pub on_connect : Option F
  pub on_message : Option F
  pub on_disconnect : Option F

-- The constructor.
abbrev pub new_web_socket : {F : Type 0} → Text → Text → Text → WebSocketClient F
new_web_socket url endpoint port = record {
  url = url;
  endpoint = endpoint;
  port = port;
  closed = false;
  buffer = [];
  on_connect = none;
  on_message = none;
  on_disconnect = none;
}

-- `async_resolve`, the `async_connect` of the lowest layer, the two `async_handshake`,
-- `async_read`, and `async_write` and `async_close` with the caller's function.
pub data Operation (F : Type 0) : Type 0 where
  resolve : Text → Text → Operation F
  connect_tcp : Operation F
  handshake_tls : Operation F
  handshake_ws : Text → Text → Operation F
  read : Operation F
  write : Text → Option F → Operation F
  close_ws : Option F → Operation F

-- The start of an operation, or a call of a function of the caller.
pub data Effect (F : Type 0) : Type 0 where
  start : Operation F → Effect F
  call_connect : F → ErrorCode → Effect F
  call_message : F → ErrorCode → Text → Effect F
  call_disconnect : F → ErrorCode → Effect F
  call_sent : F → ErrorCode → Effect F
  call_closed : F → ErrorCode → Effect F

-- What a method leaves: the object, and the effects in their order.
abbrev pub Handled : Type 0 → Type 0
Handled F = Outcome (WebSocketClient F × List (Effect F))
