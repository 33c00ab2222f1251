-- ===== src/Client/Events.antt =====
-- The calls that a `StompClient` receives: from its user, and from its WebSocket client.
use learncppthroughprojects.Prelude.{ℕ, Bool, Option, List, [], ◌∷◌, ◌++◌, Text, returns, ◌>>=◌}
use learncppthroughprojects.Client.Types.{StompClient, SendHandler, Handled}
use learncppthroughprojects.Client.Handlers.{
  connect, subscribe, close, on_ws_connected, on_ws_disconnected, message_handler, on_sent,
  on_closed,
}

-- The Booleans say that the WebSocket client reported an error.
pub data Event (F : Type 0) : Type 0 where
  connects : Option F → Option F → Event F
  subscribes : ℕ → ℕ → Option F → Option F → Event F
  closes : Option F → Event F
  ws_connected : Bool → Text → Text → Event F
  ws_message : Bool → Text → Event F
  ws_disconnected : Bool → Event F
  ws_sent : SendHandler → Bool → Event F
  ws_closed : Option F → Bool → Event F

module _ {F : Type 0} where
  unfoldable pub dispatch : Event F → StompClient F → Handled F
  dispatch (connects on_connect on_disconnect) c = connect on_connect on_disconnect c
  dispatch (subscribes first second on_subscribe on_message) c =
      let (_, c', effects) = subscribe first second on_subscribe on_message c in
      returns (c', effects)
  dispatch (closes on_close) c = close on_close c
  dispatch (ws_connected failed username password) c = on_ws_connected failed username password c
  dispatch (ws_message failed msg) c = message_handler failed msg c
  dispatch (ws_disconnected failed) c = on_ws_disconnected failed c
  dispatch (ws_sent handler failed) c = on_sent handler failed c
  dispatch (ws_closed on_close failed) c = on_closed on_close failed c

  -- One call after another, with the effects of all of them in order.
  unfoldable pub run : List (Event F) → StompClient F → Handled F
  run [] c = returns (c, [])
  run (e ∷ es) c =
      dispatch e c >>= λ (c1, first). run es c1 >>= λ (c2, rest). returns (c2, first ++ rest)
