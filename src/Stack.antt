-- ===== src/Stack.antt =====
-- The client of inc/network-monitor/stomp-client.h over that of
-- inc/network-monitor/websocket-client.h: its calls of `ws_`, and the functions that it passes.
pub mod Wiring
pub mod Told
pub mod Projection
pub mod Runs
pub mod Steps
pub mod Session
use learncppthroughprojects.Client
use learncppthroughprojects.WebSocket
use learncppthroughprojects.Prelude.{
  ℕ, true, false, Bool, Option, none, some, List, [], ◌∷◌, ◌++◌, Text, Outcome, returns, ◌>>=◌,
  get_elem?,
}
use learncppthroughprojects.Client.Types.{
  StompClient, SendHandler, connect_ws, send_ws, close_ws, call, print,
}
use learncppthroughprojects.Client.Events.{Event, dispatch}
use learncppthroughprojects.WebSocket.Types.{
  ErrorCode, is_error, WebSocketClient, start, call_connect, call_message, call_disconnect,
  call_sent, call_closed, new_web_socket,
}
use learncppthroughprojects.Client.Types.{new_client}
use learncppthroughprojects.WebSocket.Client.{complete}
use learncppthroughprojects.WebSocket.World.{World, after, remove_at}

-- The functions that are passed to `ws_`: the three of `Connect`, those of `Send` and of `Close`.
pub data WsFunction (F : Type 0) : Type 0 where
  on_connected on_received on_lost : WsFunction F
  on_frame_sent : SendHandler → WsFunction F
  on_ws_closed : Option F → WsFunction F

pub record Stack (F : Type 0) : Type 0 where
  pub stomp : StompClient F
  pub world : World (WsFunction F)

-- A call of a method by the user, or the end of the pending operation at an index, with what a read
-- received, and the user name and the password that the references give then.
pub data Move (F : Type 0) : Type 0 where
  connects : Option F → Option F → Move F
  subscribes : ℕ → ℕ → Option F → Option F → Move F
  closes : Option F → Move F
  ends : ℕ → ErrorCode → Text → Text → Text → Move F

-- What a move leaves: the two clients, and the effects of the StompClient in their order.
abbrev pub Moved : Type 0 → Type 0
Moved F = Outcome (Stack F × List (Client.Types.Effect F))

-- The constructor.
abbrev pub new_stack : {F : Type 0} → Text → Text → Text → Stack F
new_stack url endpoint port = record {
  stomp = new_client url endpoint;
  world = record { client = new_web_socket url endpoint port; pending = [] };
}

module _ {F : Type 0} where
  -- The call of `ws_` that is an effect.
  unfoldable pub call_ws : Client.Types.Effect F → World (WsFunction F) → World (WsFunction F)
  call_ws connect_ws w =
      (after w.pending
        (WebSocket.Client.connect (some on_connected) (some on_received) (some on_lost) w.client)).0
  call_ws (send_ws text handler) w =
      (after w.pending (WebSocket.Client.send text (some (on_frame_sent handler)) w.client)).0
  call_ws (close_ws on_close) w =
      (after w.pending (WebSocket.Client.close (some (on_ws_closed on_close)) w.client)).0
  call_ws (call _ _ _ _) w = w
  call_ws (print _) w = w

  unfoldable pub call_ws_all :
      List (Client.Types.Effect F) → World (WsFunction F) → World (WsFunction F)
  call_ws_all [] w = w
  call_ws_all (e ∷ es) w = call_ws_all es (call_ws e w)

  -- A call of the StompClient.
  unfoldable pub receive : Event F → Stack F → Moved F
  receive e s = dispatch e s.stomp >>= λ (c, effects).
      returns (record { stomp = c; world = call_ws_all effects s.world }, effects)

  -- The call of a function that was passed to `ws_`.
  unfoldable pub event_of : WsFunction F → ErrorCode → Text → Text → Text → Event F
  event_of on_connected ec _ username password = Event.ws_connected (is_error ec) username password
  event_of on_received ec received _ _ = Event.ws_message (is_error ec) received
  event_of on_lost ec _ _ _ = Event.ws_disconnected (is_error ec)
  event_of (on_frame_sent handler) ec _ _ _ = Event.ws_sent handler (is_error ec)
  event_of (on_ws_closed on_close) ec _ _ _ = Event.ws_closed on_close (is_error ec)

  -- The effects of a WebSocketClient, one after another: an operation is started, or a function is
  -- called, which may call `ws_` in turn.
  unfoldable pub deliver :
      Text → Text → List (WebSocket.Types.Effect (WsFunction F)) → Stack F → Moved F
  deliver username password [] s = returns (s, [])
  deliver username password (e ∷ es) s =
      let calls : WsFunction F → ErrorCode → Text → Moved F =
        λ f ec text. receive (event_of f ec text username password) s in
      (elim e [
        | start op ↦
            returns
              (record s { world = record s.world { pending = s.world.pending ++ op ∷ [] } }, [])
        | call_connect f ec ↦ calls f ec []
        | call_message f ec text ↦ calls f ec text
        | call_disconnect f ec ↦ calls f ec []
        | call_sent f ec ↦ calls f ec []
        | call_closed f ec ↦ calls f ec []
      ])
      >>= λ (s1, first).
          deliver username password es s1 >>= λ (s2, rest). returns (s2, first ++ rest)

  -- The operation at an index is no longer pending.
  abbrev pub ended_with : WebSocketClient (WsFunction F) → ℕ → Stack F → Stack F
  ended_with c i s = record s {
    world = record { client = c; pending = remove_at i s.world.pending };
  }

  unfoldable pub move : Move F → Stack F → Moved F
  move (connects f g) s = receive (Event.connects f g) s
  move (subscribes first second f g) s = receive (Event.subscribes first second f g) s
  move (closes f) s = receive (Event.closes f) s
  move (ends i ec received username password) s = elim (get_elem? s.world.pending i) [
    | none ↦ returns (s, [])
    | some op ↦ complete op ec received s.world.client >>= λ (c, effects).
        deliver username password effects (ended_with c i s)
  ]

  unfoldable pub run : List (Move F) → Stack F → Moved F
  run [] s = returns (s, [])
  run (m ∷ ms) s =
      move m s >>= λ (s1, first). run ms s1 >>= λ (s2, rest). returns (s2, first ++ rest)
