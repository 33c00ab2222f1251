-- ===== src/Client/Types.antt =====
-- The state of `StompClient`, and what its methods do outside of it.
use learncppthroughprojects.Prelude.{Bool, false, Option, none, List, [], Text, Outcome}

pub data StompClientError : Type 0 where
  ok timeout error : StompClientError

pub record SubscribeToken : Type 0 where
  pub subscription_id : Text
  pub receipt_id : Text

-- The data members, `ws_` left out: its calls are effects. `F` stands for what the caller's
-- functions are; a `std::function` may be empty.
pub record StompClient (F : Type 0) : Type 0 where
  pub connected : Bool
  pub subscribed : Bool
  pub disconnected : Bool
  pub subscription_id : Text
  pub receipt_id : Text
  pub endpoint : Text
  pub url : Text
  pub on_message : Option F
  pub on_subscribe : Option F
  pub on_connect : Option F
  pub on_disconnect : Option F

-- The constructor.
abbrev pub new_client : {F : Type 0} → Text → Text → StompClient F
new_client url endpoint = record {
  connected = false;
  subscribed = false;
  disconnected = false;
  subscription_id = [];
  receipt_id = [];
  endpoint = endpoint;
  url = url;
  on_message = none;
  on_subscribe = none;
  on_connect = none;
  on_disconnect = none;
}

-- The two functions that are passed to `ws_.Send`.
pub data SendHandler : Type 0 where
  connect_sent subscribe_sent : SendHandler

-- The roles that the caller's functions are called in.
pub data Callback : Type 0 where
  connect_callback disconnect_callback subscribe_callback : Callback
  message_callback close_callback : Callback

-- A call of `ws_`, of a function of the caller, or a line of output. The text of a close callback
-- is empty.
pub data Effect (F : Type 0) : Type 0 where
  connect_ws : Effect F
  send_ws : Text → SendHandler → Effect F
  close_ws : Option F → Effect F
  call : Callback → F → StompClientError → Text → Effect F
  print : Text → Effect F

-- What a method leaves: the object, and the effects in their order.
abbrev pub Handled : Type 0 → Type 0
Handled F = Outcome (StompClient F × List (Effect F))
