-- ===== src/Client/Handlers.antt =====
-- The methods of `StompClient`, and the functions that it passes to its WebSocket client.
use learncppthroughprojects.Prelude.{
  ℕ, zero, suc, ◌+◌, ◌/◌, ◌%◌, Bool, true, false, not, ◌&&◌, Option, none, some, List, [], ◌∷◌,
  ◌++◌, Text, codes, returns, throws, bad_function_call, ◌>>=◌, if◌then◌else◌, ◌==◌, text_eq,
  nat_eq,
}
use learncppthroughprojects.Stomp.Types.{
  StompCommand, StompHeader, StompError, StompFrame, command_eq, error_eq,
}
use learncppthroughprojects.Stomp.Frame.{stomp_frame, get_header_value, get_body}
use learncppthroughprojects.Client.Types.{
  StompClientError, SubscribeToken, StompClient, SendHandler, connect_sent, subscribe_sent,
  Callback, connect_callback, disconnect_callback, subscribe_callback, message_callback,
  close_callback, Effect, connect_ws, send_ws, close_ws, call, print, Handled,
}

-- The decimal digits of `n`, in front of `acc`. `fuel` is at least the number of digits.
unfoldable pub digits : ℕ → ℕ → Text → Text
digits zero n acc = acc
digits (suc fuel) n acc = elim (n / 10 == 0) [
  | true ↦ (b'0' + n % 10) ∷ acc
  | false ↦ digits fuel (n / 10) ((b'0' + n % 10) ∷ acc)
]

-- `std::to_string` of a number that is not negative.
unfoldable pub to_string : ℕ → Text
to_string n = digits (suc n) n []

abbrev pub parse_error : Text → Text
parse_error msg = codes "Error parsing message: " ++ msg

-- The text that `OnWsConnect` sends.
abbrev pub connect_text : Text → Text → Text → Text
connect_text url username password =
    codes "STOMP\naccept-version:1.2\nhost:"
    ++ (url
        ++ (codes "\nlogin:"
            ++ (username ++ (codes "\npasscode:" ++ (password ++ (codes "\n\n" ++ 0 ∷ []))))))

-- The text that `Subscribe` sends.
abbrev pub subscribe_text : Text → Text → Text
subscribe_text subscription_id receipt_id =
    codes "SUBSCRIBE\nid:"
    ++ (subscription_id
        ++ (codes "\nreceipt:"
            ++ (receipt_id ++ (codes "\ndestination:/passengers\nack:auto\n\n" ++ 0 ∷ []))))

module _ {F : Type 0} where
  -- A call of a `std::function`, and one behind a test that it is not empty.
  unfoldable pub invoke : Callback → Option F → StompClientError → Text → StompClient F → Handled F
  invoke role none code text c = throws bad_function_call
  invoke role (some f) code text c = returns (c, call role f code text ∷ [])

  unfoldable pub invoke_if_set :
      Callback → Option F → StompClientError → Text → StompClient F → Handled F
  invoke_if_set role none code text c = returns (c, [])
  invoke_if_set role (some f) code text c = returns (c, call role f code text ∷ [])

  abbrev pub is_set : Option F → Bool
  is_set none = false
  is_set (some _) = true

  -- The chain of tests that finds whom to tell of an error; `body` is what `onMessage_` is told.
  unfoldable pub report : Text → Text → List (Effect F) → StompClient F → Handled F
  report msg body otherwise c =
      if not c.connected && is_set c.on_connect
      then invoke connect_callback c.on_connect StompClientError.error msg c
      else if not c.subscribed && is_set c.on_subscribe
      then invoke subscribe_callback c.on_subscribe StompClientError.error msg c
      else if c.connected && c.subscribed && is_set c.on_message
      then invoke message_callback c.on_message StompClientError.error body c
      else returns (c, otherwise)

  unfoldable pub on_receipt : StompFrame → Text → StompClient F → Handled F
  on_receipt f msg c =
      if c.receipt_id == get_header_value f StompHeader.receipt_id
      then invoke_if_set subscribe_callback c.on_subscribe StompClientError.ok (codes "Success")
          (record c { subscribed = true })
      else invoke_if_set subscribe_callback c.on_subscribe StompClientError.error
          (codes "Receipt: Invalid headers -" ++ msg) c

  unfoldable pub on_message_frame : StompFrame → Text → StompClient F → Handled F
  on_message_frame f msg c =
      if get_header_value f StompHeader.subscription == c.subscription_id
        && get_header_value f StompHeader.destination == codes "/passengers"
      then invoke message_callback c.on_message StompClientError.ok (get_body f msg) c
      else invoke message_callback c.on_message StompClientError.error
          (codes "Message: Invalid headers -" ++ msg) c

  -- `MessageHandler`, on a frame without error.
  unfoldable pub on_frame : StompFrame → Text → StompClient F → Handled F
  on_frame f msg c =
      if f.command == StompCommand.connected
      then invoke_if_set connect_callback c.on_connect StompClientError.ok []
          (record c { connected = true })
      else if f.command == StompCommand.error
      then report msg (get_body f msg) [] c
      else if f.command == StompCommand.receipt
      then on_receipt f msg c
      else if f.command == StompCommand.message
      then on_message_frame f msg c
      else invoke message_callback c.on_message StompClientError.error
          (codes "Unable to handle STOMP message") c

  -- `MessageHandler`; `failed` is that `clientError` is not `kOk`.
  unfoldable pub message_handler : Bool → Text → StompClient F → Handled F
  message_handler failed msg c =
      if failed
      then returns (c, print (codes "Error receiving message: " ++ msg) ∷ [])
      else stomp_frame msg >>= λ f.
          if f.state == StompError.ok
          then on_frame f msg c
          else report (parse_error msg) (parse_error msg)
              (print (codes "Stomp error: " ++ parse_error msg) ∷ []) c

  unfoldable pub connect : Option F → Option F → StompClient F → Handled F
  connect on_connect on_disconnect c =
      returns (record c { on_connect = on_connect; on_disconnect = on_disconnect }, connect_ws ∷ [])

  unfoldable pub on_ws_connect : Text → Text → StompClient F → Handled F
  on_ws_connect username password c =
      returns (c, send_ws (connect_text c.url username password) connect_sent ∷ [])

  -- The functions that are passed to `ws_.Connect`, and those that are passed to `ws_.Send`.
  -- The first reads the caller's user name and password through references, when it is called.
  unfoldable pub on_ws_connected : Bool → Text → Text → StompClient F → Handled F
  on_ws_connected failed username password c =
      if failed
      then invoke connect_callback c.on_connect StompClientError.error (codes "Ws Error") c
      else on_ws_connect username password c

  unfoldable pub on_ws_disconnected : Bool → StompClient F → Handled F
  on_ws_disconnected failed c =
      if c.connected && not c.disconnected
      then invoke disconnect_callback c.on_disconnect
          (if failed then StompClientError.error else StompClientError.ok) []
          (record c { disconnected = true })
      else returns (c, [])

  unfoldable pub on_sent : SendHandler → Bool → StompClient F → Handled F
  on_sent connect_sent failed c =
      if failed
      then invoke connect_callback c.on_connect StompClientError.error
          (codes "OnWsConnect: ws error") c
      else returns (c, [])
  on_sent subscribe_sent failed c =
      if failed
      then invoke subscribe_callback c.on_subscribe StompClientError.error
          (codes "Could not successfully send SUBSCRIBE frame.") c
      else returns (c, [])

  unfoldable pub close : Option F → StompClient F → Handled F
  close on_close c = returns (c, close_ws on_close ∷ [])

  -- The function that is passed to `ws_.Close`: the caller's function is called first.
  unfoldable pub on_closed : Option F → Bool → StompClient F → Handled F
  on_closed on_close failed c =
      invoke close_callback on_close
        (if failed then StompClientError.error else StompClientError.ok) [] c
      >>= λ (c', effects). returns (record c' { disconnected = true }, effects)

  abbrev pub token_of : StompClient F → SubscribeToken
  token_of c = record { subscription_id = c.subscription_id; receipt_id = c.receipt_id }

  -- `Subscribe`; the first two arguments are the numbers that the generator draws.
  unfoldable pub subscribe :
      ℕ → ℕ → Option F → Option F → StompClient F → SubscribeToken × StompClient F × List (Effect F)
  subscribe first second on_subscribe on_message c =
      if c.subscribed
      then (token_of c, c, [])
      else let c' = record c {
        subscription_id = to_string first;
        receipt_id = to_string second;
        on_subscribe = on_subscribe;
        on_message = on_message;
      } in
        (
          token_of c',
          c',
          send_ws (subscribe_text c'.subscription_id c'.receipt_id) subscribe_sent ∷ [],
        )

  unfoldable pub is_connected : StompClient F → Bool
  is_connected c = c.connected && not c.disconnected

  unfoldable pub is_subscribed : StompClient F → Bool
  is_subscribed c = c.subscribed && not c.disconnected
