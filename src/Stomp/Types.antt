-- ===== src/Stomp/Types.antt =====
-- The enumerations of inc/network-monitor/stomp-frame.h, their equality, and the object's fields.
use learncppthroughprojects.Prelude.{
  ℕ, ◌≡◌, refl, ap, some, List, [], ◌∷◌, Text, Eq, enum_eq, get_elem?,
}
use learncppthroughprojects.Map.{Map}

pub data StompCommand : Type 0 where
  undefined send subscribe unsubscribe begin commit abort ack nack error : StompCommand
  disconnect connect stomp connected message receipt server_error : StompCommand

pub data StompHeader : Type 0 where
  undefined content_length content_type receipt host accept_version message : StompHeader
  receipt_id destination message_id ack subscription id version : StompHeader
  transaction session login passcode server heart_beat : StompHeader

pub data StompError : Type 0 where
  ok parsing validation : StompError

code-injective {ℓ} :
    {A : Type ℓ} (code : A → ℕ) (values : List A)
    → ((a : A) → get_elem? values (code a) ≡ some a)
    → (a b : A) → code a ≡ code b
    → a ≡ b
code-injective code values found a b h = cc (found a, found b, ap (get_elem? values) h)

-- `static_cast<uint32_t>` of an enumerator.
abbrev pub command_code : StompCommand → ℕ
command_code StompCommand.undefined = 0
command_code StompCommand.send = 1
command_code StompCommand.subscribe = 2
command_code StompCommand.unsubscribe = 3
command_code StompCommand.begin = 4
command_code StompCommand.commit = 5
command_code StompCommand.abort = 6
command_code StompCommand.ack = 7
command_code StompCommand.nack = 8
command_code StompCommand.error = 9
command_code StompCommand.disconnect = 10
command_code StompCommand.connect = 11
command_code StompCommand.stomp = 12
command_code StompCommand.connected = 13
command_code StompCommand.message = 14
command_code StompCommand.receipt = 15
command_code StompCommand.server_error = 16

abbrev command_values : List StompCommand
command_values =
    StompCommand.undefined ∷ StompCommand.send ∷ StompCommand.subscribe ∷ StompCommand.unsubscribe
    ∷ StompCommand.begin ∷ StompCommand.commit ∷ StompCommand.abort ∷ StompCommand.ack
    ∷ StompCommand.nack ∷ StompCommand.error ∷ StompCommand.disconnect ∷ StompCommand.connect
    ∷ StompCommand.stomp ∷ StompCommand.connected ∷ StompCommand.message ∷ StompCommand.receipt
    ∷ StompCommand.server_error ∷ []

get_elem?-command_code : (a : StompCommand) → get_elem? command_values (command_code a) ≡ some a
get_elem?-command_code StompCommand.undefined = refl
get_elem?-command_code _ = refl

pub command_code-injective : (a b : StompCommand) → command_code a ≡ command_code b → a ≡ b
command_code-injective a b h =
    code-injective command_code command_values get_elem?-command_code a b h

instance abbrev pub command_eq : Eq StompCommand
command_eq = enum_eq command_code command_code-injective

-- `static_cast<uint32_t>` of an enumerator.
abbrev pub header_code : StompHeader → ℕ
header_code StompHeader.undefined = 0
header_code StompHeader.content_length = 1
header_code StompHeader.content_type = 2
header_code StompHeader.receipt = 3
header_code StompHeader.host = 4
header_code StompHeader.accept_version = 5
header_code StompHeader.message = 6
header_code StompHeader.receipt_id = 7
header_code StompHeader.destination = 8
header_code StompHeader.message_id = 9
header_code StompHeader.ack = 10
header_code StompHeader.subscription = 11
header_code StompHeader.id = 12
header_code StompHeader.version = 13
header_code StompHeader.transaction = 14
header_code StompHeader.session = 15
header_code StompHeader.login = 16
header_code StompHeader.passcode = 17
header_code StompHeader.server = 18
header_code StompHeader.heart_beat = 19

abbrev header_values : List StompHeader
header_values =
    StompHeader.undefined ∷ StompHeader.content_length ∷ StompHeader.content_type
    ∷ StompHeader.receipt ∷ StompHeader.host ∷ StompHeader.accept_version ∷ StompHeader.message
    ∷ StompHeader.receipt_id ∷ StompHeader.destination ∷ StompHeader.message_id ∷ StompHeader.ack
    ∷ StompHeader.subscription ∷ StompHeader.id ∷ StompHeader.version ∷ StompHeader.transaction
    ∷ StompHeader.session ∷ StompHeader.login ∷ StompHeader.passcode ∷ StompHeader.server
    ∷ StompHeader.heart_beat ∷ []

get_elem?-header_code : (a : StompHeader) → get_elem? header_values (header_code a) ≡ some a
get_elem?-header_code StompHeader.undefined = refl
get_elem?-header_code _ = refl

pub header_code-injective : (a b : StompHeader) → header_code a ≡ header_code b → a ≡ b
header_code-injective a b h = code-injective header_code header_values get_elem?-header_code a b h

instance abbrev pub header_eq : Eq StompHeader
header_eq = enum_eq header_code header_code-injective

-- `static_cast<uint32_t>` of an enumerator.
abbrev pub error_code : StompError → ℕ
error_code StompError.ok = 0
error_code StompError.parsing = 1
error_code StompError.validation = 2

abbrev error_values : List StompError
error_values = StompError.ok ∷ StompError.parsing ∷ StompError.validation ∷ []

get_elem?-error_code : (a : StompError) → get_elem? error_values (error_code a) ≡ some a
get_elem?-error_code StompError.ok = refl
get_elem?-error_code _ = refl

pub error_code-injective : (a b : StompError) → error_code a ≡ error_code b → a ≡ b
error_code-injective a b h = code-injective error_code error_values get_elem?-error_code a b h

instance abbrev pub error_eq : Eq StompError
error_eq = enum_eq error_code error_code-injective

-- A `std::string_view` into the text that the constructor was called with.
pub record View : Type 0 where
  pub start : ℕ
  pub size : ℕ

-- The data members, `content_length_` left out, which nothing reads or writes. `state_` is a
-- reference to the caller's error code: its value is the code that the caller sees.
pub record StompFrame : Type 0 where
  pub headers : Map StompHeader Text
  pub command : StompCommand
  pub state : StompError
  pub body : View
  pub frame : Text
