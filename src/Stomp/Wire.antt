-- ===== src/Stomp/Wire.antt =====
-- The wire format of a frame, apart from the parser: names of commands and headers, header lines.
use learncppthroughprojects.Prelude.{
  ℕ, Bool, true, false, not, ◌&&◌, [], ◌∷◌, ◌++◌, Text, ◌≡◌, ◌≢◌, nat_eq, refl, some, arith, codes,
  text_eq, ◌==◌, text_beq, text_beq_iff, all,
}
use learncppthroughprojects.Map.{Map, contains, lookup-all}
use learncppthroughprojects.Stomp.Types.{StompCommand, StompHeader, command_eq, header_eq}
use learncppthroughprojects.Stomp.Tables.{
  str_to_command, str_to_header, str_to_command_map, str_to_header_map,
}
use learncppthroughprojects.Stomp.Frame.{is_newline, is_nul, is_colon_or_newline}
use learncppthroughprojects.Stomp.Scan.{Avoids}

-- `Avoids`, by evaluation.
Avoids-all : (p : ℕ → Bool) (w : Text) → all (λ c. not (p c)) w ≡ true → Avoids p w
Avoids-all p [] h = tt
Avoids-all p (c ∷ w) h = (ground arith, Avoids-all p w (ground arith))

abbrev pub command_name : StompCommand → Text
command_name StompCommand.undefined = []
command_name StompCommand.send = codes "SEND"
command_name StompCommand.subscribe = codes "SUBSCRIBE"
command_name StompCommand.unsubscribe = codes "UNSUBSCRIBE"
command_name StompCommand.begin = codes "BEGIN"
command_name StompCommand.commit = codes "COMMIT"
command_name StompCommand.abort = codes "ABORT"
command_name StompCommand.ack = codes "ACK"
command_name StompCommand.nack = codes "NACK"
command_name StompCommand.error = codes "ERROR"
command_name StompCommand.disconnect = codes "DISCONNECT"
command_name StompCommand.connect = codes "CONNECT"
command_name StompCommand.stomp = codes "STOMP"
command_name StompCommand.connected = codes "CONNECTED"
command_name StompCommand.message = codes "MESSAGE"
command_name StompCommand.receipt = codes "RECEIPT"
command_name StompCommand.server_error = codes "SERVER_ERROR"

pub str_to_command-command_name :
    (a : StompCommand)
    → (a == StompCommand.undefined) ≡ false
    → str_to_command (command_name a) ≡ some a
unfolding str_to_command text_beq
str_to_command-command_name StompCommand.undefined h = cc
str_to_command-command_name _ h = refl

-- The converse: only the name of a command is read as that command.
pub eq-command_name :
    (s : Text) (a : StompCommand)
    → str_to_command s ≡ some a
    → (s ≡ command_name a) × ((a == StompCommand.undefined) ≡ false)
unfolding str_to_command text_beq
eq-command_name s a h = ground (
  arith,
  lookup-all (λ k v. k == command_name v && not (v == StompCommand.undefined)) str_to_command_map
      refl s h,
  text_beq_iff s (command_name a),
)

pub command_name-Avoids : (a : StompCommand) → Avoids is_newline (command_name a)
command_name-Avoids StompCommand.undefined = tt
command_name-Avoids a = Avoids-all is_newline (command_name a) refl

abbrev pub header_name : StompHeader → Text
header_name StompHeader.undefined = []
header_name StompHeader.content_length = codes "content-length"
header_name StompHeader.content_type = codes "content-type"
header_name StompHeader.receipt = codes "receipt"
header_name StompHeader.host = codes "host"
header_name StompHeader.accept_version = codes "accept-version"
header_name StompHeader.message = codes "message"
header_name StompHeader.message_id = codes "message-id"
header_name StompHeader.receipt_id = codes "receipt-id"
header_name StompHeader.destination = codes "destination"
header_name StompHeader.ack = codes "ack"
header_name StompHeader.subscription = codes "subscription"
header_name StompHeader.id = codes "id"
header_name StompHeader.version = codes "version"
header_name StompHeader.transaction = codes "transaction"
header_name StompHeader.session = codes "session"
header_name StompHeader.login = codes "login"
header_name StompHeader.passcode = codes "passcode"
header_name StompHeader.server = codes "server"
header_name StompHeader.heart_beat = codes "heart-beat"

pub str_to_header-header_name :
    (a : StompHeader)
    → (a == StompHeader.undefined) ≡ false
    → str_to_header (header_name a) ≡ some a
unfolding str_to_header text_beq
str_to_header-header_name StompHeader.undefined h = cc
str_to_header-header_name _ h = refl

-- The converse: only the name of a header is read as that header.
pub eq-header_name :
    (s : Text) (a : StompHeader)
    → str_to_header s ≡ some a
    → (s ≡ header_name a) × ((a == StompHeader.undefined) ≡ false)
unfolding str_to_header text_beq
eq-header_name s a h = ground (
  arith,
  lookup-all (λ k v. k == header_name v && not (v == StompHeader.undefined)) str_to_header_map refl
      s h,
  text_beq_iff s (header_name a),
)

pub header_name-Avoids : (a : StompHeader) → Avoids is_colon_or_newline (header_name a)
header_name-Avoids StompHeader.undefined = tt
header_name-Avoids a = Avoids-all is_colon_or_newline (header_name a) refl

-- One line of the header block.
abbrev pub header_line : StompHeader → Text → Text → Text
header_line h v rest = header_name h ++ b':' ∷ (v ++ b'\n' ∷ rest)

-- The lines of a header block, with what follows them.
unfoldable pub header_lines : Map StompHeader Text → Text → Text
header_lines [] rest = rest
header_lines ((h, v) ∷ hs) rest = header_line h v (header_lines hs rest)

-- The headers `hs` can be written behind those of `m`: known names, values of at least one byte
-- and on one line, and no header twice.
abbrev pub IsWritable : Map StompHeader Text → Map StompHeader Text → Type 0
IsWritable m [] = Unit
IsWritable m ((h, v) ∷ hs) =
    ((h == StompHeader.undefined) ≡ false)
    × Avoids is_newline v
    × (v ≢ [])
    × (contains h m ≡ false)
    × IsWritable (m ++ (h, v) ∷ []) hs

-- A line begins with no line end.
pub header_line-head :
    (h : StompHeader) (v rest : Text)
    → (c : ℕ) × (r : Text) × (header_line h v rest ≡ c ∷ r) × (is_newline c ≡ false)
header_line-head h v rest = go (header_name h) (header_name-Avoids h)
  where
    go :
        (w : Text)
        → Avoids is_colon_or_newline w
        → (c : ℕ) × (r : Text) × (w ++ b':' ∷ (v ++ b'\n' ∷ rest) ≡ c ∷ r) × (is_newline c ≡ false)
    go [] a = (b':', v ++ b'\n' ∷ rest, refl, refl)
    go (c ∷ w) a = (c, w ++ b':' ∷ (v ++ b'\n' ∷ rest), refl, ground arith)

-- A whole frame, with line ends behind it.
unfoldable pub render : StompCommand → Map StompHeader Text → Text → Text → Text
render c hs body eols = command_name c ++ b'\n' ∷ header_lines hs (b'\n' ∷ (body ++ 0 ∷ eols))

-- What the wire format asks of the parts of a frame.
pub record IsFrame (c : StompCommand) (hs : Map StompHeader Text) (body eols : Text) : Type 0 where
  pub defined : (c == StompCommand.undefined) ≡ false
  pub writable : IsWritable [] hs
  pub body_avoids : Avoids is_nul body
  pub eols_avoid : Avoids (λ b. not (is_newline b)) eols
