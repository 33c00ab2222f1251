-- ===== src/Stomp/Tables.antt =====
-- The static tables of src/stomp-frame.cpp. The texts are those of the source.
use learncppthroughprojects.Prelude.{Option, List, [], ◌∷◌, Text, codes, text_eq}
use learncppthroughprojects.Map.{Map, lookup}
use learncppthroughprojects.Stomp.Types.{StompCommand, StompHeader}

abbrev pub str_to_command_map : Map Text StompCommand
str_to_command_map =
    (codes "SEND", StompCommand.send)
    ∷ (codes "SUBSCRIBE", StompCommand.subscribe)
    ∷ (codes "UNSUBSCRIBE", StompCommand.unsubscribe)
    ∷ (codes "BEGIN", StompCommand.begin)
    ∷ (codes "COMMIT", StompCommand.commit)
    ∷ (codes "ABORT", StompCommand.abort)
    ∷ (codes "ACK", StompCommand.ack)
    ∷ (codes "NACK", StompCommand.nack)
    ∷ (codes "ERROR", StompCommand.error)
    ∷ (codes "DISCONNECT", StompCommand.disconnect)
    ∷ (codes "CONNECT", StompCommand.connect)
    ∷ (codes "STOMP", StompCommand.stomp)
    ∷ (codes "CONNECTED", StompCommand.connected)
    ∷ (codes "MESSAGE", StompCommand.message)
    ∷ (codes "RECEIPT", StompCommand.receipt)
    ∷ (codes "SERVER_ERROR", StompCommand.server_error)
    ∷ []

-- `strToCommand`
unfoldable pub str_to_command : Text → Option StompCommand
unfolding lookup
str_to_command str = lookup str str_to_command_map

abbrev pub str_to_header_map : Map Text StompHeader
str_to_header_map =
    (codes "content-length", StompHeader.content_length)
    ∷ (codes "content-type", StompHeader.content_type)
    ∷ (codes "receipt", StompHeader.receipt)
    ∷ (codes "host", StompHeader.host)
    ∷ (codes "accept-version", StompHeader.accept_version)
    ∷ (codes "message", StompHeader.message)
    ∷ (codes "message-id", StompHeader.message_id)
    ∷ (codes "receipt-id", StompHeader.receipt_id)
    ∷ (codes "destination", StompHeader.destination)
    ∷ (codes "ack", StompHeader.ack)
    ∷ (codes "subscription", StompHeader.subscription)
    ∷ (codes "id", StompHeader.id)
    ∷ (codes "version", StompHeader.version)
    ∷ (codes "transaction", StompHeader.transaction)
    ∷ (codes "session", StompHeader.session)
    ∷ (codes "login", StompHeader.login)
    ∷ (codes "id", StompHeader.id)
    ∷ (codes "passcode", StompHeader.passcode)
    ∷ (codes "server", StompHeader.server)
    ∷ (codes "heart-beat", StompHeader.heart_beat)
    ∷ []

-- `strToHeader`
unfoldable pub str_to_header : Text → Option StompHeader
unfolding lookup
str_to_header str = lookup str str_to_header_map

abbrev pub required_headers : Map StompCommand (List StompHeader)
required_headers =
    (StompCommand.connect, StompHeader.accept_version ∷ StompHeader.host ∷ [])
    ∷ (StompCommand.connected, StompHeader.version ∷ [])
    ∷ (StompCommand.send, StompHeader.destination ∷ [])
    ∷ (StompCommand.subscribe, StompHeader.destination ∷ StompHeader.id ∷ [])
    ∷ (StompCommand.unsubscribe, StompHeader.id ∷ [])
    ∷ (StompCommand.ack, StompHeader.id ∷ [])
    ∷ (StompCommand.nack, StompHeader.id ∷ [])
    ∷ (StompCommand.begin, StompHeader.transaction ∷ [])
    ∷ (StompCommand.commit, StompHeader.transaction ∷ [])
    ∷ (StompCommand.abort, StompHeader.transaction ∷ [])
    ∷ (
      StompCommand.message,
      StompHeader.destination ∷ StompHeader.message_id ∷ StompHeader.subscription ∷ [],
    )
    ∷ (StompCommand.receipt, StompHeader.receipt_id ∷ [])
    ∷ []

abbrev pub optional_headers : Map StompCommand (List StompHeader)
optional_headers =
    (StompCommand.connect, StompHeader.login ∷ StompHeader.passcode ∷ StompHeader.heart_beat ∷ [])
    ∷ (
      StompCommand.connected,
      StompHeader.session ∷ StompHeader.server ∷ StompHeader.heart_beat ∷ StompHeader.content_type
          ∷ [],
    )
    ∷ (StompCommand.send, StompHeader.transaction ∷ StompHeader.content_type ∷ [])
    ∷ (StompCommand.subscribe, StompHeader.ack ∷ [])
    ∷ (StompCommand.message, StompHeader.content_type ∷ [])
    ∷ (StompCommand.ack, StompHeader.transaction ∷ [])
    ∷ (StompCommand.nack, StompHeader.transaction ∷ [])
    ∷ (StompCommand.disconnect, StompHeader.receipt ∷ [])
    ∷ (StompCommand.message, StompHeader.ack ∷ [])
    ∷ (
      StompCommand.error,
      StompHeader.version ∷ StompHeader.message ∷ StompHeader.content_type ∷ [],
    )
    ∷ []
