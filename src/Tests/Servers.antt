-- ===== src/Tests/Servers.antt =====
-- Frames of a server, with the headers of those in tests/stomp-client.cpp.
use learncppthroughprojects.Prelude.{
  ◌<◌, elem, [], ◌∷◌, codes, refl, arith, length, u32_mod, text_beq,
}
use learncppthroughprojects.Map.{lookup, contains}
use learncppthroughprojects.Stomp.Types.{StompCommand, StompHeader, header_eq}
use learncppthroughprojects.Stomp.Stoi.{stoi}
use learncppthroughprojects.Stomp.Validate.{
  validate, required_of, optional_of, classify, listed, all_found, ack_is_valid, validate_length,
}
use learncppthroughprojects.Stomp.Validate.Correct.{HasHeaders, IsSized, validate_iff}
use learncppthroughprojects.Stomp.Wire.{render, header_lines}
use learncppthroughprojects.Stomp.Sections.{with_ack}
use learncppthroughprojects.Client.Frames.{ServerFrame, frame_text, read_frame, IsReadable}
use learncppthroughprojects.Client.Handlers.{to_string, digits}
use learncppthroughprojects.Client.Delivery.{IsReceipt, IsSendable}

abbrev pub hello : ServerFrame
hello = record {
  headers = (StompHeader.version, codes "1.2") ∷ (StompHeader.session, codes "12") ∷ [];
  body = [];
  eols = [];
}

abbrev pub receipt_42 : ServerFrame
receipt_42 = record { headers = (StompHeader.receipt_id, codes "42") ∷ []; body = []; eols = [] }

-- A message of subscription 7, with two bytes of text.
abbrev pub message_in : ServerFrame
message_in = record {
  headers =
      (StompHeader.subscription, codes "7")
      ∷ (StompHeader.message_id, codes "001")
      ∷ (StompHeader.destination, codes "/passengers")
      ∷ (StompHeader.content_length, codes "2")
      ∷ (StompHeader.content_type, codes "text/plain")
      ∷ [];
  body = codes "in";
  eols = [];
}

hello-valid :
    HasHeaders (read_frame StompCommand.connected hello)
    × IsSized (read_frame StompCommand.connected hello)
unfolding validate required_of optional_of classify listed elem all_found ack_is_valid
    validate_length stoi lookup contains text_beq with_ack
hello-valid = (validate_iff (read_frame StompCommand.connected hello) (ground arith) refl).0 refl

hello-small : length (frame_text StompCommand.connected hello) < u32_mod
unfolding render header_lines
hello-small = omega arith

pub hello-IsReadable : IsReadable StompCommand.connected hello
unfolding contains lookup
hello-IsReadable = record {
  small = hello-small;
  frame = record {
    defined = refl;
    writable = ground arith;
    body_avoids = ground arith;
    eols_avoid = ground arith;
  };
  suits = hello-valid.0;
  sized = hello-valid.1;
}

receipt_42-valid :
    HasHeaders (read_frame StompCommand.receipt receipt_42)
    × IsSized (read_frame StompCommand.receipt receipt_42)
unfolding validate required_of optional_of classify listed elem all_found ack_is_valid
    validate_length stoi lookup contains text_beq with_ack
receipt_42-valid =
    (validate_iff (read_frame StompCommand.receipt receipt_42) (ground arith) refl).0 refl

receipt_42-small : length (frame_text StompCommand.receipt receipt_42) < u32_mod
unfolding render header_lines
receipt_42-small = omega arith

pub receipt_42-IsReadable : IsReadable StompCommand.receipt receipt_42
unfolding contains lookup
receipt_42-IsReadable = record {
  small = receipt_42-small;
  frame = record {
    defined = refl;
    writable = ground arith;
    body_avoids = ground arith;
    eols_avoid = ground arith;
  };
  suits = receipt_42-valid.0;
  sized = receipt_42-valid.1;
}

message_in-valid :
    HasHeaders (read_frame StompCommand.message message_in)
    × IsSized (read_frame StompCommand.message message_in)
unfolding validate required_of optional_of classify listed elem all_found ack_is_valid
    validate_length stoi lookup contains text_beq with_ack
message_in-valid =
    (validate_iff (read_frame StompCommand.message message_in) (ground arith) refl).0 refl

message_in-small : length (frame_text StompCommand.message message_in) < u32_mod
unfolding render header_lines
message_in-small = omega arith

pub message_in-IsReadable : IsReadable StompCommand.message message_in
unfolding contains lookup
message_in-IsReadable = record {
  small = message_in-small;
  frame = record {
    defined = refl;
    writable = ground arith;
    body_avoids = ground arith;
    eols_avoid = ground arith;
  };
  suits = message_in-valid.0;
  sized = message_in-valid.1;
}

pub receipt_42-IsReceipt : IsReceipt (to_string 42) receipt_42
unfolding lookup to_string digits
receipt_42-IsReceipt = (receipt_42-IsReadable, refl)

pub message_in-IsSendable : IsSendable (to_string 7) message_in
unfolding lookup to_string digits
message_in-IsSendable = (message_in-IsReadable, refl, refl)
