-- ===== src/Tests/Frames.antt =====
-- Frames of tests/stomp-frame.cpp.
use learncppthroughprojects.Prelude.{
  elem, ◌<◌, length, drop, u32_mod, [], ◌∷◌, ◌+◌, ◌++◌, ◌≡◌, ◌↔◌, refl, some, arith, Text, codes,
  Outcome, returns, throws, invalid_argument, text_beq, u32,
}
use learncppthroughprojects.Map.{Map, lookup, contains, insert}
use learncppthroughprojects.Stomp.Types.{
  header_eq, StompCommand, StompHeader, StompError, StompFrame,
}
use learncppthroughprojects.Stomp.Frame.{
  is_newline, stomp_frame, get_body, parse, parse_syntax, parse_command, parse_headers,
  parse_headers_loop, parse_header, read_header, store_header, end_headers, parse_body, parse_eol,
  scan, index_of, u32_sub, substr, at,
}
use learncppthroughprojects.Stomp.Validate.{
  validate, refuse, required_of, optional_of, classify, listed, all_found, ack_is_valid,
  validate_length,
}
use learncppthroughprojects.Stomp.Stoi.{stoi}
use learncppthroughprojects.Stomp.Tables.{str_to_command, str_to_header}
use learncppthroughprojects.Stomp.HeaderBlock.{block_end}
use learncppthroughprojects.Stomp.Sections.{with_ack}
use learncppthroughprojects.Stomp.Validate.Correct.{
  HasHeaders, IsSized, validate_iff, validate-throws,
}
use learncppthroughprojects.Stomp.Validate.Ack.{validate-message_ack}
use learncppthroughprojects.Stomp.Scan.{scan_lem}
use learncppthroughprojects.Stomp.Accepts.{IsRendered, parse_syntax-IsRendered}
use learncppthroughprojects.Stomp.View.{get_body-overwritten}
use learncppthroughprojects.Stomp.Wire.{render, header_lines, IsFrame}
use learncppthroughprojects.Stomp.Syntax.{parsed, body_start}
use learncppthroughprojects.Stomp.Correct.{stomp_frame-render, stomp_frame-Accepted, Accepted}

abbrev connect_headers : Map StompHeader Text
connect_headers =
    (StompHeader.accept_version, codes "42")
    ∷ (StompHeader.host, codes "host.com")
    ∷ (StompHeader.content_length, codes "10")
    ∷ []

abbrev wire : Text
wire = render StompCommand.connect connect_headers (codes "Frame body") (codes "\n")

wire_text :
    wire
    ≡ codes "CONNECT\naccept-version:42\nhost:host.com\ncontent-length:10\n\nFrame body"
      ++ 0 ∷ codes "\n"
unfolding render header_lines
wire_text = refl

abbrev result : StompFrame
result = parsed StompCommand.connect connect_headers (codes "Frame body") wire

-- The constructor with all that it calls open.
run : Text → Outcome StompFrame
unfolding stomp_frame parse parse_syntax parse_command parse_headers parse_headers_loop parse_header
    read_header store_header end_headers parse_body parse_eol scan index_of u32_sub u32 substr at
    str_to_command str_to_header validate required_of optional_of classify listed elem all_found
    ack_is_valid validate_length stoi lookup contains insert text_beq
run = stomp_frame

stomp_frame-wire : stomp_frame wire ≡ returns result
unfolding run render header_lines block_end body_start with_ack
stomp_frame-wire = refl

wire_small : length wire < u32_mod
unfolding render header_lines
wire_small = omega arith

wire-IsFrame : IsFrame StompCommand.connect connect_headers (codes "Frame body") (codes "\n")
unfolding contains lookup
wire-IsFrame = record {
  defined = refl;
  writable = ground arith;
  body_avoids = ground arith;
  eols_avoid = ground arith;
}

wire-valid : HasHeaders result × IsSized result
unfolding run with_ack
wire-valid = (validate_iff result (refl, (refl, (refl, tt))) refl).0 refl

stomp_frame-render_example :
    (stomp_frame wire ≡ returns result) × (get_body result wire ≡ codes "Frame body")
stomp_frame-render_example =
    stomp_frame-render StompCommand.connect connect_headers (codes "Frame body") (codes "\n")
      wire_small wire-IsFrame wire-valid.0 wire-valid.1

stomp_frame-Accepted_example : Accepted wire result
stomp_frame-Accepted_example = stomp_frame-Accepted wire result wire_small stomp_frame-wire refl

validate_iff_example : (validate result ≡ returns result) ↔ (HasHeaders result × IsSized result)
unfolding run with_ack
validate_iff_example = validate_iff result (refl, (refl, (refl, tt))) refl

-- A SEND frame whose content-length is no number.
abbrev unsized : StompFrame
unsized = record {
  headers = (StompHeader.destination, codes "/a") ∷ (StompHeader.content_length, codes "ten") ∷ [];
  command = StompCommand.send;
  state = StompError.ok;
  body = record { start = 0; size = 0 };
  frame = [];
}

validate-throws_example : (validate unsized ≡ throws invalid_argument) ↔ (
    HasHeaders unsized
    × ((v : Text) × (lookup StompHeader.content_length unsized.headers ≡ some v)
        × (stoi v ≡ throws invalid_argument)))
unfolding run
validate-throws_example = validate-throws unsized (refl, (refl, tt)) invalid_argument

other-IsFrame : IsFrame StompCommand.connect connect_headers (codes "Other text") (codes "\n")
unfolding contains lookup
other-IsFrame = record {
  defined = refl;
  writable = ground arith;
  body_avoids = ground arith;
  eols_avoid = ground arith;
}

abbrev other_text : Text
other_text = render StompCommand.connect connect_headers (codes "Other text") (codes "\n")

other_text-small : length other_text < u32_mod
unfolding render header_lines
other_text-small = omega arith

get_body-overwritten_example :
    (f : StompFrame) × (stomp_frame wire ≡ returns f)
    × (get_body f wire ≡ codes "Frame body")
    × (get_body f other_text ≡ codes "Other text")
get_body-overwritten_example =
    get_body-overwritten StompCommand.connect connect_headers (codes "Frame body")
      (codes "Other text") (codes "\n") wire_small wire-IsFrame wire-valid.0 wire-valid.1
      other_text-small other-IsFrame refl

abbrev acked_message : StompFrame
acked_message = record {
  headers = (StompHeader.ack, codes "auto") ∷ [];
  command = StompCommand.message;
  state = StompError.ok;
  body = record { start = 0; size = 0 };
  frame = [];
}

validate-message_ack_example : validate acked_message ≡ returns (refuse acked_message)
unfolding contains lookup
validate-message_ack_example = validate-message_ack acked_message refl refl

parse_syntax-IsRendered_example : IsRendered wire
unfolding run render header_lines
parse_syntax-IsRendered_example = parse_syntax-IsRendered wire wire_small refl

scan_lem_example : scan is_newline wire 70 3 ≡ 3 + index_of is_newline (drop 3 wire)
scan_lem_example =
    scan_lem is_newline wire 70 3 wire_small (unfold render header_lines in omega arith)
