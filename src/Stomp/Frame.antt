-- ===== src/Stomp/Frame.antt =====
-- The parser of src/stomp-frame.cpp: `StompFrame::Parse` and the functions that it calls. An index
-- is a `uint32_t`; `idx` in `ParseCommand` is a `size_t`. A loop takes fuel, the frame's length at
-- most: Stomp/Scan shows that it has then ended by its own test.
use learncppthroughprojects.Prelude.{
  ℕ, zero, suc, ◌∷◌, ◌+◌, ◌-◌, Bool, true, false, not, ◌&&◌, ◌||◌, Option, none, some, List, [],
  map, Text, Outcome, returns, codes, get_elem?, take, drop, length, if◌then◌else◌, ◌==◌, nat_eq,
  u32, u32_mod,
}
use learncppthroughprojects.Map.{lookup, contains, insert}
use learncppthroughprojects.Stomp.Types.{
  StompCommand, StompHeader, StompError, command_eq, header_eq, error_eq, StompFrame,
}
use learncppthroughprojects.Stomp.Tables.{str_to_command, str_to_header}
use learncppthroughprojects.Stomp.Validate.{validate}

-- `a - b` on `uint32_t`
unfoldable pub u32_sub : ℕ → ℕ → ℕ
u32_sub a b = u32 (a + u32_mod - b)

-- `s.substr(start, size)`
unfoldable pub substr : Text → ℕ → ℕ → Text
substr s start size = take size (drop start s)

-- The first index at which `p` holds, or the length: the loop of `ParseCommand`.
unfoldable pub index_of : (ℕ → Bool) → Text → ℕ
index_of p [] = 0
index_of p (c ∷ cs) = if p c then 0 else suc (index_of p cs)

-- `while (curIdx < frame.size() && !stop(frame[curIdx])) curIdx++;`
unfoldable pub scan : (ℕ → Bool) → Text → ℕ → ℕ → ℕ
scan stop frame zero cur = cur
scan stop frame (suc fuel) cur = elim (get_elem? frame cur) [
  | none ↦ cur
  | some c ↦ elim (stop c) [ true ↦ cur | false ↦ scan stop frame fuel (u32 (cur + 1)) ]
]

abbrev pub is_newline : ℕ → Bool
is_newline c = c == b'\n'

abbrev pub is_colon_or_newline : ℕ → Bool
is_colon_or_newline c = c == b':' || c == b'\n'

abbrev pub is_nul : ℕ → Bool
is_nul c = c == 0

-- `curIdx < frame.size() && p(frame[curIdx])`
unfoldable pub at : (ℕ → Bool) → Text → ℕ → Bool
at p frame cur = elim (get_elem? frame cur) [ none ↦ false | some c ↦ p c ]

abbrev pub fail : StompFrame → StompFrame
fail f = record f { state = StompError.parsing }

abbrev set_command : StompFrame → Option StompCommand → StompFrame
set_command f none = f
set_command f (some c) = record f { command = c }

unfoldable pub parse_command : StompFrame → Text → StompFrame × ℕ
parse_command f frame =
    let idx = index_of is_newline frame in
    let f1 =
      if at is_newline frame idx then set_command f (str_to_command (take idx frame)) else f in
    (if f1.command == StompCommand.undefined then fail f1 else f1, u32 (idx + 1))

abbrev pub header_or_undefined : Option StompHeader → StompHeader
header_or_undefined none = StompHeader.undefined
header_or_undefined (some h) = h

-- The name of a header, from `startIdx` to the colon at `curIdx`.
unfoldable pub read_header : StompFrame → Text → ℕ → ℕ → StompHeader
read_header f frame start cur =
    if at (λ c. c == b':') frame cur
    then header_or_undefined (str_to_header (substr f.frame start (u32_sub cur start)))
    else StompHeader.undefined

-- What follows the loop over the header's value.
unfoldable pub store_header : StompFrame → Text → StompHeader → ℕ → ℕ → StompFrame
store_header f frame header start cur =
    if not (at is_newline frame cur) || cur == start
    then fail f
    else if contains header f.headers
    then fail f
    else record f { headers = insert header (substr frame start (u32_sub cur start)) f.headers }

unfoldable pub parse_header : StompFrame → Text → ℕ → StompFrame × ℕ
parse_header f frame idx =
    let cur = scan is_colon_or_newline frame (length frame) idx in
    let header = read_header f frame idx cur in
    let start = u32 (cur + 1) in
    let end = scan is_newline frame (length frame) start in
    if header == StompHeader.undefined
    then (fail f, u32 (cur + 1))
    else (store_header f frame header start end, u32 (end + 1))

-- What follows the loop of `ParseHeaders`.
unfoldable pub end_headers : StompFrame → Text → ℕ → StompFrame × ℕ
end_headers f frame cur =
    let f1 = if at is_newline frame cur then f else fail f in
    (
      if f1.command == StompCommand.subscribe && not (contains StompHeader.ack f1.headers)
          then record f1 { headers = insert StompHeader.ack (codes "auto") f1.headers }
          else f1,
      u32 (cur + 1),
    )

unfoldable pub parse_headers_loop : ℕ → StompFrame → Text → ℕ → StompFrame × ℕ
parse_headers_loop zero f frame cur = end_headers f frame cur
parse_headers_loop (suc fuel) f frame cur =
    let (f1, next) = parse_header f frame cur in
    elim (at (λ c. not (is_newline c)) frame cur) [
      | true ↦ elim (f1.state == StompError.parsing) [
        | true ↦ (f1, u32 (next + 1))
        | false ↦ parse_headers_loop fuel f1 frame next
      ]
      | false ↦ end_headers f frame cur
    ]

unfoldable pub parse_headers : StompFrame → Text → ℕ → StompFrame × ℕ
parse_headers f frame idx = parse_headers_loop (length frame) f frame idx

unfoldable pub parse_body : StompFrame → Text → ℕ → StompFrame × ℕ
parse_body f frame idx =
    let cur = scan is_nul frame (length frame) idx in
    (
      if at is_nul frame cur
          then record f { body = record { start = idx; size = u32_sub cur idx } }
          else fail f,
      u32 (cur + 1),
    )

unfoldable pub parse_eol : StompFrame → Text → ℕ → StompFrame
parse_eol f frame idx =
    let cur = scan (λ c. not (is_newline c)) frame (length frame) idx in
    if cur == length frame then f else fail f

abbrev pub is_ok : StompFrame → Bool
is_ok f = f.state == StompError.ok

-- The parts of `Parse` that can set `kParsing`.
unfoldable pub parse_syntax : StompFrame → Text → StompFrame
parse_syntax f frame =
    let (f1, idx1) = parse_command f frame in
    if not (is_ok f1)
    then f1
    else let (f2, idx2) = parse_headers f1 frame idx1 in
      if not (is_ok f2)
      then f2
      else let (f3, idx3) = parse_body f2 frame idx2 in
        if not (is_ok f3) then f3 else parse_eol f3 frame idx3

unfoldable pub parse : StompFrame → Text → Outcome StompFrame
parse f frame =
    if not (is_ok f)
    then returns f
    else let f1 = parse_syntax f frame in if not (is_ok f1) then returns f1 else validate f1

-- The object before `Parse`.
abbrev pub initial : Text → StompFrame
initial frame = record {
  headers = [];
  command = StompCommand.undefined;
  state = StompError.ok;
  body = record { start = 0; size = 0 };
  frame = frame;
}

-- The constructors, with the member initialisers. The error code is `state` of the result.
unfoldable pub stomp_frame : Text → Outcome StompFrame
stomp_frame frame = parse (initial frame) frame

-- `GetHeaders`: the keys, a set.
unfoldable pub get_headers : StompFrame → List StompHeader
get_headers f = map (λ e. e.0) f.headers

-- `GetHeaderValue`: an empty view where the header is missing.
unfoldable pub get_header_value : StompFrame → StompHeader → Text
get_header_value f header = elim (lookup header f.headers) [ none ↦ [] | some v ↦ v ]

-- `GetBody`: `body_` is a view of the caller's text, so it reads what that text holds now.
unfoldable pub get_body : StompFrame → Text → Text
get_body f buffer = substr buffer f.body.start f.body.size

pub get_command : StompFrame → StompCommand
get_command f = f.command

-- `HasBody`
pub has_body : StompFrame → Bool
has_body f = not (f.body.size == 0)
