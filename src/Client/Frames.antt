-- ===== src/Client/Frames.antt =====
-- The frames that the client sends and those that it waits for, as texts of the wire format.
use learncppthroughprojects.Prelude.{
  ℕ, zero, suc, ◌+◌, ◌/◌, ◌%◌, ◌<◌, [], ◌∷◌, Text, codes, ◌≡◌, ◌≢◌, refl, arith, length, u32_mod,
  returns, ◌==◌, nat_eq, Bool-cases, inl, inr, elem, text_eq,
}
use learncppthroughprojects.Map.{Map, lookup, contains}
use learncppthroughprojects.Stomp.Correct.{stomp_frame-render}
use learncppthroughprojects.Stomp.Validate.Correct.{HasHeaders, IsSized}
use learncppthroughprojects.Stomp.Types.{
  StompFrame, StompCommand, StompHeader, command_eq, header_eq, error_eq,
}
use learncppthroughprojects.Stomp.Frame.{parse, stomp_frame, get_body, is_newline}
use learncppthroughprojects.Stomp.Validate.{
  validate, refuse, required_of, optional_of, classify, listed,
}
use learncppthroughprojects.Stomp.Scan.{Avoids}
use learncppthroughprojects.Stomp.Wire.{render, header_lines, IsFrame}
use learncppthroughprojects.Stomp.Sections.{with_ack}
use learncppthroughprojects.Stomp.Syntax.{parsed, parse_syntax-render}
use learncppthroughprojects.Client.Handlers.{digits, to_string, connect_text, subscribe_text}

-- A value that fits on a header line.
abbrev pub IsLine : Text → Type 0
IsLine v = Avoids is_newline v × (v ≢ [])

digits-Avoids :
    (fuel n : ℕ) (acc : Text) → Avoids is_newline acc → Avoids is_newline (digits fuel n acc)
unfolding digits
digits-Avoids zero n acc h = h
digits-Avoids (suc fuel) n acc h =
    let one : Avoids is_newline ((b'0' + n % 10) ∷ acc) = (ground arith, h) in
    elim (Bool-cases (n / 10 == 0)) [
      | inl e ↦ rw (e, digits) one
      | inr e ↦ rw (e, digits) (digits-Avoids fuel (n / 10) ((b'0' + n % 10) ∷ acc) one)
    ]

digits_ne : (fuel n : ℕ) (acc : Text) → acc ≢ [] → digits fuel n acc ≢ []
unfolding digits
digits_ne zero n acc h = h
digits_ne (suc fuel) n acc h = elim (Bool-cases (n / 10 == 0)) [
  | inl e ↦ λ k. cc
  | inr e ↦ λ k. digits_ne fuel (n / 10) ((b'0' + n % 10) ∷ acc) (λ z. cc) (ground (arith, k, e))
]

pub to_string-IsLine : (n : ℕ) → IsLine (to_string n)
unfolding to_string digits
to_string-IsLine n = (
  digits-Avoids (suc n) n [] tt,
  elim (Bool-cases (n / 10 == 0)) [
    | inl e ↦ λ k. absurd (ground (arith, k, e))
    | inr e ↦ λ k. digits_ne n (n / 10) ((b'0' + n % 10) ∷ []) (λ z. cc) (ground (arith, k, e))
  ],
)

-- On a text of the wire format the constructor does what `Validate` does of what was written.
pub stomp_frame-eq_validate :
    (c : StompCommand) (hs : Map StompHeader Text) (body eols : Text)
    → length (render c hs body eols) < u32_mod
    → IsFrame c hs body eols
    → stomp_frame (render c hs body eols) ≡ validate (parsed c hs body (render c hs body eols))
unfolding stomp_frame parse
stomp_frame-eq_validate c hs body eols small w =
    let (reads, _) = parse_syntax-render c hs body eols small w in ground (arith, reads)

abbrev pub connect_headers : Text → Text → Text → Map StompHeader Text
connect_headers url username password =
    (StompHeader.accept_version, codes "1.2")
    ∷ (StompHeader.host, url)
    ∷ (StompHeader.login, username)
    ∷ (StompHeader.passcode, password)
    ∷ []

abbrev pub subscribe_headers : Text → Text → Map StompHeader Text
subscribe_headers subscription_id receipt_id =
    (StompHeader.id, subscription_id)
    ∷ (StompHeader.receipt, receipt_id)
    ∷ (StompHeader.destination, codes "/passengers")
    ∷ (StompHeader.ack, codes "auto")
    ∷ []

module _ (url username password : Text) (line_url : IsLine url) (line_name : IsLine username)
    (line_pass : IsLine password) where
  connect-IsFrame : IsFrame StompCommand.stomp (connect_headers url username password) [] []
  unfolding contains lookup
  connect-IsFrame = record {
    defined = refl;
    writable = ground (arith, line_url, line_name, line_pass);
    body_avoids = tt;
    eols_avoid = tt;
  }

subscribe-IsFrame :
    (subscription_id receipt_id : Text)
    → IsLine subscription_id
    → IsLine receipt_id
    → IsFrame StompCommand.subscribe (subscribe_headers subscription_id receipt_id) [] []
unfolding contains lookup
subscribe-IsFrame subscription_id receipt_id line_id line_receipt = record {
  defined = refl;
  writable = ground (arith, line_id, line_receipt);
  body_avoids = tt;
  eols_avoid = tt;
}

-- The frame that OnWsConnect sends, for a URL, user name and password of one line each and a text
-- below 2 ^ 32 bytes, is read by StompFrame as a STOMP frame with the four headers, and is refused
-- by Validate: the tables have no headers for STOMP.
pub stomp_frame-connect_text :
    (url username password : Text)
    → IsLine url
    → IsLine username
    → IsLine password
    → length (connect_text url username password) < u32_mod
    → stomp_frame (connect_text url username password)
      ≡ returns (
          refuse (
            parsed StompCommand.stomp
              (connect_headers url username password)
              []
              (connect_text url username password)))
unfolding validate required_of optional_of classify listed lookup with_ack render header_lines
stomp_frame-connect_text url username password line_url line_name line_pass small =
    stomp_frame-eq_validate StompCommand.stomp (connect_headers url username password) [] [] small
      (connect-IsFrame url username password line_url line_name line_pass)

-- The frame that Subscribe sends, whatever the two numbers that it drew, and below 2 ^ 32 bytes, is
-- read by StompFrame as a SUBSCRIBE frame with the four headers, and is refused by Validate: the
-- tables do not allow a SUBSCRIBE frame a receipt header.
pub stomp_frame-subscribe_text :
    (first second : ℕ)
    → length (subscribe_text (to_string first) (to_string second)) < u32_mod
    → stomp_frame (subscribe_text (to_string first) (to_string second))
      ≡ returns (
          refuse (
            parsed StompCommand.subscribe
              (subscribe_headers (to_string first) (to_string second))
              []
              (subscribe_text (to_string first) (to_string second))))
unfolding validate required_of optional_of classify listed lookup with_ack contains render
    header_lines elem
stomp_frame-subscribe_text first second small =
    stomp_frame-eq_validate StompCommand.subscribe
      (subscribe_headers (to_string first) (to_string second)) [] [] small
      (subscribe-IsFrame (to_string first) (to_string second) (to_string-IsLine first)
        (to_string-IsLine second))

-- A frame of the server, but for its command.
pub record ServerFrame : Type 0 where
  pub headers : Map StompHeader Text
  pub body : Text
  pub eols : Text

abbrev pub frame_text : StompCommand → ServerFrame → Text
frame_text c f = render c f.headers f.body f.eols

abbrev pub read_frame : StompCommand → ServerFrame → StompFrame
read_frame c f = parsed c f.headers f.body (frame_text c f)

-- It is of the wire format and below 2 ^ 32 bytes, and its headers suit the command.
pub record IsReadable (c : StompCommand) (f : ServerFrame) : Type 0 where
  pub small : length (frame_text c f) < u32_mod
  pub frame : IsFrame c f.headers f.body f.eols
  pub suits : HasHeaders (read_frame c f)
  pub sized : IsSized (read_frame c f)

pub stomp_frame-frame_text :
    (c : StompCommand) (f : ServerFrame)
    → IsReadable c f
    → (stomp_frame (frame_text c f) ≡ returns (read_frame c f))
      × (get_body (read_frame c f) (frame_text c f) ≡ f.body)
stomp_frame-frame_text c f r =
    stomp_frame-render c f.headers f.body f.eols r.small r.frame r.suits r.sized
