-- ===== src/Stomp/Correct.antt =====
-- The constructor of `StompFrame` as a whole: the texts that it accepts, and what it makes of them.
use mathlib.Core.List.{append-nil, append_assoc}
use learncppthroughprojects.Prelude.{
  ◌<◌, not, [], ◌∷◌, ◌++◌, Text, ◌≡◌, refl, sym, subst, ◌∙◌, arith, length, returns, u32_mod, ◌==◌,
  inl, inr, Bool-cases, ◌&&◌, codes,
}
use learncppthroughprojects.Map.{Map, contains, insert-new}
use learncppthroughprojects.Stomp.Types.{
  StompCommand, StompHeader, StompError, StompFrame, command_eq, error_eq, header_eq,
}
use learncppthroughprojects.Stomp.Frame.{initial, parse_syntax, parse, stomp_frame, get_body}
use learncppthroughprojects.Stomp.Validate.{validate}
use learncppthroughprojects.Stomp.Validate.Counting.{IsDistinct, IsDistinct-concat}
use learncppthroughprojects.Stomp.Validate.Correct.{HasHeaders, IsSized, validate_iff, validate_ok}
use learncppthroughprojects.Stomp.Wire.{render, IsFrame, IsWritable}
use learncppthroughprojects.Stomp.Sections.{with_ack}
use learncppthroughprojects.Stomp.Syntax.{parsed, parse_syntax-render}
use learncppthroughprojects.Stomp.Accepts.{IsRendered, parse_syntax-IsRendered}

IsDistinct-append :
    (m hs : Map StompHeader Text) → IsDistinct m → IsWritable m hs → IsDistinct (m ++ hs)
IsDistinct-append m [] d w = subst IsDistinct (sym (append-nil m)) d
IsDistinct-append m ((h, v) ∷ hs) d w =
    subst IsDistinct (append_assoc m ((h, v) ∷ []) hs)
      (IsDistinct-append (m ++ (h, v) ∷ []) hs (IsDistinct-concat h v m d w.3) w.4)

-- The headers of a parsed frame are distinct.
IsDistinct-with_ack :
    (c : StompCommand) (hs : Map StompHeader Text) → IsWritable [] hs → IsDistinct (with_ack c hs)
unfolding with_ack
IsDistinct-with_ack c hs w =
    let d = IsDistinct-append [] hs tt w in
    elim (Bool-cases (c == StompCommand.subscribe && not (contains StompHeader.ack hs))) [
      | inl e ↦ rw e (
          rw (insert-new StompHeader.ack (codes "auto") hs (ground arith))
            (IsDistinct-concat StompHeader.ack (codes "auto") hs d (ground arith)))
      | inr e ↦ rw e d
    ]

-- A frame of the wire format whose headers suit its command, and whose content-length is right, is
-- accepted: no error, the command and the headers that were written, and a view of the body.
pub stomp_frame-render :
    (c : StompCommand) (hs : Map StompHeader Text) (body eols : Text)
    → length (render c hs body eols) < u32_mod
    → IsFrame c hs body eols
    → HasHeaders (parsed c hs body (render c hs body eols))
    → IsSized (parsed c hs body (render c hs body eols))
    → (stomp_frame (render c hs body eols) ≡ returns (parsed c hs body (render c hs body eols)))
      × (get_body (parsed c hs body (render c hs body eols)) (render c hs body eols) ≡ body)
unfolding stomp_frame parse
stomp_frame-render c hs body eols small w headers sized =
    let (reads, viewed) = parse_syntax-render c hs body eols small w in
    let result = parsed c hs body (render c hs body eols) in
    let valid =
      (validate_iff result (IsDistinct-with_ack c hs w.writable) refl).1 (headers, sized) in
    (ground (arith, reads, valid), viewed)

reaches_validate :
    (t : Text) (f : StompFrame)
    → stomp_frame t ≡ returns f
    → f.state ≡ StompError.ok
    → ((parse_syntax (initial t) t).state ≡ StompError.ok)
      × (validate (parse_syntax (initial t) t) ≡ returns f)
unfolding stomp_frame parse
reaches_validate t f h ok = ground arith

-- What the constructor accepted, in terms of the text alone.
pub record Accepted (t : Text) (f : StompFrame) : Type 0 where
  pub text : IsRendered t
  pub result : f ≡ parsed text.command text.headers text.body t
  pub headers : HasHeaders f
  pub sized : IsSized f

-- Whatever text below 2 ^ 32 bytes the constructor accepts with kOk is a text of the wire format; the
-- object holds its command, its headers, with `ack:auto` added to those of a SUBSCRIBE without an
-- ack header, and its body; the headers suit the command, and a content-length header is the size of
-- the body.
pub stomp_frame-Accepted :
    (t : Text) (f : StompFrame)
    → length t < u32_mod
    → stomp_frame t ≡ returns f
    → f.state ≡ StompError.ok
    → Accepted t f
stomp_frame-Accepted t f small h ok =
    let (reads, valid) = reaches_validate t f h ok in
    let text = parse_syntax-IsRendered t small reads in
    let result = parsed text.command text.headers text.body t in
    let same : parse_syntax (initial t) t ≡ result =
      subst (λ x. parse_syntax (initial x) x ≡ parsed text.command text.headers text.body x)
        (sym text.renders)
        (parse_syntax-render text.command text.headers text.body text.eols
          (subst (λ x. length x < u32_mod) text.renders small) text.is_frame).0 in
    let is_result : f ≡ result = validate_ok (parse_syntax (initial t) t) f valid ok ∙ same in
    let fits =
      (validate_iff result (IsDistinct-with_ack text.command text.headers text.is_frame.writable)
          refl).0
        (subst (λ x. validate x ≡ returns x) is_result
          (subst (λ x. validate x ≡ returns f) (same ∙ sym is_result) valid)) in
    record {
      text = text;
      result = is_result;
      headers = subst HasHeaders (sym is_result) fits.0;
      sized = subst IsSized (sym is_result) fits.1;
    }
