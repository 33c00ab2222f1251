-- ===== src/Stomp/View.antt =====
-- `body_` is a view of the caller's text, and not of the copy `frame_`.
use learncppthroughprojects.Prelude.{◌<◌, Text, ◌≡◌, subst, sym, length, u32_mod, returns}
use learncppthroughprojects.Map.{Map}
use learncppthroughprojects.Stomp.Types.{StompCommand, StompHeader, StompFrame}
use learncppthroughprojects.Stomp.Frame.{stomp_frame, substr, get_body}
use learncppthroughprojects.Stomp.Wire.{render, IsFrame}
use learncppthroughprojects.Stomp.Syntax.{parsed, body_start, parse_syntax-render}
use learncppthroughprojects.Stomp.Validate.Correct.{HasHeaders, IsSized}
use learncppthroughprojects.Stomp.Correct.{stomp_frame-render}

view-overwritten :
    (c : StompCommand) (hs : Map StompHeader Text) (body body' eols : Text)
    → length (render c hs body' eols) < u32_mod
    → IsFrame c hs body' eols
    → length body ≡ length body'
    → get_body (parsed c hs body (render c hs body eols)) (render c hs body' eols) ≡ body'
unfolding get_body
view-overwritten c hs body body' eols small w same =
    subst (λ n. substr (render c hs body' eols) (body_start c hs) n ≡ body') (sym same)
      (parse_syntax-render c hs body' eols small w).1

-- Of a text of the wire format below 2 ^ 32 bytes, whose headers suit the command and whose
-- content-length, if any, is right, the constructor returns a frame whose GetBody is the body of the
-- text; and when the caller then writes another body of the same size over its text, with no NUL
-- byte in it, GetBody of that same frame is the new body, whatever the old one was.
pub get_body-overwritten :
    (c : StompCommand) (hs : Map StompHeader Text) (body body' eols : Text)
    → length (render c hs body eols) < u32_mod
    → IsFrame c hs body eols
    → HasHeaders (parsed c hs body (render c hs body eols))
    → IsSized (parsed c hs body (render c hs body eols))
    → length (render c hs body' eols) < u32_mod
    → IsFrame c hs body' eols
    → length body ≡ length body'
    → (f : StompFrame) × (stomp_frame (render c hs body eols) ≡ returns f)
      × (get_body f (render c hs body eols) ≡ body)
      × (get_body f (render c hs body' eols) ≡ body')
get_body-overwritten c hs body body' eols small w suits sized small' w' same =
    let (reads, viewed) = stomp_frame-render c hs body eols small w suits sized in
    (
      parsed c hs body (render c hs body eols),
      reads,
      viewed,
      view-overwritten c hs body body' eols small' w' same,
    )
