-- ===== src/Stomp/Syntax.antt =====
-- `Parse` up to `Validate`: it accepts exactly the wire format, and reads back what was written.
use learncppthroughprojects.Prelude.{
  ℕ, ◌+◌, ◌<◌, ◌∷◌, ◌++◌, Text, ◌≡◌, refl, arith, length, drop, drop-append, drop-eq_of_append,
  lt_of_drop-cons, u32_mod,
}
use learncppthroughprojects.Map.{Map}
use learncppthroughprojects.Stomp.Types.{StompCommand, StompHeader, StompError, StompFrame}
use learncppthroughprojects.Stomp.Frame.{
  initial, parse_command, parse_headers, parse_syntax, get_body,
}
use learncppthroughprojects.Stomp.Cursor.{substr-append, drop-next}
use learncppthroughprojects.Stomp.Wire.{command_name, header_lines, render, IsFrame}
use learncppthroughprojects.Stomp.HeaderBlock.{block_end}
use learncppthroughprojects.Stomp.Sections.{
  with_ack, parse_command_lem, parse_headers_lem, parse_body_lem, parse_eol_lem,
}

-- Where the body of a rendered frame begins.
unfoldable pub body_start : StompCommand → Map StompHeader Text → ℕ
body_start c hs = block_end (length (command_name c) + 1) hs + 1

-- The object that the parser builds from a rendered frame.
abbrev pub parsed : StompCommand → Map StompHeader Text → Text → Text → StompFrame
parsed c hs body frame = record {
  headers = with_ack c hs;
  command = c;
  state = StompError.ok;
  body = record { start = body_start c hs; size = length body };
  frame = frame;
}

module _ (c : StompCommand) (hs : Map StompHeader Text) (body eols : Text)
    (small : length (render c hs body eols) < u32_mod) (w : IsFrame c hs body eols) where
  command_read :
      parse_command (initial (render c hs body eols)) (render c hs body eols)
      ≡ (record (initial (render c hs body eols)) { command = c }, length (command_name c) + 1)
  unfolding render
  command_read =
      parse_command_lem (initial (render c hs body eols)) c
        (header_lines hs (b'\n' ∷ (body ++ 0 ∷ eols))) small w.defined

  at_headers :
      drop (length (command_name c) + 1) (render c hs body eols)
      ≡ header_lines hs (b'\n' ∷ (body ++ 0 ∷ eols))
  unfolding render
  at_headers =
      drop-next (render c hs body eols) (length (command_name c))
        (drop-append (command_name c) (b'\n' ∷ header_lines hs (b'\n' ∷ (body ++ 0 ∷ eols))))

  headers_read :
      (parse_headers
          (record (initial (render c hs body eols)) { command = c })
          (render c hs body eols)
          (length (command_name c) + 1)
        ≡ (
          record (initial (render c hs body eols)) { command = c; headers = with_ack c hs },
          body_start c hs,
        ))
      × (drop (body_start c hs) (render c hs body eols) ≡ body ++ 0 ∷ eols)
  unfolding body_start
  headers_read =
      parse_headers_lem (render c hs body eols) small
        (record (initial (render c hs body eols)) { command = c }) (length (command_name c) + 1) hs
        (body ++ 0 ∷ eols) refl refl at_headers w.writable

  -- A rendered frame parses with no error to its command, its headers and a view of its body.
  pub parse_syntax-render :
      (parse_syntax (initial (render c hs body eols)) (render c hs body eols)
        ≡ parsed c hs body (render c hs body eols))
      × (get_body (parsed c hs body (render c hs body eols)) (render c hs body eols) ≡ body)
  unfolding parse_syntax get_body
  parse_syntax-render =
      let frame = render c hs body eols in
      let (headers, at_body) = headers_read in
      let at_nul = drop-eq_of_append frame (body_start c hs) body at_body in
      let f1 = record (initial frame) { command = c; headers = with_ack c hs } in
      let after = body_start c hs + length body + 1 in
      let ends = drop-next frame (body_start c hs + length body) at_nul in
      let inside = lt_of_drop-cons frame (body_start c hs + length body) at_nul in
      (
        simp (
          command_read,
          headers,
          parse_body_lem frame small f1 (body_start c hs) body eols at_body w.body_avoids,
          parse_eol_lem frame small (parsed c hs body frame) after eols ends (omega arith)
              w.eols_avoid,
        ),
        substr-append frame (body_start c hs) body (0 ∷ eols) at_body,
      )
