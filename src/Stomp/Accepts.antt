-- ===== src/Stomp/Accepts.antt =====
-- The converse: a text that `Parse` takes through to `Validate` is a frame of the wire format.
use mathlib.Core.List.{append-nil}
use learncppthroughprojects.Prelude.{
  ℕ, ◌+◌, ◌<◌, false, not, inl, inr, [], ◌∷◌, ◌++◌, Text, ◌≡◌, refl, sym, ap, subst, ◌∙◌, arith,
  length, drop, take, take-append, drop-append, drop-eq_of_append, lt_of_drop-cons, u32_mod, ◌==◌,
  eq_iff, nat_eq, Option-cases,
}
use learncppthroughprojects.Map.{Map}
use learncppthroughprojects.Stomp.Types.{
  StompCommand, StompHeader, StompError, StompFrame, command_eq, error_eq,
}
use learncppthroughprojects.Stomp.Tables.{str_to_command}
use learncppthroughprojects.Stomp.Frame.{
  is_newline, is_nul, initial, index_of, parse_command, parse_headers, parse_body, parse_eol,
  parse_syntax,
}
use learncppthroughprojects.Stomp.Scan.{Avoids, Stops, Cut, cut, index_of-append, scan-append}
use learncppthroughprojects.Stomp.Cursor.{at_end, drop-next}
use learncppthroughprojects.Stomp.Wire.{
  command_name, eq-command_name, header_lines, render, IsFrame,
}
use learncppthroughprojects.Stomp.BlockSound.{BlockRead, parse_headers_loop-BlockRead}
use learncppthroughprojects.Stomp.HeaderBlock.{block_end}
use learncppthroughprojects.Stomp.Sections.{
  with_ack, parse_command_lem, parse_headers_lem, parse_body_lem,
}

record CommandRead (frame : Text) : Type 0 where
  command : StompCommand
  rest : Text
  reads : frame ≡ command_name command ++ b'\n' ∷ rest
  defined : (command == StompCommand.undefined) ≡ false

drop_of_eq : (frame w : Text) {r : Text} → frame ≡ w ++ r → drop (length w) frame ≡ r
drop_of_eq frame w {r} e = simp e (drop-append w r)

module _ (frame : Text) (ok : (parse_command (initial frame) frame).0.state ≡ StompError.ok) where
  no_newline : (w : Text) → frame ≡ w ++ [] → Avoids is_newline w → ⊥
  unfolding parse_command
  no_newline w e a = ground (
    arith,
    ap (index_of is_newline) e ∙ index_of-append is_newline w [] a tt,
    at_end frame (length w) is_newline (drop_of_eq frame w e),
  )

  at_name : (w rest : Text) → frame ≡ w ++ b'\n' ∷ rest → Avoids is_newline w → CommandRead frame
  unfolding parse_command
  at_name w rest e a =
      let idx = ap (index_of is_newline) e ∙ index_of-append is_newline w (b'\n' ∷ rest) a refl in
      let word = ap (take (length w)) e ∙ take-append w (b'\n' ∷ rest) in
      elim (Option-cases (str_to_command w)) [
        | inl unknown ↦ absurd (ground (arith, idx, word))
        | inr (c, found) ↦
            let (same, defined) = eq-command_name w c found in
            record {
              command = c;
              rest = rest;
              reads = subst (λ x. frame ≡ x ++ b'\n' ∷ rest) same e;
              defined = defined;
            }
      ]

  -- `ParseCommand` leaves no error only behind the name of a command.
  parse_command-CommandRead : CommandRead frame
  parse_command-CommandRead = go name.rest name.splits name.stops
    where
      name : Cut is_newline frame
      name = cut is_newline frame

      go : (r : Text) → frame ≡ name.word ++ r → Stops is_newline r → CommandRead frame
      go [] e stops = absurd (no_newline name.word e name.avoids)
      go (c ∷ r) e stops =
          at_name name.word r (subst (λ x. frame ≡ name.word ++ x ∷ r) ((eq_iff c b'\n').0 stops) e)
            name.avoids

command_ok :
    (frame : Text)
    → (parse_syntax (initial frame) frame).state ≡ StompError.ok
    → (parse_command (initial frame) frame).0.state ≡ StompError.ok
unfolding parse_syntax
command_ok frame ok = ground arith

record BodyRead (frame : Text) (cur : ℕ) : Type 0 where
  body : Text
  rest : Text
  reads : drop cur frame ≡ body ++ 0 ∷ rest
  avoids : Avoids is_nul body

module _ (frame : Text) (small : length frame < u32_mod) (f : StompFrame) (cur : ℕ) where
  no_nul :
      (w : Text)
      → drop cur frame ≡ w ++ []
      → Avoids is_nul w
      → (parse_body f frame cur).0.state ≡ StompError.parsing
  unfolding parse_body
  no_nul w e a = simp (
    scan-append is_nul frame cur w [] small e a tt,
    at_end frame (cur + length w) is_nul (drop-eq_of_append frame cur w e),
  )

  -- `ParseBody` leaves no error only behind a NUL byte.
  parse_body-BodyRead : (parse_body f frame cur).0.state ≡ StompError.ok → BodyRead frame cur
  parse_body-BodyRead ok = go text.rest text.splits text.stops
    where
      text : Cut is_nul (drop cur frame)
      text = cut is_nul (drop cur frame)

      go : (r : Text) → drop cur frame ≡ text.word ++ r → Stops is_nul r → BodyRead frame cur
      go [] e stops = absurd (ground (arith, no_nul text.word e text.avoids))
      go (c ∷ r) e stops = record {
        body = text.word;
        rest = r;
        reads = subst (λ x. drop cur frame ≡ text.word ++ x ∷ r) ((eq_iff c 0).0 stops) e;
        avoids = text.avoids;
      }

  -- `ParseEol` leaves no error only where nothing but line ends is left.
  parse_eol-Avoids :
      (parse_eol f frame cur).state ≡ StompError.ok
      → Avoids (λ b. not (is_newline b)) (drop cur frame)
  unfolding parse_eol
  parse_eol-Avoids ok = go text.rest text.splits text.stops
    where
      text : Cut (λ b. not (is_newline b)) (drop cur frame)
      text = cut (λ b. not (is_newline b)) (drop cur frame)

      go :
          (r : Text)
          → drop cur frame ≡ text.word ++ r
          → Stops (λ b. not (is_newline b)) r
          → Avoids (λ b. not (is_newline b)) (drop cur frame)
      go [] e stops =
          subst (Avoids (λ b. not (is_newline b))) (sym (append-nil text.word) ∙ sym e) text.avoids
      go (c ∷ r) e stops = absurd (
          ground (
            arith,
            scan-append (λ b. not (is_newline b)) frame cur text.word (c ∷ r) small e text.avoids
                stops,
            lt_of_drop-cons frame (cur + length text.word)
                (drop-eq_of_append frame cur text.word e),
          ))

-- The parts of a frame of the wire format, and the text that they make up.
pub record IsRendered (frame : Text) : Type 0 where
  pub command : StompCommand
  pub headers : Map StompHeader Text
  pub body : Text
  pub eols : Text
  pub renders : frame ≡ render command headers body eols
  pub is_frame : IsFrame command headers body eols

module _ (frame : Text) (small : length frame < u32_mod) (c : StompCommand) (block : Text)
    (e : frame ≡ command_name c ++ b'\n' ∷ block)
    (defined : (c == StompCommand.undefined) ≡ false) where
  command_read :
      parse_command (initial frame) frame
      ≡ (record (initial frame) { command = c }, length (command_name c) + 1)
  command_read =
      subst
        (λ x.
          parse_command (initial frame) x
          ≡ (record (initial frame) { command = c }, length (command_name c) + 1))
        (sym e)
        (parse_command_lem (initial frame) c block (subst (λ x. length x < u32_mod) e small)
          defined)

  at_headers : drop (length (command_name c) + 1) frame ≡ block
  at_headers = drop-next frame (length (command_name c)) (drop_of_eq frame (command_name c) e)

  block_read :
      (parse_syntax (initial frame) frame).state ≡ StompError.ok
      → BlockRead (record (initial frame) { command = c }) frame (length (command_name c) + 1)
  unfolding parse_syntax parse_headers
  block_read ok =
      parse_headers_loop-BlockRead frame small (length frame)
        (record (initial frame) { command = c }) (length (command_name c) + 1) refl refl
        (ground (arith, command_read))

  module _
      (b : BlockRead
        (record (initial frame) { command = c })
        frame
        (length (command_name c) + 1)) where
    abbrev start : ℕ
    start = block_end (length (command_name c) + 1) b.headers + 1

    abbrev headers_read_frame : StompFrame
    headers_read_frame = record (initial frame) { command = c; headers = with_ack c b.headers }

    headers_read :
        (parse_headers (record (initial frame) { command = c }) frame (length (command_name c) + 1)
          ≡ (headers_read_frame, start))
        × (drop start frame ≡ b.rest)
    headers_read =
        parse_headers_lem frame small (record (initial frame) { command = c })
          (length (command_name c) + 1) b.headers b.rest refl refl b.reads b.writable

    body_read : (parse_syntax (initial frame) frame).state ≡ StompError.ok → BodyRead frame start
    unfolding parse_syntax
    body_read ok =
        parse_body-BodyRead frame small headers_read_frame start
          (ground (arith, command_read, headers_read.0))

    module _ (body : BodyRead frame start) where
      after_body : drop (start + length body.body + 1) frame ≡ body.rest
      after_body =
          drop-next frame (start + length body.body)
            (drop-eq_of_append frame start body.body body.reads)

      eols_read :
          (parse_syntax (initial frame) frame).state ≡ StompError.ok
          → Avoids (λ x. not (is_newline x)) body.rest
      unfolding parse_syntax
      eols_read ok =
          let f3 = record headers_read_frame {
            body = record { start = start; size = length body.body };
          } in
          subst (Avoids (λ x. not (is_newline x))) after_body (
            parse_eol-Avoids frame small f3 (start + length body.body + 1) (
              ground (
                arith,
                command_read,
                headers_read.0,
                parse_body_lem frame small headers_read_frame start body.body body.rest body.reads
                    body.avoids,
              )))

      renders : frame ≡ render c b.headers body.body body.rest
      unfolding render
      renders =
          e
          ∙ ap (λ x. command_name c ++ b'\n' ∷ x)
              (sym at_headers
                ∙ b.reads
                ∙ ap (λ x. header_lines b.headers (b'\n' ∷ x)) (sym headers_read.1 ∙ body.reads))

    rendered : (parse_syntax (initial frame) frame).state ≡ StompError.ok → IsRendered frame
    rendered ok =
        let body = body_read ok in
        record {
          command = c;
          headers = b.headers;
          body = body.body;
          eols = body.rest;
          renders = renders body;
          is_frame = record {
            defined = defined;
            writable = b.writable;
            body_avoids = body.avoids;
            eols_avoid = eols_read body ok;
          };
        }

-- Only frames of the wire format get past the syntax: no other text leaves the state `kOk`.
pub parse_syntax-IsRendered :
    (frame : Text)
    → length frame < u32_mod
    → (parse_syntax (initial frame) frame).state ≡ StompError.ok
    → IsRendered frame
parse_syntax-IsRendered frame small ok =
    let c = parse_command-CommandRead frame (command_ok frame ok) in
    rendered frame small c.command c.rest c.reads c.defined
      (block_read frame small c.command c.rest c.reads c.defined ok) ok
