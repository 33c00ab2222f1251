-- ===== src/Stomp/Sections.antt =====
-- `ParseCommand`, `ParseHeaders`, `ParseBody` and `ParseEol` on a frame of the wire format.
use mathlib.Core.List.{append-nil}
use learncppthroughprojects.Prelude.{
  ℕ, ◌+◌, ◌<◌, ◌≤◌, false, not, ◌&&◌, [], ◌∷◌, ◌++◌, Text, ◌≡◌, refl, sym, ap, ◌∙◌, arith, length,
  drop, take-append, drop-append, drop-eq_of_append, length-drop-add, lt_of_drop-cons, u32_mod,
  codes, if◌then◌else◌, ◌==◌, nat_eq,
}
use learncppthroughprojects.Map.{Map, contains, insert}
use learncppthroughprojects.Stomp.Types.{
  StompCommand, StompHeader, StompError, StompFrame, command_eq, header_eq,
}
use learncppthroughprojects.Stomp.Frame.{
  is_newline, is_nul, parse_command, parse_headers, end_headers, parse_body, parse_eol,
}
use learncppthroughprojects.Stomp.Scan.{Avoids, scan-append, index_of-append}
use learncppthroughprojects.Stomp.Cursor.{u32_sub-add, u32-next, at_cons}
use learncppthroughprojects.Stomp.Wire.{
  command_name, command_name-Avoids, str_to_command-command_name, header_lines, IsWritable,
}
use learncppthroughprojects.Stomp.HeaderBlock.{block_end, parse_headers_loop-header_lines}

-- The acknowledgement mode that `ParseHeaders` adds to a SUBSCRIBE frame.
unfoldable pub with_ack : StompCommand → Map StompHeader Text → Map StompHeader Text
with_ack c hs =
    if c == StompCommand.subscribe && not (contains StompHeader.ack hs)
    then insert StompHeader.ack (codes "auto") hs
    else hs

pub parse_command_lem :
    (f : StompFrame) (c : StompCommand) (rest : Text)
    → length (command_name c ++ b'\n' ∷ rest) < u32_mod
    → (c == StompCommand.undefined) ≡ false
    → parse_command f (command_name c ++ b'\n' ∷ rest)
      ≡ (record f { command = c }, length (command_name c) + 1)
unfolding parse_command
parse_command_lem f c rest small defined =
    let frame = command_name c ++ b'\n' ∷ rest in
    let n = length (command_name c) in
    let here = drop-append (command_name c) (b'\n' ∷ rest) in
    simp (
      index_of-append is_newline (command_name c) (b'\n' ∷ rest) (command_name-Avoids c) refl,
      at_cons frame n is_newline here,
      take-append (command_name c) (b'\n' ∷ rest),
      str_to_command-command_name c defined,
      defined,
      u32-next frame n small here,
    )

module _ (frame : Text) (small : length frame < u32_mod) (f : StompFrame) (cur : ℕ) where
  pub parse_headers_lem :
      (hs : Map StompHeader Text) (rest : Text)
      → f.frame ≡ frame
      → f.state ≡ StompError.ok
      → drop cur frame ≡ header_lines hs (b'\n' ∷ rest)
      → IsWritable f.headers hs
      → (parse_headers f frame cur
          ≡ (record f { headers = with_ack f.command (f.headers ++ hs) }, block_end cur hs + 1))
        × (drop (block_end cur hs + 1) frame ≡ rest)
  unfolding parse_headers end_headers with_ack
  parse_headers_lem hs rest copy ok e w =
      let (ends, here) =
        parse_headers_loop-header_lines frame small (length frame) f hs rest cur (omega arith) copy
          ok e w in
      (
        ground (
          arith,
          ends,
          at_cons frame (block_end cur hs) is_newline here,
          u32-next frame (block_end cur hs) small here,
        ),
        drop-eq_of_append frame (block_end cur hs) (b'\n' ∷ []) here,
      )

  pub parse_body_lem :
      (body rest : Text)
      → drop cur frame ≡ body ++ 0 ∷ rest
      → Avoids is_nul body
      → parse_body f frame cur
        ≡ (record f { body = record { start = cur; size = length body } }, cur + length body + 1)
  unfolding parse_body
  parse_body_lem body rest e avoids =
      let nul = drop-eq_of_append frame cur body e in
      simp (
        scan-append is_nul frame cur body (0 ∷ rest) small e avoids refl,
        at_cons frame (cur + length body) is_nul nul,
        u32_sub-add cur (length body)
            (omega (arith, lt_of_drop-cons frame (cur + length body) nul)),
        u32-next frame (cur + length body) small nul,
      )

  pub parse_eol_lem :
      (eols : Text)
      → drop cur frame ≡ eols
      → cur ≤ length frame
      → Avoids (λ b. not (is_newline b)) eols
      → parse_eol f frame cur ≡ f
  unfolding parse_eol
  parse_eol_lem eols e inside avoids = ground (
    arith,
    scan-append (λ b. not (is_newline b)) frame cur eols [] small (e ∙ sym (append-nil eols)) avoids
        tt,
    ap length e,
    length-drop-add frame cur inside,
  )
