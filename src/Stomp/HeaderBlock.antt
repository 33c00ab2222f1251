-- ===== src/Stomp/HeaderBlock.antt =====
-- The loop of `ParseHeaders`: it reads exactly the header blocks of the wire format.
use mathlib.Core.List.{append-nil, append_assoc}
use learncppthroughprojects.Prelude.{
  ℕ, zero, suc, ◌+◌, ◌<◌, ◌≤◌, true, not, [], ◌∷◌, ◌++◌, Text, ◌≡◌, arith, length, drop, u32_mod,
  ◌∙◌, ap, lt_of_drop-cons,
}
use learncppthroughprojects.Map.{Map, insert-new}
use learncppthroughprojects.Stomp.Types.{StompHeader, StompError, StompFrame, header_eq, error_eq}
use learncppthroughprojects.Stomp.Frame.{at, is_newline, parse_headers_loop, end_headers}
use learncppthroughprojects.Stomp.Cursor.{at_cons}
use learncppthroughprojects.Stomp.Wire.{header_line, header_lines, IsWritable, header_line-head}
use learncppthroughprojects.Stomp.HeaderLine.{parse_header_lem, line_end, drop-line_end}

-- The cursor behind the lines `hs`.
unfoldable pub block_end : ℕ → Map StompHeader Text → ℕ
block_end cur [] = cur
block_end cur ((h, v) ∷ hs) = block_end (line_end cur h v) hs

abbrev pub with_headers : StompFrame → Map StompHeader Text → StompFrame
with_headers f hs = record f { headers = f.headers ++ hs }

module _ (frame : Text) (small : length frame < u32_mod) where
  at_line :
      (h : StompHeader) (v rest : Text) (cur : ℕ)
      → drop cur frame ≡ header_line h v rest
      → (at (λ c. not (is_newline c)) frame cur ≡ true) × (cur < length frame)
  at_line h v rest cur e =
      let (c, r, head, other) = header_line-head h v rest in
      (
        at_cons frame cur (λ c. not (is_newline c)) (e ∙ head) ∙ ap not other,
        lt_of_drop-cons frame cur (e ∙ head),
      )

  pub parse_headers_loop-header_lines :
      (fuel : ℕ) (f : StompFrame) (hs : Map StompHeader Text) (rest : Text) (cur : ℕ)
      → length frame ≤ cur + fuel
      → f.frame ≡ frame
      → f.state ≡ StompError.ok
      → drop cur frame ≡ header_lines hs (b'\n' ∷ rest)
      → IsWritable f.headers hs
      → (parse_headers_loop fuel f frame cur
          ≡ end_headers (with_headers f hs) frame (block_end cur hs))
        × (drop (block_end cur hs) frame ≡ b'\n' ∷ rest)
  unfolding parse_headers_loop header_lines block_end
  parse_headers_loop-header_lines zero f [] rest cur enough copy ok e w = (simp append-nil, e)
  parse_headers_loop-header_lines zero f ((h, v) ∷ hs) rest cur enough copy ok e w =
      absurd (omega (arith, at_line h v (header_lines hs (b'\n' ∷ rest)) cur e))
  parse_headers_loop-header_lines (suc fuel) f [] rest cur enough copy ok e w =
      (ground (arith, append-nil f.headers, at_cons frame cur (λ c. not (is_newline c)) e), e)
  parse_headers_loop-header_lines (suc fuel) f ((h, v) ∷ hs) rest cur enough copy ok e w =
      let (defined, value, ne, new, more) = w in
      let line = at_line h v (header_lines hs (b'\n' ∷ rest)) cur e in
      let read =
        parse_header_lem f frame small h v (header_lines hs (b'\n' ∷ rest)) cur copy e defined value
          ne new in
      let (ends, here) =
        parse_headers_loop-header_lines fuel (with_headers f ((h, v) ∷ [])) hs rest
          (line_end cur h v) (omega arith) copy ok
          (drop-line_end f frame small h v (header_lines hs (b'\n' ∷ rest)) cur e) more in
      (
        ground (
          arith,
          line.0,
          read,
          ends,
          insert-new h v f.headers new,
          append_assoc f.headers ((h, v) ∷ []) hs,
        ),
        here,
      )
