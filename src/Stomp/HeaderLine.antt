-- ===== src/Stomp/HeaderLine.antt =====
-- One header line: `ParseHeader` reads it, and a success reads nothing else.
use learncppthroughprojects.Prelude.{
  ℕ, ◌+◌, ◌<◌, false, [], ◌∷◌, ◌++◌, Text, ◌≡◌, ◌≢◌, refl, arith, length, drop, nat_eq,
  drop-eq_of_append, lt_of_drop-cons, u32, u32_mod, ◌==◌, if◌then◌else◌, ◌∙◌,
}
use learncppthroughprojects.Map.{contains, insert}
use learncppthroughprojects.Stomp.Types.{StompHeader, StompFrame, header_eq}
use learncppthroughprojects.Stomp.Tables.{str_to_header}
use learncppthroughprojects.Stomp.Frame.{
  header_or_undefined, at, is_newline, is_colon_or_newline, read_header, store_header, parse_header,
  fail,
}
use learncppthroughprojects.Stomp.Scan.{Avoids, Stops, scan-append}
use learncppthroughprojects.Stomp.Cursor.{u32_sub-add, substr-append, u32-next, drop-next, at_cons}
use learncppthroughprojects.Stomp.Wire.{
  header_name, header_line, header_name-Avoids, str_to_header-header_name,
}

length-ne_zero : (v : Text) → v ≢ [] → (length v == 0) ≡ false
length-ne_zero [] h = absurd (h refl)
length-ne_zero (c ∷ v) h = ground arith

-- The cursor behind a line.
abbrev pub line_end : ℕ → StompHeader → Text → ℕ
line_end cur h v = cur + length (header_name h) + 1 + length v + 1

module _ (f : StompFrame) (frame : Text) (small : length frame < u32_mod) where
  read_header-colon :
      (start : ℕ) (w r : Text)
      → f.frame ≡ frame
      → drop start frame ≡ w ++ b':' ∷ r
      → read_header f frame start (start + length w) ≡ header_or_undefined (str_to_header w)
  unfolding read_header
  read_header-colon start w r copy e =
      let here = drop-eq_of_append frame start w e in
      simp (
        at_cons frame (start + length w) (λ c. c == b':') here,
        u32_sub-add start (length w) (omega (arith, lt_of_drop-cons frame (start + length w) here)),
        copy,
        substr-append frame start w (b':' ∷ r) e,
      )

  pub store_header-newline :
      (h : StompHeader) (start : ℕ) (v r : Text)
      → drop start frame ≡ v ++ b'\n' ∷ r
      → store_header f frame h start (start + length v) ≡ (
          if length v == 0
          then fail f
          else if contains h f.headers
          then fail f
          else record f { headers = insert h v f.headers })
  unfolding store_header
  store_header-newline h start v r e =
      let here = drop-eq_of_append frame start v e in
      ground (
        arith,
        at_cons frame (start + length v) is_newline here,
        u32_sub-add start (length v) (omega (arith, lt_of_drop-cons frame (start + length v) here)),
        substr-append frame start v (b'\n' ∷ r) e,
      )

  -- The name up to the colon at `cur + length w`, then the value up to `length v` bytes behind it.
  pub parse_header-colon :
      (cur : ℕ) (w v r : Text)
      → f.frame ≡ frame
      → drop cur frame ≡ w ++ b':' ∷ (v ++ r)
      → Avoids is_colon_or_newline w
      → Avoids is_newline v
      → Stops is_newline r
      → parse_header f frame cur ≡ (
          if header_or_undefined (str_to_header w) == StompHeader.undefined
          then (fail f, cur + length w + 1)
          else (
            store_header f frame
                (header_or_undefined (str_to_header w))
                (cur + length w + 1)
                (cur + length w + 1 + length v),
            u32 (cur + length w + 1 + length v + 1),
          ))
  unfolding parse_header
  parse_header-colon cur w v r copy e name value stops =
      let colon = drop-eq_of_append frame cur w e in
      let here = drop-next frame (cur + length w) colon in
      simp (
        scan-append is_colon_or_newline frame cur w (b':' ∷ (v ++ r)) small e name refl,
        read_header-colon cur w (v ++ r) copy e,
        u32-next frame (cur + length w) small colon,
        scan-append is_newline frame (cur + length w + 1) v r small here value stops,
      )

  pub parse_header-no_colon :
      (cur : ℕ) (w r : Text)
      → drop cur frame ≡ w ++ r
      → Avoids is_colon_or_newline w
      → Stops is_colon_or_newline r
      → at (λ c. c == b':') frame (cur + length w) ≡ false
      → (parse_header f frame cur).0 ≡ fail f
  unfolding parse_header read_header
  parse_header-no_colon cur w r e name stops none_here =
      simp (scan-append is_colon_or_newline frame cur w r small e name stops, none_here)

  drop-value :
      (h : StompHeader) (v r : Text) (cur : ℕ)
      → drop cur frame ≡ header_name h ++ b':' ∷ (v ++ r)
      → drop (cur + length (header_name h) + 1 + length v) frame ≡ r
  drop-value h v r cur e = drop-eq_of_append frame (cur + length (header_name h) + 1) v (
      drop-next frame (cur + length (header_name h))
        (drop-eq_of_append frame cur (header_name h) e))

  pub drop-line_end :
      (h : StompHeader) (v rest : Text) (cur : ℕ)
      → drop cur frame ≡ header_line h v rest
      → drop (line_end cur h v) frame ≡ rest
  drop-line_end h v rest cur e =
      drop-next frame (cur + length (header_name h) + 1 + length v)
        (drop-value h v (b'\n' ∷ rest) cur e)

  -- A well-formed line whose header is new is stored, and the cursor stands behind it.
  pub parse_header_lem :
      (h : StompHeader) (v rest : Text) (cur : ℕ)
      → f.frame ≡ frame
      → drop cur frame ≡ header_line h v rest
      → (h == StompHeader.undefined) ≡ false
      → Avoids is_newline v
      → v ≢ []
      → contains h f.headers ≡ false
      → parse_header f frame cur ≡ (record f { headers = insert h v f.headers }, line_end cur h v)
  parse_header_lem h v rest cur copy e defined value ne new =
      let value_end = cur + length (header_name h) + 1 + length v in
      let newline = drop-value h v (b'\n' ∷ rest) cur e in
      let start =
        drop-next frame (cur + length (header_name h))
          (drop-eq_of_append frame cur (header_name h) e) in
      parse_header-colon cur (header_name h) v (b'\n' ∷ rest) copy e (header_name-Avoids h) value
        refl
      ∙ simp (
        str_to_header-header_name h defined,
        defined,
        store_header-newline h (cur + length (header_name h) + 1) v rest start,
        length-ne_zero v ne,
        new,
        u32-next frame value_end small newline,
      )
