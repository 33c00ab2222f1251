-- ===== src/Stomp/HeaderSound.antt =====
-- A header line that `ParseHeader` accepts is one of the wire format.
use learncppthroughprojects.Prelude.{
  ℕ, ◌+◌, ◌<◌, false, [], ◌∷◌, ◌++◌, Text, ◌≡◌, ◌≢◌, ap, refl, arith, length, drop,
  drop-eq_of_append, u32_mod, ◌==◌, inl, inr, Bool-cases, eq_iff, nat_eq, subst, ◌∙◌, Option-cases,
}
use learncppthroughprojects.Map.{contains}
use learncppthroughprojects.Stomp.Types.{StompHeader, StompError, StompFrame, header_eq}
use learncppthroughprojects.Stomp.Tables.{str_to_header}
use learncppthroughprojects.Stomp.Frame.{
  at, is_newline, is_colon_or_newline, parse_header, store_header, header_or_undefined,
}
use learncppthroughprojects.Stomp.Scan.{Avoids, Stops, Cut, cut}
use learncppthroughprojects.Stomp.Cursor.{at_cons, at_end, drop-next}
use learncppthroughprojects.Stomp.Wire.{header_line, eq-header_name}
use learncppthroughprojects.Stomp.HeaderLine.{
  parse_header-colon, parse_header-no_colon, store_header-newline,
}

-- The line at `cur`, and what `ParseHeader` did with it.
pub record LineRead (f : StompFrame) (frame : Text) (cur : ℕ) : Type 0 where
  pub header : StompHeader
  pub value : Text
  pub rest : Text
  pub reads : drop cur frame ≡ header_line header value rest
  pub defined : (header == StompHeader.undefined) ≡ false
  pub value_avoids : Avoids is_newline value
  pub value_ne : value ≢ []
  pub new : contains header f.headers ≡ false

module _ (f : StompFrame) (frame : Text) (small : length frame < u32_mod) (copy : f.frame ≡ frame)
    (cur : ℕ) (ok : (parse_header f frame cur).0.state ≡ StompError.ok) where
  -- The line without a line end behind its value.
  unterminated :
      (w v : Text)
      → drop cur frame ≡ w ++ b':' ∷ (v ++ [])
      → Avoids is_colon_or_newline w
      → Avoids is_newline v
      → ⊥
  unfolding store_header
  unterminated w v e name value =
      let here = drop-next frame (cur + length w) (drop-eq_of_append frame cur w e) in
      let end = drop-eq_of_append frame (cur + length w + 1) v here in
      ground (
        arith,
        parse_header-colon f frame small cur w v [] copy e name value tt,
        at_end frame (cur + length w + 1 + length v) is_newline end,
      )

  terminated :
      (w v rest : Text)
      → drop cur frame ≡ w ++ b':' ∷ (v ++ b'\n' ∷ rest)
      → Avoids is_colon_or_newline w
      → Avoids is_newline v
      → LineRead f frame cur
  terminated w v rest e name value =
      let here = drop-next frame (cur + length w) (drop-eq_of_append frame cur w e) in
      let closed = parse_header-colon f frame small cur w v (b'\n' ∷ rest) copy e name value refl in
      let stored =
        store_header-newline f frame small (header_or_undefined (str_to_header w))
          (cur + length w + 1) v rest here in
      elim (Option-cases (str_to_header w)) [
        | inl none_found ↦ absurd (ground (arith, closed))
        | inr (h, found) ↦
            let (same, defined) = eq-header_name w h found in
            record {
              header = h;
              value = v;
              rest = rest;
              reads = subst (λ x. drop cur frame ≡ x ++ b':' ∷ (v ++ b'\n' ∷ rest)) same e;
              defined = defined;
              value_avoids = value;
              value_ne = λ empty. ground (arith, closed, stored, ap length empty);
              new = ground (arith, closed, stored);
            }
      ]

  after_colon :
      (w : Text) (k : Text) (value : Cut is_newline k)
      → drop cur frame ≡ w ++ b':' ∷ k
      → Avoids is_colon_or_newline w
      → LineRead f frame cur
  after_colon w k value e name = go value.rest value.splits value.stops
    where
      go : (r : Text) → k ≡ value.word ++ r → Stops is_newline r → LineRead f frame cur
      go [] splits stops = absurd (
          unterminated w value.word (subst (λ x. drop cur frame ≡ w ++ b':' ∷ x) splits e) name
            value.avoids)
      go (c ∷ rest) splits stops =
          terminated w value.word rest
            (subst (λ x. drop cur frame ≡ w ++ b':' ∷ (value.word ++ x ∷ rest))
              ((eq_iff c b'\n').0 stops) (subst (λ x. drop cur frame ≡ w ++ b':' ∷ x) splits e))
            name value.avoids

  no_colon :
      (w r : Text)
      → drop cur frame ≡ w ++ r
      → Avoids is_colon_or_newline w
      → Stops is_colon_or_newline r
      → at (λ c. c == b':') frame (cur + length w) ≡ false
      → ⊥
  no_colon w r e name stops none_here =
      ground (arith, parse_header-no_colon f frame small cur w r e name stops none_here)

  -- `ParseHeader` leaves no error only at a line of the wire format, with a new header.
  pub parse_header-LineRead : LineRead f frame cur
  parse_header-LineRead = go name.rest name.splits name.stops
    where
      name : Cut is_colon_or_newline (drop cur frame)
      name = cut is_colon_or_newline (drop cur frame)

      go :
          (r : Text)
          → drop cur frame ≡ name.word ++ r
          → Stops is_colon_or_newline r
          → LineRead f frame cur
      go [] e stops = absurd (
          no_colon name.word [] e name.avoids stops (
            at_end frame (cur + length name.word) (λ c. c == b':')
              (drop-eq_of_append frame cur name.word e)))
      go (c ∷ r) e stops = elim (Bool-cases (c == b':')) [
        | inl colon ↦
            after_colon name.word r (cut is_newline r)
              (subst (λ x. drop cur frame ≡ name.word ++ x ∷ r) ((eq_iff c b':').0 colon) e)
              name.avoids
        | inr other ↦ absurd (
            no_colon name.word (c ∷ r) e name.avoids stops (
              at_cons frame (cur + length name.word) (λ x. x == b':')
                (drop-eq_of_append frame cur name.word e)
              ∙ other))
      ]
