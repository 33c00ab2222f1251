-- ===== src/Stomp/BlockSound.antt =====
-- A header block that `ParseHeaders` accepts is one of the wire format.
use learncppthroughprojects.Prelude.{
  ℕ, zero, suc, ◌<◌, Bool, true, false, not, [], ◌∷◌, ◌++◌, Text, ◌≡◌, refl, arith, length, drop,
  u32_mod, ◌==◌, ◌∙◌, ap, inl, inr, Bool-cases, eq_iff, nat_eq, subst, sym,
}
use learncppthroughprojects.Map.{Map, insert-new}
use learncppthroughprojects.Stomp.Types.{StompHeader, StompError, StompFrame, error_eq, header_eq}
use learncppthroughprojects.Stomp.Frame.{
  at, is_newline, parse_header, parse_headers_loop, end_headers, store_header,
}
use learncppthroughprojects.Stomp.Cursor.{at_end, at_cons}
use learncppthroughprojects.Stomp.Wire.{header_line, header_lines, IsWritable}
use learncppthroughprojects.Stomp.HeaderLine.{parse_header_lem, line_end, drop-line_end}
use learncppthroughprojects.Stomp.HeaderSound.{LineRead, parse_header-LineRead}

parse_header-state :
    (f : StompFrame) (frame : Text) (cur : ℕ)
    → f.state ≡ StompError.ok
    → ((parse_header f frame cur).0.state == StompError.parsing) ≡ false
    → (parse_header f frame cur).0.state ≡ StompError.ok
unfolding parse_header store_header
parse_header-state f frame cur ok h = ground arith

-- A byte for which the test holds stands at the cursor.
at_inverse :
    (p : ℕ → Bool) (frame : Text) (cur : ℕ)
    → at p frame cur ≡ true
    → (c : ℕ) × (r : Text) × (drop cur frame ≡ c ∷ r) × (p c ≡ true)
at_inverse p frame cur h = go (drop cur frame) refl
  where
    go :
        (rest : Text)
        → drop cur frame ≡ rest
        → (c : ℕ) × (r : Text) × (drop cur frame ≡ c ∷ r) × (p c ≡ true)
    go [] e = absurd (ground (arith, at_end frame cur p e))
    go (c ∷ r) e = (c, r, e, sym (at_cons frame cur p e) ∙ h)

pub at_newline :
    (frame : Text) (cur : ℕ)
    → at is_newline frame cur ≡ true
    → (r : Text) × (drop cur frame ≡ b'\n' ∷ r)
at_newline frame cur h =
    let (c, r, e, same) = at_inverse is_newline frame cur h in
    (r, subst (λ x. drop cur frame ≡ x ∷ r) ((eq_iff c b'\n').0 same) e)

-- The lines between a cursor and the empty line.
pub record BlockRead (f : StompFrame) (frame : Text) (cur : ℕ) : Type 0 where
  pub headers : Map StompHeader Text
  pub rest : Text
  pub reads : drop cur frame ≡ header_lines headers (b'\n' ∷ rest)
  pub writable : IsWritable f.headers headers

module _ (frame : Text) (small : length frame < u32_mod) where
  end_headers-BlockRead :
      (f : StompFrame) (cur : ℕ)
      → (end_headers f frame cur).0.state ≡ StompError.ok
      → BlockRead f frame cur
  unfolding end_headers header_lines
  end_headers-BlockRead f cur ok =
      let (r, e) = at_newline frame cur (ground arith) in
      record { headers = []; rest = r; reads = e; writable = tt }

  BlockRead-cons :
      (f : StompFrame) (cur : ℕ) (l : LineRead f frame cur)
      → BlockRead
          (record f { headers = f.headers ++ (l.header, l.value) ∷ [] })
          frame
          (line_end cur l.header l.value)
      → BlockRead f frame cur
  unfolding header_lines
  BlockRead-cons f cur l b = record {
    headers = (l.header, l.value) ∷ b.headers;
    rest = b.rest;
    reads =
        l.reads
        ∙ ap (header_line l.header l.value)
            (sym (drop-line_end f frame small l.header l.value l.rest cur l.reads) ∙ b.reads);
    writable = (l.defined, l.value_avoids, l.value_ne, l.new, b.writable);
  }

  -- The loop ends with no error only behind such a block.
  pub parse_headers_loop-BlockRead :
      (fuel : ℕ) (f : StompFrame) (cur : ℕ)
      → f.frame ≡ frame
      → f.state ≡ StompError.ok
      → (parse_headers_loop fuel f frame cur).0.state ≡ StompError.ok
      → BlockRead f frame cur
  unfolding parse_headers_loop
  parse_headers_loop-BlockRead zero f cur copy fine ok = end_headers-BlockRead f cur ok
  parse_headers_loop-BlockRead (suc fuel) f cur copy fine ok =
      elim (Bool-cases (at (λ c. not (is_newline c)) frame cur)) [
        | inr last ↦ end_headers-BlockRead f cur (ground arith)
        | inl line ↦
            let l =
              parse_header-LineRead f frame small copy cur
                (parse_header-state f frame cur fine (ground arith)) in
            let read =
              parse_header_lem f frame small l.header l.value l.rest cur copy l.reads l.defined
                l.value_avoids l.value_ne l.new in
            let f1 = record f { headers = f.headers ++ (l.header, l.value) ∷ [] } in
            BlockRead-cons f cur l (
              parse_headers_loop-BlockRead fuel f1 (line_end cur l.header l.value) copy fine
                (ground (arith, read, insert-new l.header l.value f.headers l.new)))
      ]
