-- ===== src/Stomp/Validate/Correct.antt =====
-- What `Validate` accepts, stated apart from its loops.
use learncppthroughprojects.Prelude.{
  elem, Bool, true, false, not, ◌&&◌, ◌||◌, Option, none, some, List, Text, ◌≡◌, ◌↔◌, ◌⊎◌, inl, inr,
  refl, sym, ◌∙◌, subst, Outcome, undefined_behaviour, arith, all, length, codes, Exception,
  returns, throws, Option-cases, Bool-cases, if◌then◌else◌, ◌==◌, eq_iff, nat_eq, text_eq, ◌>>=◌,
}
use learncppthroughprojects.Prelude.Int.{ℤ}
use learncppthroughprojects.Map.{Map, lookup, lookup-all}
use learncppthroughprojects.Stomp.Types.{
  StompCommand, StompHeader, StompError, StompFrame, command_eq, header_eq,
}
use learncppthroughprojects.Stomp.Tables.{required_headers}
use learncppthroughprojects.Stomp.Stoi.{stoi, to_size_t}
use learncppthroughprojects.Stomp.Validate.{
  required_of, optional_of, listed, refuse, all_found, ack_is_valid, valid_states, validate_length,
  validate,
}
use learncppthroughprojects.Stomp.Validate.Counting.{
  IsDistinct, distinct, count_if, Present, count_in-le-length, classified, classify_lem,
}

-- The three acknowledgement modes.
abbrev pub IsAckMode : Text → Type 0
IsAckMode v = (v ≡ codes "auto") ⊎ (v ≡ codes "client") ⊎ (v ≡ codes "client-individual")

-- What `Validate` asks of the headers, apart from the length of the body.
pub record HasHeaders (f : StompFrame) : Type 0 where
  pub known :
      all (λ e. classified (required_of f.command) (optional_of f.command) e.0) f.headers ≡ true
  pub present : (rs : List StompHeader) → required_of f.command ≡ some rs → Present rs f.headers
  pub acked :
      f.command ≡ StompCommand.subscribe
      → (v : Text) × (lookup StompHeader.ack f.headers ≡ some v) × IsAckMode v

-- A content-length header, if there is one, is a number, and that of the body's bytes.
abbrev pub IsSized : StompFrame → Type 0
IsSized f =
    (v : Text)
    → lookup StompHeader.content_length f.headers ≡ some v
    → (n : ℤ) × (stoi v ≡ returns n) × (to_size_t n ≡ f.body.size)

required_tables :
    (c : StompCommand) (rs : List StompHeader)
    → required_of c ≡ some rs
    → (distinct rs && not (elem StompHeader.content_length rs)) ≡ true
unfolding distinct elem required_of
required_tables c rs h =
    lookup-all (λ _ rs'. distinct rs' && not (elem StompHeader.content_length rs')) required_headers
      refl c h

listed-false :
    (h : StompHeader) (required : Option (List StompHeader))
    → ((rs : List StompHeader) → required ≡ some rs → elem h rs ≡ false)
    → listed h required ≡ false
unfolding listed
listed-false h none absent = refl
listed-false h (some rs) absent = absent rs refl

-- The count is full exactly if every required header is there.
all_found_iff :
    (required : Option (List StompHeader)) (m : Map StompHeader Text)
    → IsDistinct m
    → ((rs : List StompHeader) → required ≡ some rs → distinct rs ≡ true)
    → (all_found required (count_if (λ h. listed h required) m) ≡ true)
      ↔ ((rs : List StompHeader) → required ≡ some rs → Present rs m)
unfolding all_found listed
all_found_iff none m d nd = ((λ _ rs e. cc), (λ _. refl))
all_found_iff (some rs) m d nd =
    let (full, present) = (count_in-le-length rs m d (nd rs refl)).1 in
    let count = count_if (λ h. elem h rs) m in
    (
      (λ h rs' e.
          let same : rs ≡ rs' = cc in
          subst (λ x. Present x m) same (full ((eq_iff count (length rs)).0 h))),
      (λ p. (eq_iff count (length rs)).1 (present (p rs refl))),
    )

elem-IsAckMode : (v : Text) → (elem v valid_states ≡ true) ↔ IsAckMode v
unfolding elem
elem-IsAckMode v = ground (
  arith,
  eq_iff v (codes "auto"),
  eq_iff v (codes "client"),
  eq_iff v (codes "client-individual"),
)

module _ (f : StompFrame) where
  ack_iff :
      (ack_is_valid f ≡ true)
      ↔ ((v : Text) × (lookup StompHeader.ack f.headers ≡ some v) × IsAckMode v)
  unfolding ack_is_valid
  ack_iff = elim (Option-cases (lookup StompHeader.ack f.headers)) [
    | inl missing ↦ ((λ h. absurd (ground arith)), (λ h. absurd (ground (arith, h.1))))
    | inr (v, found) ↦ (
      (λ h. (v, found, (elem-IsAckMode v).0 (ground arith))),
      (λ h. ground (arith, h.1, (elem-IsAckMode h.0).1 h.2)),
    )
  ]

  -- `Validate` as one chain of tests.
  abbrev pub known_headers : Bool
  known_headers =
      all (λ e. classified (required_of f.command) (optional_of f.command) e.0) f.headers

  abbrev pub all_present : Bool
  all_present =
      all_found (required_of f.command) (count_if (λ h. listed h (required_of f.command)) f.headers)

  abbrev pub ack_passes : Bool
  ack_passes = not (f.command == StompCommand.subscribe) || ack_is_valid f

  pub validate_lem : validate f ≡ (
      if known_headers && all_present && ack_passes then validate_length f else returns (refuse f))
  unfolding validate
  validate_lem = ground (
    arith,
    classify_lem (required_of f.command) (optional_of f.command) f.headers 0 (
        listed-false StompHeader.content_length (required_of f.command)
          (λ rs e. ground (arith, required_tables f.command rs e))),
  )

  -- The comparison of the number with the size of the body.
  abbrev compare_size : ℤ → Outcome StompFrame
  compare_size n = if to_size_t n == f.body.size then returns f else returns (refuse f)

  abbrev Numbered : Outcome ℤ → Type 0
  Numbered r = (n : ℤ) × (r ≡ returns n) × (to_size_t n ≡ f.body.size)

  compare_length :
      f.state ≡ StompError.ok → (r : Outcome ℤ) → ((r >>= compare_size) ≡ returns f) ↔ Numbered r
  compare_length ok (returns n) = ((λ h. (n, refl, ground arith)), (λ h. ground (arith, h.1, h.2)))
  compare_length ok (throws e) = ((λ h. cc), (λ h. absurd (ground (arith, h.1))))
  compare_length ok undefined_behaviour = ((λ h. cc), (λ h. absurd (ground (arith, h.1))))

  at_value :
      (v : Text)
      → lookup StompHeader.content_length f.headers ≡ some v
      → validate_length f ≡ (stoi v >>= compare_size)
  unfolding validate_length
  at_value v found = rw (found, validate_length)

  validate_length_iff : f.state ≡ StompError.ok → (validate_length f ≡ returns f) ↔ IsSized f
  unfolding validate_length
  validate_length_iff ok = elim (Option-cases (lookup StompHeader.content_length f.headers)) [
    | inl missing ↦ ((λ _ v e. cc), (λ _. ground arith))
    | inr (v, found) ↦ (
      (λ h v' e.
          let same : v ≡ v' = cc in
          subst (λ x. Numbered (stoi x)) same
            ((compare_length ok (stoi v)).0 (sym (at_value v found) ∙ h))),
      (λ h. at_value v found ∙ (compare_length ok (stoi v)).1 (h v found)),
    )
  ]

  compare-throws :
      (x : Exception) (r : Outcome ℤ) → ((r >>= compare_size) ≡ throws x) ↔ (r ≡ throws x)
  compare-throws x (returns n) = (λ h. absurd (ground arith), λ h. cc)
  compare-throws x (throws e) = (λ h. cc, λ h. cc)
  compare-throws x undefined_behaviour = (λ h. cc, λ h. cc)

  validate_length-throws :
      (x : Exception)
      → (validate_length f ≡ throws x) ↔ (
          (v : Text) × (lookup StompHeader.content_length f.headers ≡ some v) × (stoi v ≡ throws x))
  unfolding validate_length
  validate_length-throws x = elim (Option-cases (lookup StompHeader.content_length f.headers)) [
    | inl missing ↦ ((λ h. absurd (ground arith)), (λ h. absurd (ground (arith, h.1))))
    | inr (v, found) ↦ (
      (λ h. (v, found, (compare-throws x (stoi v)).0 (sym (at_value v found) ∙ h))),
      (λ (v', e, t). at_value v' e ∙ (compare-throws x (stoi v')).1 t),
    )
  ]

  ack_passes_of :
      (f.command ≡ StompCommand.subscribe
        → (v : Text) × (lookup StompHeader.ack f.headers ≡ some v) × IsAckMode v)
      → ack_passes ≡ true
  ack_passes_of h = elim (Bool-cases (f.command == StompCommand.subscribe)) [
    | inl e ↦ ground (arith, ack_iff.1 (h ((eq_iff f.command StompCommand.subscribe).0 e)))
    | inr e ↦ ground arith
  ]

  -- A frame that comes out of `Validate` with `kOk` is the one that went in.
  pub validate_ok : (g : StompFrame) → validate f ≡ returns g → g.state ≡ StompError.ok → g ≡ f
  unfolding validate_length
  validate_ok g h ok = ground (arith, validate_lem)

  module _ (d : IsDistinct f.headers) where
    tests_iff : ((known_headers && all_present && ack_passes) ≡ true) ↔ HasHeaders f
    tests_iff =
        let present =
          all_found_iff (required_of f.command) f.headers d
            (λ rs e. ground (arith, required_tables f.command rs e)) in
        (
          (λ h. record {
            known = ground arith;
            present = present.0 (ground arith);
            acked = λ e. ack_iff.0 (ground (arith, eq_iff f.command StompCommand.subscribe));
          }),
          (λ h. ground (arith, h.known, present.1 h.present, ack_passes_of h.acked)),
        )

    -- `Validate` keeps the state `kOk` exactly if every header is one of the command's, or
    -- content-length, no required header is missing, a SUBSCRIBE frame has one of the three
    -- acknowledgement modes, and a content-length header is the number of bytes of the body.
    pub validate_iff :
        f.state ≡ StompError.ok → (validate f ≡ returns f) ↔ (HasHeaders f × IsSized f)
    validate_iff ok =
        let (sized, is_sized) = validate_length_iff ok in
        (
          (λ h.
              let passes : (known_headers && all_present && ack_passes) ≡ true =
                ground (arith, validate_lem) in
              (tests_iff.0 passes, sized (ground (arith, validate_lem)))),
          (λ h. ground (arith, validate_lem, tests_iff.1 h.0, is_sized h.1)),
        )

    -- `Validate` throws exactly if the other tests pass and `std::stoi` throws on the value of the
    -- content-length header.
    pub validate-throws :
        (x : Exception)
        → (validate f ≡ throws x) ↔ (
            HasHeaders f
            × ((v : Text) × (lookup StompHeader.content_length f.headers ≡ some v)
                × (stoi v ≡ throws x)))
    validate-throws x =
        let (thrown, throw) = validate_length-throws x in
        (
          (λ h.
              let passes : (known_headers && all_present && ack_passes) ≡ true =
                ground (arith, validate_lem) in
              (tests_iff.0 passes, thrown (ground (arith, validate_lem)))),
          (λ h. ground (arith, validate_lem, tests_iff.1 h.0, throw h.1)),
        )
