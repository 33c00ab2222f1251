-- ===== src/Transport/TravelTime.antt =====
-- Travel times between neighbours: what `SetTravelTime` writes and `GetTravelTime` reads.
use learncppthroughprojects.Prelude.{
  ℕ, ◌<◌, Bool, false, ◌&&◌, ◌||◌, Option, none, some, inl, inr, Text, ◌≡◌, ◌≢◌, refl, sym, ap, ◌∙◌,
  arith, length, get_elem?, get_elem?-set_self, get_elem?-set_ne, if◌then◌else◌, ◌==◌, eq_iff,
  text_eq, nat_eq, Bool-cases, Option-cases,
}
use learncppthroughprojects.Transport.Types.{RouteEdge, TransportNetwork}
use learncppthroughprojects.Transport.Network.{
  put_edge, edge_pointer, set_travel_time_directional, set_travel_time, get_travel_time_directional,
  get_travel_time,
}
use learncppthroughprojects.Transport.Pointers.{edge_pointer-put_edge}
use learncppthroughprojects.Transport.WellFormed.{IsWellFormed}
use learncppthroughprojects.Transport.Reachable.{
  set_travel_time_directional-cases, set_travel_time_directional-IsWellFormed,
}

get_elem?-put_edge :
    (p q : ℕ) (e : RouteEdge) (n : TransportNetwork)
    → p < length n.edges
    → get_elem? (put_edge p e n).edges q ≡ (if p == q then some e else get_elem? n.edges q)
unfolding put_edge
get_elem?-put_edge p q e n h = elim (Bool-cases (p == q)) [
  | inl same ↦ ground (arith, eq_iff p q, get_elem?-set_self n.edges p e h)
  | inr other ↦
      ground (
        arith,
        eq_iff p q,
        get_elem?-set_ne n.edges p q e (λ s. absurd (ground (arith, eq_iff p q))),
      )
]

-- The travel time behind a pointer.
time_at : Option ℕ → TransportNetwork → ℕ
time_at none n = 0
time_at (some p) n = elim (get_elem? n.edges p) [ none ↦ 0 | some e ↦ e.travel_time ]

get_travel_time_directional-eq :
    (c d : Text) (n : TransportNetwork)
    → c ≢ d
    → get_travel_time_directional c d n ≡ time_at (edge_pointer c d n) n
unfolding get_travel_time_directional time_at
get_travel_time_directional-eq c d n ne = elim (Option-cases (edge_pointer c d n)) [
  | inl e ↦ ground (arith, eq_iff c d)
  | inr (p, e) ↦ ground (arith, eq_iff c d)
]

time_at-put_edge :
    (p q : ℕ) (e : RouteEdge) (n : TransportNetwork)
    → p < length n.edges
    → time_at (some q) (put_edge p e n) ≡ (if p == q then e.travel_time else time_at (some q) n)
unfolding time_at
time_at-put_edge p q e n h = ground (arith, get_elem?-put_edge p q e n h)

module _ (a b : Text) (time : ℕ) (n : TransportNetwork) (w : IsWellFormed n) where
  module _ (p : ℕ) (e : RouteEdge) (found : edge_pointer a b n ≡ some p)
      (at : get_elem? n.edges p ≡ some e) where
    abbrev put_time : TransportNetwork
    put_time = put_edge p (record e { travel_time = time }) n

    time_at-put_time :
        (c d : Text)
        → time_at (edge_pointer c d n) put_time
          ≡ (if a == c && b == d then time else time_at (edge_pointer c d n) n)
    time_at-put_time c d = elim (Option-cases (edge_pointer c d n)) [
      | inl missing ↦ unfold time_at in ground (arith, eq_iff a c, eq_iff b d)
      | inr (q, there) ↦ ground (
        arith,
        eq_iff a c,
        eq_iff b d,
        eq_iff p q,
        w.distinct a b c d p found,
        time_at-put_edge p q (record e { travel_time = time }) n (w.bounded a b p found),
      )
    ]

  abbrev written : Bool × TransportNetwork
  written = set_travel_time_directional a b time n

  edge_pointer-written : (c d : Text) → edge_pointer c d written.1 ≡ edge_pointer c d n
  edge_pointer-written c d = elim (set_travel_time_directional-cases a b time n w) [
    | inl (missing, same) ↦ ap (λ r. edge_pointer c d r.1) same
    | inr (p, e, found, at, same) ↦
        ap (λ r. edge_pointer c d r.1) same
        ∙ edge_pointer-put_edge p (record e { travel_time = time }) n c d
  ]

  -- Whether the direction has an edge is what `SetTravelTimeDirectional` returns.
  missing-written :
      (written.0 ≡ false → edge_pointer a b n ≡ none)
      × (edge_pointer a b n ≡ none → written.0 ≡ false)
  missing-written = elim (set_travel_time_directional-cases a b time n w) [
    | inl (missing, same) ↦ ((λ h. missing), (λ h. ap (λ r. r.0) same))
    | inr (p, e, found, at, same) ↦ ((λ h. cc), (λ h. cc))
  ]

  -- The direction that is written, if its edge is there, and every other direction.
  directional_lem :
      (c d : Text)
      → c ≢ d
      → get_travel_time_directional c d written.1
        ≡ (if written.0 && a == c && b == d then time else get_travel_time_directional c d n)
  directional_lem c d ne = elim (set_travel_time_directional-cases a b time n w) [
    | inl (missing, same) ↦ rw same refl
    | inr (p, e, found, at, same) ↦
        rw (same, get_travel_time_directional-eq c d n ne)
          (get_travel_time_directional-eq c d (put_time p e found at) ne
            ∙ ap (λ o. time_at o (put_time p e found at))
                (edge_pointer-put_edge p (record e { travel_time = time }) n c d)
            ∙ time_at-put_time p e found at c d)
  ]

  -- A direction that is not written keeps its time; one without an edge has none.
  directional_missing : written.0 ≡ false → a ≢ b → get_travel_time_directional a b n ≡ 0
  unfolding time_at
  directional_missing h ne =
      get_travel_time_directional-eq a b n ne ∙ ap (λ o. time_at o n) (missing-written.0 h)

-- On a well-formed network, SetTravelTime(a, b, time) followed by GetTravelTime(c, d), for
-- different stations c and d: the result is `time` if SetTravelTime returned true and the pair is
-- {a, b}, in either order, even where only one direction has an edge; in all other cases it is what
-- GetTravelTime gave before.
pub get_travel_time-set_travel_time :
    (a b c d : Text) (time : ℕ) (n : TransportNetwork)
    → IsWellFormed n
    → c ≢ d
    → get_travel_time c d (set_travel_time a b time n).1 ≡ (
        if (set_travel_time a b time n).0 && (a == c && b == d || a == d && b == c)
        then time
        else get_travel_time c d n)
unfolding set_travel_time get_travel_time
get_travel_time-set_travel_time a b c d time n w ne =
    let there = set_travel_time_directional a b time n in
    let w1 = set_travel_time_directional-IsWellFormed a b time n w in
    let ne' : d ≢ c = λ e. ne (sym e) in
    ground (
      arith,
      directional_lem a b time n w c d ne,
      directional_lem a b time n w d c ne',
      directional_lem b a time there.1 w1 c d ne,
      directional_lem b a time there.1 w1 d c ne',
      directional_missing a b time n w,
      directional_missing b a time there.1 w1,
      eq_iff a c,
      eq_iff b d,
      eq_iff a d,
      eq_iff b c,
    )
