-- ===== src/Stomp/Scan.antt =====
-- The index loops of src/stomp-frame.cpp in closed form.
use learncppthroughprojects.Prelude.{
  ℕ, zero, suc, ◌+◌, ◌<◌, ◌≤◌, Bool, true, false, inl, inr, [], ◌∷◌, ◌++◌, Text, ◌≡◌, ap, arith,
  Option-cases, Bool-cases, All, length, get_elem?, drop, drop-nil_of_le, drop-cons,
  le_of_get_elem?-none, lt_of_get_elem?, refl, u32_mod, u32-eq_of_lt, ◌∙◌,
}
use learncppthroughprojects.Stomp.Frame.{scan, index_of}

module _ (stop : ℕ → Bool) where
  -- A frame below 4 GiB: the loop ends by its test, at the first byte that stops it or at the end.
  pub scan_lem :
      (frame : Text) (fuel cur : ℕ)
      → length frame < u32_mod
      → length frame ≤ cur + fuel
      → scan stop frame fuel cur ≡ cur + index_of stop (drop cur frame)
  unfolding scan index_of
  scan_lem frame zero cur small enough = simp (drop-nil_of_le frame cur (omega arith)) (omega arith)
  scan_lem frame (suc fuel) cur small enough = elim (Option-cases (get_elem? frame cur)) [
    | inl e ↦ ground (arith, drop-nil_of_le frame cur (le_of_get_elem?-none frame cur e))
    | inr (c, e) ↦
        let inside = lt_of_get_elem? frame cur e in
        let next = u32-eq_of_lt (cur + 1) (omega arith) in
        let rest = scan_lem frame fuel (suc cur) small (omega arith) in
        ground (arith, drop-cons frame cur e, next, rest)
  ]

abbrev pub Avoids : (ℕ → Bool) → Text → Type 0
Avoids p w = All (λ c. p c ≡ false) w

-- Where the text ends, or `p` holds at its head.
abbrev pub Stops : (ℕ → Bool) → Text → Type 0
Stops p [] = Unit
Stops p (c ∷ r) = p c ≡ true

pub index_of-append :
    (p : ℕ → Bool) (w r : Text) → Avoids p w → Stops p r → index_of p (w ++ r) ≡ length w
unfolding index_of
index_of-append p [] [] a s = refl
index_of-append p [] (c ∷ r) a s = ground arith
index_of-append p (x ∷ w) r a s = ground (arith, index_of-append p w r)

-- A text, cut at the first byte where `p` holds.
pub record Cut (p : ℕ → Bool) (xs : Text) : Type 0 where
  pub word : Text
  pub rest : Text
  pub splits : xs ≡ word ++ rest
  pub avoids : Avoids p word
  pub stops : Stops p rest

pub cut : (p : ℕ → Bool) (xs : Text) → Cut p xs
cut p [] = record { word = []; rest = []; splits = refl; avoids = tt; stops = tt }
cut p (c ∷ xs) = elim (Bool-cases (p c)) [
  | inl e ↦ record { word = []; rest = c ∷ xs; splits = refl; avoids = tt; stops = e }
  | inr e ↦
      let k = cut p xs in
      record {
        word = c ∷ k.word;
        rest = k.rest;
        splits = ap (◌∷◌ c) k.splits;
        avoids = (e, k.avoids);
        stops = k.stops;
      }
]

-- The loop from a cursor: it steps over `word`.
pub scan-append :
    (p : ℕ → Bool) (frame : Text) (cur : ℕ) (w r : Text)
    → length frame < u32_mod
    → drop cur frame ≡ w ++ r
    → Avoids p w
    → Stops p r
    → scan p frame (length frame) cur ≡ cur + length w
scan-append p frame cur w r small e a s =
    scan_lem p frame (length frame) cur small (omega arith)
    ∙ simp e (simp (index_of-append p w r a s))
