-- ===== src/Stomp/Cursor.antt =====
-- The parser at a cursor: what the rest of the frame, `drop cur frame`, says of the next step.
use learncppthroughprojects.Prelude.{
  ℕ, ◌+◌, ◌<◌, Bool, false, [], ◌∷◌, ◌++◌, Text, ◌≡◌, arith, length, get_elem?-none, le_of_drop-nil,
  drop, take-append, drop-eq_of_append, get_elem?-eq_of_drop, lt_of_drop-cons, u32, u32_mod,
  u32-eq_of_lt,
}
use learncppthroughprojects.Stomp.Frame.{u32_sub, substr, at}

pub u32_sub-add : (cur n : ℕ) → cur + n < u32_mod → u32_sub (cur + n) cur ≡ n
unfolding u32_sub u32
u32_sub-add cur n h = omega arith

module _ (frame : Text) (cur : ℕ) where
  pub substr-append : (w r : Text) → drop cur frame ≡ w ++ r → substr frame cur (length w) ≡ w
  unfolding substr
  substr-append w r e = simp e (take-append w r)

  -- A cursor at a byte has room behind it.
  pub u32-next :
      {c : ℕ} {r : Text} → length frame < u32_mod → drop cur frame ≡ c ∷ r → u32 (cur + 1) ≡ cur + 1
  u32-next small e = u32-eq_of_lt (cur + 1) (omega (arith, lt_of_drop-cons frame cur e))

  pub drop-next : {c : ℕ} {r : Text} → drop cur frame ≡ c ∷ r → drop (cur + 1) frame ≡ r
  drop-next {c} e = drop-eq_of_append frame cur (c ∷ []) e

  pub at_cons : (p : ℕ → Bool) {c : ℕ} {r : Text} → drop cur frame ≡ c ∷ r → at p frame cur ≡ p c
  unfolding at
  at_cons p e = rw (get_elem?-eq_of_drop frame cur e, at)

  pub at_end : (p : ℕ → Bool) → drop cur frame ≡ [] → at p frame cur ≡ false
  unfolding at
  at_end p e = rw (get_elem?-none frame cur (le_of_drop-nil frame cur e), at)
