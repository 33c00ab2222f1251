-- ===== src/Stomp/Validate/Counting.antt =====
-- Counting required headers: with no header twice, the count reaches the length of the list
-- exactly if every one of the list is there.
use learncppthroughprojects.Prelude.{
  elem, ℕ, ◌+◌, ◌≤◌, Bool, true, false, not, ◌&&◌, ◌||◌, Option, none, some, List, [], ◌∷◌, ◌++◌,
  Text, ◌≡◌, ◌↔◌, refl, arith, All, all, length, if◌then◌else◌, ◌==◌, eq_iff,
}
use learncppthroughprojects.Map.{Map, contains, lookup, contains-cons, contains-concat}
use learncppthroughprojects.Stomp.Types.{StompHeader, header_eq}
use learncppthroughprojects.Stomp.Validate.{listed, classify}

-- No key twice.
abbrev pub IsDistinct : Map StompHeader Text → Type 0
IsDistinct [] = Unit
IsDistinct ((h, _) ∷ m) = (contains h m ≡ false) × IsDistinct m

-- No element twice, as a test.
unfoldable pub distinct : List StompHeader → Bool
distinct [] = true
distinct (h ∷ hs) = not (elem h hs) && distinct hs

-- The entries whose header passes the test.
pub count_if : (StompHeader → Bool) → Map StompHeader Text → ℕ
count_if p [] = 0
count_if p ((h, _) ∷ m) = (if p h then 1 else 0) + count_if p m

abbrev count_in : List StompHeader → Map StompHeader Text → ℕ
count_in rs m = count_if (λ h. elem h rs) m

count_in-nil : (m : Map StompHeader Text) → count_in [] m ≡ 0
unfolding count_if elem
count_in-nil [] = refl
count_in-nil ((h, v) ∷ m) = ground (arith, count_in-nil m)

-- One more name in the list counts its entry, if there is one.
count_in-cons :
    (r : StompHeader) (rs : List StompHeader) (m : Map StompHeader Text)
    → IsDistinct m
    → elem r rs ≡ false
    → count_in (r ∷ rs) m ≡ (if contains r m then 1 else 0) + count_in rs m
unfolding count_if elem contains lookup
count_in-cons r rs [] d new = refl
count_in-cons r rs ((h, v) ∷ m) d new = ground (arith, eq_iff h r, count_in-cons r rs m)

abbrev pub Present : List StompHeader → Map StompHeader Text → Type 0
Present rs m = All (λ r. contains r m ≡ true) rs

pub count_in-le-length :
    (rs : List StompHeader) (m : Map StompHeader Text)
    → IsDistinct m
    → distinct rs ≡ true
    → (count_in rs m ≤ length rs) × ((count_in rs m ≡ length rs) ↔ Present rs m)
unfolding distinct
count_in-le-length [] m d nd =
    (omega (arith, count_in-nil m), ((λ _. tt), (λ _. omega (arith, count_in-nil m))))
count_in-le-length (r ∷ rs) m d nd =
    let (le, iff) = count_in-le-length rs m d (ground arith) in
    let step = count_in-cons r rs m d (ground arith) in
    (
      ground (arith, step),
      (
        (λ h. (ground (arith, step), iff.0 (ground (arith, step)))),
        (λ h. ground (arith, step, h.0, iff.1 h.1)),
      ),
    )

count_step :
    (skipped required optional fine : Bool) (found n : ℕ)
    → (skipped ≡ true → required ≡ false)
    → (if skipped
        then (if fine then some (found + n) else none)
        else if required || optional
        then (if fine then some ((if required then found + 1 else found) + n) else none)
        else none)
      ≡ (if (skipped || required || optional) && fine
          then some (found + ((if required then 1 else 0) + n))
          else none)
count_step true true optional fine found n h = cc (h refl)
count_step true false optional fine found n h = ground arith
count_step false true optional fine found n h = ground arith
count_step false false optional fine found n h = ground arith

module _ (required optional : Option (List StompHeader)) where
  -- Content-length, or in one of the two lists.
  abbrev pub classified : StompHeader → Bool
  classified h = h == StompHeader.content_length || listed h required || listed h optional

  -- The loop returns early exactly if some header is in neither list; else it counts.
  pub classify_lem :
      (m : Map StompHeader Text) (found : ℕ)
      → listed StompHeader.content_length required ≡ false
      → classify required optional m found ≡ (
          if all (λ e. classified e.0) m
          then some (found + count_if (λ h. listed h required) m)
          else none)
  unfolding classify count_if
  classify_lem [] found skip = ground arith
  classify_lem ((h, v) ∷ m) found skip =
      let rest = λ (n : ℕ). classify_lem m n skip in
      simp rest (
        count_step (h == StompHeader.content_length) (listed h required) (listed h optional)
          (all (λ e. classified e.0) m) found (count_if (λ x. listed x required) m)
          (λ same. ground (arith, eq_iff h StompHeader.content_length)))

-- A new header keeps the headers distinct.
pub IsDistinct-concat :
    (h : StompHeader) (v : Text) (m : Map StompHeader Text)
    → IsDistinct m
    → contains h m ≡ false
    → IsDistinct (m ++ (h, v) ∷ [])
IsDistinct-concat h v [] d new = (unfold contains lookup in refl, tt)
IsDistinct-concat h v ((k, w) ∷ m) d new = (
  ground (arith, contains-concat k h v m, contains-cons h k w m, eq_iff h k, eq_iff k h),
  IsDistinct-concat h v m d.1 (ground (arith, contains-cons h k w m)),
)
