-- ===== src/Prelude/Results.antt =====
-- What a C++ call can do: return, throw, or have undefined behaviour.
use mathlib.Core.Path.{◌≡◌, refl, subst}
use mathlib.Core.Bool.{Bool, true, false}
use mathlib.Core.List.{List, [], ◌∷◌}
use native.Mathlib.Omega.{arith}
use learncppthroughprojects.Prelude.Tests.{if◌then◌else◌}

pub data Exception : Type 0 where
  invalid_argument out_of_range runtime_error bad_function_call bad_optional_access : Exception

pub data Outcome {ℓ} (A : Type ℓ) : Type ℓ where
  returns : A → Outcome A
  throws : Exception → Outcome A
  undefined_behaviour : Outcome A

infixl 5 ◌>>=◌
abbrev pub ◌>>=◌ {ℓ κ} : {A : Type ℓ} {B : Type κ} → Outcome A → (A → Outcome B) → Outcome B
returns a >>= f = f a
throws e >>= f = throws e
undefined_behaviour >>= f = undefined_behaviour

-- Inversion of a bind that returns.
pub >>=-eq-returns {ℓ κ} :
    {A : Type ℓ} {B : Type κ} (m : Outcome A) (f : A → Outcome B) {b : B}
    → (m >>= f) ≡ returns b
    → (a : A) × (m ≡ returns a) × (f a ≡ returns b)
>>=-eq-returns (returns a) f h = (a, refl, h)
>>=-eq-returns (throws e) f h = cc
>>=-eq-returns undefined_behaviour f h = cc

-- A range-based `for` over the elements of a list.
abbrev pub for_each {ℓ κ} : {A : Type ℓ} {S : Type κ} → (A → S → Outcome S) → List A → S → Outcome S
for_each body [] s = returns s
for_each body (x ∷ xs) s = body x s >>= for_each body xs

-- What holds of a call, if it returns.
pub data Ensures {ℓ κ} {A : Type ℓ} (P : A → Type κ) : Outcome A → Type (ℓ ⊔ κ) where
  ret : {a : A} → P a → Ensures P (returns a)
  raised : {e : Exception} → Ensures P (throws e)
  lost : Ensures P undefined_behaviour

module _ {ℓ κ} {A : Type ℓ} {P : A → Type κ} where
  pub Ensures-returns : {r : Outcome A} {a : A} → Ensures P r → r ≡ returns a → P a
  Ensures-returns {a} (ret {a = b} p) h = let same : b ≡ a = ground arith in subst P same p
  Ensures-returns raised h = cc
  Ensures-returns lost h = cc

  -- A test chooses between two calls.
  pub Ensures-if :
      (b : Bool) (r s : Outcome A) → Ensures P r → Ensures P s → Ensures P (if b then r else s)
  Ensures-if true r s x y = x
  Ensures-if false r s x y = y

pub Ensures-bind {ℓ κ η} :
    {A : Type ℓ} {B : Type κ} {P : B → Type η} (r : Outcome A) (f : A → Outcome B)
    → ((a : A) → Ensures P (f a))
    → Ensures P (r >>= f)
Ensures-bind (returns a) f h = h a
Ensures-bind (throws e) f h = raised
Ensures-bind undefined_behaviour f h = lost

-- What follows a call that ensures `P`.
pub Ensures-then {ℓ κ η θ} :
    {A : Type ℓ} {B : Type κ} {P : A → Type η} {Q : B → Type θ} {r : Outcome A} (f : A → Outcome B)
    → Ensures P r
    → ((a : A) → P a → Ensures Q (f a))
    → Ensures Q (r >>= f)
Ensures-then f (ret {a} p) h = h a p
Ensures-then f raised h = raised
Ensures-then f lost h = lost
