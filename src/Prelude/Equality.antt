-- ===== src/Prelude/Equality.antt =====
-- `operator==`: an interface, with its instances for numbers and texts.
use Prim.Native.Nat.{ℕ}
use mathlib.Core.Path.{◌≡◌, refl, ap}
use mathlib.Core.Logic.{◌↔◌}
use mathlib.Core.Bool.{Bool, true, false, ◌&&◌, ◌||◌}
use mathlib.Core.List.{List, [], ◌∷◌, ◌++◌}
use native.Mathlib.Omega.{arith}
use learncppthroughprojects.Prelude.Tests.{nat_beq, nat_beq_iff}
use learncppthroughprojects.Prelude.Lists.{Text}

-- A type with an equality test that decides its paths.
pub record Eq {ℓ} (K : Type ℓ) : Type ℓ where
  pub test : K → K → Bool
  pub decides : (x y : K) → (test x y ≡ true) ↔ (x ≡ y)

infix 50 ◌==◌
abbrev pub ◌==◌ {ℓ} : {K : Type ℓ} ⦃k : Eq K⦄ → K → K → Bool
◌==◌ ⦃k⦄ = k.test

module _ {ℓ} {K : Type ℓ} ⦃k : Eq K⦄ where
  pub eq_iff : (x y : K) → ((x == y) ≡ true) ↔ (x ≡ y)
  eq_iff x y = k.decides x y

  pub eq_refl : (x : K) → (x == x) ≡ true
  eq_refl x = (eq_iff x x).1 refl

instance abbrev pub nat_eq : Eq ℕ
nat_eq = record { test = nat_beq; decides = nat_beq_iff }

unfoldable pub text_beq : Text → Text → Bool
text_beq [] [] = true
text_beq (x ∷ xs) (y ∷ ys) = nat_beq x y && text_beq xs ys
text_beq _ _ = false

pub text_beq_iff : (a b : Text) → (text_beq a b ≡ true) ↔ (a ≡ b)
unfolding text_beq
text_beq_iff [] [] = ground arith
text_beq_iff (x ∷ xs) (y ∷ ys) = ground (arith, text_beq_iff xs ys)
text_beq_iff [] (y ∷ ys) = ground arith
text_beq_iff (x ∷ xs) [] = ground arith

instance abbrev pub text_eq : Eq Text
text_eq = record { test = text_beq; decides = text_beq_iff }

-- The equality of an enumeration, by its underlying values.
abbrev pub enum_eq {ℓ} : {A : Type ℓ} (code : A → ℕ) → ((a b : A) → code a ≡ code b → a ≡ b) → Eq A
enum_eq code inj = record {
  test = λ a b. nat_beq (code a) (code b);
  decides = λ a b. ((λ h. inj a b ((nat_beq_iff _ _).0 h)), (λ h. (nat_beq_iff _ _).1 (ap code h)));
}

-- `std::find(xs.begin(), xs.end(), a) != xs.end()`
unfoldable pub elem {ℓ} : {A : Type ℓ} ⦃e : Eq A⦄ → A → List A → Bool
elem a [] = false
elem a (first ∷ rest) = a == first || elem a rest

pub elem-append {ℓ} :
    {A : Type ℓ} ⦃e : Eq A⦄ (a : A) (xs ys : List A) → elem a (xs ++ ys) ≡ (elem a xs || elem a ys)
unfolding elem
elem-append a [] ys = refl
elem-append a (first ∷ rest) ys = ground (arith, elem-append a rest ys)
