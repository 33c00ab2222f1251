-- ===== src/Prelude/Loops.antt =====
-- Loops over a list: `for_each` keeps an invariant, and does to each element what its body does.
use mathlib.Core.List.{Memᴰ}
use mathlib.Core.List.Memᴰ
use mathlib.Core.Path.{◌≡◌, refl, sym, subst}
use mathlib.Core.List.{List, [], ◌∷◌}
use mathlib.Core.Logic.{inl, inr}
use native.Mathlib.Omega.{arith}
use learncppthroughprojects.Prelude.Results.{
  Outcome, returns, throws, undefined_behaviour, ◌>>=◌, >>=-eq-returns, for_each,
}

-- A state that a call returns, with the invariant, not before `s` in an order, and with what the
-- call is for.
pub record Yields {ℓ κ η} {S : Type ℓ} (Inv : S → Type κ) (Before : S → S → Type κ)
    (Done : S → Type η) (s : S) (r : Outcome S) : Type (ℓ ⊔ κ ⊔ η) where
  pub state : S
  pub is_result : r ≡ returns state
  pub invariant : Inv state
  pub is_after : Before s state
  pub is_done : Done state

module _ {ℓ κ η θ} {A : Type ℓ} {S : Type κ} (body : A → S → Outcome S) (Inv : S → Type η)
    (Before : S → S → Type η) (Done : A → S → Type θ) (stays : (s : S) → Before s s)
    (follows : (r s t : S) → Before r s → Before s t → Before r t)
    (persists : (x : A) (s t : S) → Before s t → Done x s → Done x t) where
  pub for_each-Yields :
      (xs : List A) (s : S)
      → ((x : A) (t : S) → Memᴰ x xs → Inv t → Yields Inv Before (Done x) t (body x t))
      → Inv s
      → Yields Inv Before (λ t. (x : A) → Memᴰ x xs → Done x t) s (for_each body xs s)
  for_each-Yields [] s step inv = record {
    state = s;
    is_result = refl;
    invariant = inv;
    is_after = stays s;
    is_done = λ x h. absurd (Memᴰ.not-nil h);
  }
  for_each-Yields (x ∷ xs) s step inv =
      let y = step x s (Memᴰ.head refl) inv in
      let z = for_each-Yields xs y.state (λ u t h. step u t (Memᴰ.tail h)) y.invariant in
      record {
        state = z.state;
        is_result = rw y.is_result z.is_result;
        invariant = z.invariant;
        is_after = follows s y.state z.state y.is_after z.is_after;
        is_done = λ u h. elim (Memᴰ.cases_cons h) [
          | inl e ↦
              subst (λ v. Done v z.state) (sym e) (persists x y.state z.state z.is_after y.is_done)
          | inr later ↦ z.is_done u later
        ];
      }

pub >>=-cong {ℓ κ} :
    {A : Type ℓ} {B : Type κ} (m : Outcome A) {f g : A → Outcome B}
    → ((a : A) → f a ≡ g a)
    → (m >>= f) ≡ (m >>= g)
>>=-cong (returns a) h = h a
>>=-cong (throws e) h = refl
>>=-cong undefined_behaviour h = refl

pub >>=-assoc {ℓ κ η} :
    {A : Type ℓ} {B : Type κ} {C : Type η} (m : Outcome A) (f : A → Outcome B) (g : B → Outcome C)
    → ((m >>= f) >>= g) ≡ (m >>= λ a. f a >>= g)
>>=-assoc (returns a) f g = refl
>>=-assoc (throws e) f g = refl
>>=-assoc undefined_behaviour f g = refl

-- A loop that only reads.
abbrev pub read_each {ℓ κ} : {A : Type ℓ} {B : Type κ} → (A → Outcome B) → List A → Outcome (List B)
read_each read [] = returns []
read_each read (x ∷ xs) = read x >>= λ y. read_each read xs >>= λ ys. returns (y ∷ ys)

-- A loop that reads and acts by turns acts as one over all that is read, if that can be read.
pub for_each-read_each {ℓ κ η} :
    {A : Type ℓ} {B : Type κ} {S : Type η} (read : A → Outcome B) (act : B → S → Outcome S)
    (xs : List A) (ys : List B) (s : S)
    → read_each read xs ≡ returns ys
    → for_each (λ x t. read x >>= λ y. act y t) xs s ≡ for_each act ys s
for_each-read_each read act [] ys s h =
    let same : [] ≡ ys = ground arith in subst (λ zs. returns s ≡ for_each act zs s) same refl
for_each-read_each read act (x ∷ xs) ys s h =
    let (y, first, more) = >>=-eq-returns (read x) _ {b = ys} h in
    let (rest, later, last) = >>=-eq-returns (read_each read xs) _ {b = ys} more in
    let same : y ∷ rest ≡ ys = ground (arith, last) in
    subst (λ zs. for_each (λ x t. read x >>= λ y. act y t) (x ∷ xs) s ≡ for_each act zs s) same
      (rw first (>>=-cong (act y s) (λ t. for_each-read_each read act xs rest t later)))
