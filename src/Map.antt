-- ===== src/Map.antt =====
-- `std::unordered_map`: a list of entries with distinct keys, in the order of iteration. The
-- standard leaves that order open, so properties are stated for every list.
use mathlib.Core.List.{Memᴰ}
use mathlib.Core.List.Memᴰ
use learncppthroughprojects.Prelude.{
  Bool-cases, inl, inr, subst, sym, Bool, true, false, ◌||◌, ◌≡◌, refl, ap, ◌∙◌, Option, none, some,
  List, [], ◌∷◌, ◌++◌, arith, if◌then◌else◌, Eq, ◌==◌, eq_iff, eq_refl, all,
}

abbrev pub Map {ℓ κ} : Type ℓ → Type κ → Type (ℓ ⊔ κ)
Map K V = List (K × V)

module _ {ℓ κ} {K : Type ℓ} {V : Type κ} ⦃e : Eq K⦄ where
  -- `m.find(key)`; `none` is `m.end()`.
  unfoldable pub lookup : K → Map K V → Option V
  lookup key [] = none
  lookup key ((first, value) ∷ rest) = if first == key then some value else lookup key rest

  -- `m.find(key) != m.end()`
  unfoldable pub contains : K → Map K V → Bool
  contains key m = elim (lookup key m) [ none ↦ false | some _ ↦ true ]

  -- `m[key] = value`
  unfoldable pub insert : K → V → Map K V → Map K V
  insert key value [] = (key, value) ∷ []
  insert key value ((first, old) ∷ rest) =
      if first == key then (key, value) ∷ rest else (first, old) ∷ insert key value rest

  -- What is found under `other` behind `m[key] = value`.
  pub lookup-insert :
      (key other : K) (value : V) (m : Map K V)
      → lookup other (insert key value m) ≡ (if key == other then some value else lookup other m)
  unfolding insert lookup
  lookup-insert key other value [] = refl
  lookup-insert key other value ((first, old) ∷ rest) = ground (
    arith,
    lookup-insert key other value rest,
    eq_iff first key,
    eq_iff first other,
    eq_iff key other,
  )

  pub lookup-insert_self :
      (key : K) (value : V) (m : Map K V) → lookup key (insert key value m) ≡ some value
  lookup-insert_self key value m =
      lookup-insert key key value m ∙ ap (λ b. if b then some value else lookup key m) (eq_refl key)

module _ {ℓ κ} {K : Type ℓ} {V : Type κ} ⦃e : Eq K⦄ where
  -- What holds of every entry holds of an entry that is found.
  pub lookup-all :
      (p : K → V → Bool) (m : Map K V) {v : V}
      → all (λ e. p e.0 e.1) m ≡ true
      → (k : K) → lookup k m ≡ some v
      → p k v ≡ true
  unfolding lookup
  lookup-all p [] a k h = cc
  lookup-all p ((j, w) ∷ m) {v} a k h =
      ground (arith, eq_iff j k, lookup-all p m {v = v} (ground arith) k)

  -- A new key stands last.
  pub insert-new :
      (k : K) (v : V) (m : Map K V) → contains k m ≡ false → insert k v m ≡ m ++ (k, v) ∷ []
  unfolding lookup contains insert
  insert-new k v [] h = refl
  insert-new k v ((j, w) ∷ m) h = ground (arith, insert-new k v m)

  pub contains-cons :
      (r h : K) (v : V) (m : Map K V) → contains r ((h, v) ∷ m) ≡ (h == r || contains r m)
  unfolding contains lookup
  contains-cons r h v m = ground arith

  pub contains-concat :
      (r h : K) (v : V) (m : Map K V) → contains r (m ++ (h, v) ∷ []) ≡ (contains r m || h == r)
  unfolding contains lookup
  contains-concat r h v [] = ground arith
  contains-concat r h v ((k, w) ∷ m) = ground (arith, contains-concat r h v m)

  -- A test that holds of every key holds of a key that is found.
  pub all-contains :
      (p : K → Bool) (k : K) (m : Map K V)
      → all (λ e. p e.0) m ≡ true
      → contains k m ≡ true
      → p k ≡ true
  unfolding contains lookup
  all-contains p k [] a h = cc
  all-contains p k ((j, v) ∷ m) a h = ground (arith, eq_iff j k, all-contains p k m)

-- No key stands twice.
module _ {ℓ κ} {K : Type ℓ} {V : Type κ} ⦃e : Eq K⦄ where
  abbrev pub IsDistinct : Map K V → Type 0
  IsDistinct [] = Unit
  IsDistinct ((key, value) ∷ m) = (contains key m ≡ false) × IsDistinct m

  contains-insert :
      (key other : K) (value : V) (m : Map K V)
      → contains other (insert key value m) ≡ (key == other || contains other m)
  unfolding contains
  contains-insert key other value m = ground (arith, lookup-insert key other value m)

  pub insert-IsDistinct :
      (key : K) (value : V) (m : Map K V) → IsDistinct m → IsDistinct (insert key value m)
  unfolding insert contains lookup
  insert-IsDistinct key value [] d = (refl, tt)
  insert-IsDistinct key value ((first, old) ∷ m) (new, d) = elim (Bool-cases (first == key)) [
    | inl i ↦
        let same : first ≡ key = (eq_iff first key).0 i in
        rw i (subst (λ k. contains k m ≡ false) same new, d)
    | inr i ↦ rw i (
      rw (contains-insert key first value m)
          (ground (arith, i, new, eq_iff first key, eq_iff key first)),
      insert-IsDistinct key value m d,
    )
  ]

  pub lookup-IsDistinct :
      (key : K) (value : V) (m : Map K V)
      → IsDistinct m
      → Memᴰ (key, value) m
      → lookup key m ≡ some value
  unfolding lookup contains
  lookup-IsDistinct key value [] d h = absurd (Memᴰ.not-nil h)
  lookup-IsDistinct key value ((first, old) ∷ m) (new, d) (Memᴰ.head same) =
      let here : (first == key) ≡ true = (eq_iff first key).1 (sym (ap (λ x. x.0) same)) in
      rw here (ap (λ x. some x.1) (sym same))
  lookup-IsDistinct key value ((first, old) ∷ m) (new, d) (Memᴰ.tail h) =
      let later = lookup-IsDistinct key value m d h in
      elim (Bool-cases (first == key)) [
        | inl i ↦
            let same : first ≡ key = (eq_iff first key).0 i in
            absurd (ground (arith, later, subst (λ k. contains k m ≡ false) same new))
        | inr i ↦ rw i later
      ]
