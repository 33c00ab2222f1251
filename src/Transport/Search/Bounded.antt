-- ===== src/Transport/Search/Bounded.antt =====
-- When no metric of the search overflows.
use mathlib.Core.List.{Memᴰ}
use mathlib.Core.List.Memᴰ
use native.Mathlib.Nat.{mul-le-mul_left}
use learncppthroughprojects.Prelude.{
  ℕ, suc, ◌+◌, ◌*◌, ◌≤◌, ◌<◌, Bool, List, [], ◌∷◌, Text, ◌≡◌, ◌⊎◌, inl, inr, refl, sym, ◌∙◌, subst,
  arith, length, returns, u32_mod,
}
use learncppthroughprojects.Transport.Types.{RouteMetadata, TransportNetwork}
use learncppthroughprojects.Transport.Search.{GraphStop, first_stop, stop_on}
use learncppthroughprojects.Transport.Search.Walks.{IsHop, cost}
use learncppthroughprojects.Transport.Search.Measure.{all_stops, IsHop-mem}
use learncppthroughprojects.Transport.Search.Trails.{Trail, begins, goes, IsBounded}

-- A list without one of its elements.
record Without {ℓ} {A : Type ℓ} (x : A) (ys : List A) : Type ℓ where
  rest : List A
  is_shorter : length ys ≡ suc (length rest)
  others : (y : A) → Memᴰ y ys → (y ≡ x) ⊎ Memᴰ y rest

without {ℓ} : {A : Type ℓ} → (x : A) (ys : List A) → Memᴰ x ys → Without x ys
without x [] h = absurd (Memᴰ.not-nil h)
without x (y ∷ ys) (Memᴰ.head e) = record {
  rest = ys;
  is_shorter = refl;
  others =
      λ z mem. elim (Memᴰ.cases_cons mem) [ inl same ↦ inl (same ∙ sym e) | inr later ↦ inr later ];
}
without x (y ∷ ys) (Memᴰ.tail h) =
    let w = without x ys h in
    record {
      rest = y ∷ w.rest;
      is_shorter = omega (arith, w.is_shorter);
      others = λ z mem. elim (Memᴰ.cases_cons mem) [
        | inl same ↦ inr (Memᴰ.head same)
        | inr later ↦ elim (w.others z later) [
          | inl same ↦ inl same
          | inr kept ↦ inr (Memᴰ.tail kept)
        ]
      ];
    }

module _ (n : TransportNetwork) (use_distance : Bool) (a : Text) where
  -- The stops of a trail are not more than those of a list that has them all.
  Trail-length :
      (vs : List GraphStop) (v : GraphStop) (k d : ℕ)
      → Trail n use_distance a vs v k d
      → (all : List GraphStop) → ((u : GraphStop) → Memᴰ u vs → Memᴰ u all)
      → length vs ≤ length all
  Trail-length _ _ _ _ begins all within =
      let w = without (first_stop a) all (within (first_stop a) (Memᴰ.head refl)) in
      omega (arith, w.is_shorter)
  Trail-length _ _ _ _ (goes vs v to m k d w t trail is_hop is_cost free) all within =
      let out = without (stop_on to m) all (within (stop_on to m) (Memᴰ.head refl)) in
      let fewer = Trail-length vs v k d trail out.rest (λ u mem.
        elim (out.others u (within u (Memᴰ.tail mem))) [
          | inl same ↦ absurd (free (subst (λ z. Memᴰ z vs) same mem))
          | inr kept ↦ kept
        ]) in
      omega (arith, fewer, out.is_shorter)

  Trail-within :
      (vs : List GraphStop) (v : GraphStop) (k d : ℕ)
      → Trail n use_distance a vs v k d
      → (u : GraphStop) → Memᴰ u vs
      → Memᴰ u (first_stop a ∷ all_stops n)
  Trail-within _ _ _ _ begins u mem = Memᴰ.head (Memᴰ.eq_of_singleton mem)
  Trail-within _ _ _ _ (goes vs v to m k d w t trail is_hop is_cost free) u mem =
      elim (Memᴰ.cases_cons mem) [
        | inl same ↦
            Memᴰ.tail
              (subst (λ z. Memᴰ z (all_stops n)) (sym same) (IsHop-mem n v.station_id to m is_hop))
        | inr later ↦ Trail-within vs v k d trail u later
      ]

  module _ (c : ℕ)
      (cheap : (v : GraphStop) (to : Text) (m : RouteMetadata) (w t : ℕ)
        → IsHop n v.station_id to m
        → cost n use_distance v to m ≡ returns (w, t)
        → w ≤ c) where
    Trail-metric :
        (vs : List GraphStop) (v : GraphStop) (k d : ℕ)
        → Trail n use_distance a vs v k d
        → k + c ≤ c * length vs
    Trail-metric _ _ _ _ begins = omega arith
    Trail-metric _ _ _ _ (goes vs v to m k d w t trail is_hop is_cost free) =
        omega (arith, Trail-metric vs v k d trail, cheap v to m w t is_hop is_cost)

    -- A bound for each hop is enough.
    pub IsBounded-hops : c * (length (all_stops n) + 1) < u32_mod → IsBounded n use_distance a
    IsBounded-hops small vs v k d to m w t trail is_hop is_cost =
        let fewer =
          Trail-length vs v k d trail (first_stop a ∷ all_stops n) (Trail-within vs v k d trail) in
        omega (
          arith,
          fewer,
          Trail-metric vs v k d trail,
          cheap v to m w t is_hop is_cost,
          mul-le-mul_left c fewer,
          small,
        )
