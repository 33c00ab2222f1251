-- ===== src/Transport/Search/Relaxing.antt =====
-- One relaxation: what it keeps, and what it is for.
use mathlib.Core.List.{Memᴰ}
use mathlib.Core.List.Memᴰ
use learncppthroughprojects.Prelude.{
  ℕ, ◌+◌, ◌≤◌, ◌<◌, Bool, true, some, [], ◌∷◌, Text, ◌≡◌, ◌⊎◌, inl, inr, refl, ap, sym, subst,
  arith, length-append, returns, Bool-cases, ◌==◌, eq_iff, u32, u32_mod,
}
use learncppthroughprojects.Map.{Map, lookup, insert, lookup-insert, lookup-insert_self}
use learncppthroughprojects.Transport.Types.{RouteMetadata, TransportNetwork}
use learncppthroughprojects.Transport.Search.{
  GraphStop, graph_stop_eq, GraphStopMetric, stop_on, is_better, Search, store, distance_of,
}
use learncppthroughprojects.Transport.Search.Walks.{IsHop, Walk, cost}
use learncppthroughprojects.Transport.Search.Measure.{
  all_stops, metric_or_top, metrics-insert_lt, size,
}

-- An entry behind `m[key] = value` is the new one or an old one.
mem-insert :
    (v : GraphStop) (m : ℕ) (u : GraphStop) (m1 : ℕ) (mp : Map GraphStop ℕ)
    → Memᴰ (u, m1) (insert v m mp)
    → ((u ≡ v) × (m1 ≡ m)) ⊎ Memᴰ (u, m1) mp
unfolding insert
mem-insert v m u m1 [] mem =
    let same = Memᴰ.eq_of_singleton mem in inl (ap (λ x. x.0) same, ap (λ x. x.1) same)
mem-insert v m u m1 ((w, old) ∷ mp) mem = elim (Bool-cases (w == v)) [
  | inl e ↦
      let kept : insert v m ((w, old) ∷ mp) ≡ (v, m) ∷ mp = rw e refl in
      elim (Memᴰ.cases_cons (subst (Memᴰ (u, m1)) kept mem)) [
        | inl same ↦ inl (ap (λ x. x.0) same, ap (λ x. x.1) same)
        | inr old_mem ↦ inr (Memᴰ.tail old_mem)
      ]
  | inr e ↦
      let kept : insert v m ((w, old) ∷ mp) ≡ (w, old) ∷ insert v m mp = rw e refl in
      elim (Memᴰ.cases_cons (subst (Memᴰ (u, m1)) kept mem)) [
        | inl same ↦ inr (Memᴰ.head same)
        | inr later ↦ elim (mem-insert v m u m1 mp later) [
          | inl both ↦ inl both
          | inr old_mem ↦ inr (Memᴰ.tail old_mem)
        ]
      ]
]

module _ (n : TransportNetwork) (use_distance : Bool) (a : Text) where
  -- A metric, or a travel time, is that of a walk, up to multiples of 2 ^ 32.
  abbrev pub Reached : GraphStop → ℕ → Type 0
  Reached v m = (k : ℕ) × (d : ℕ) × Walk n use_distance a v k d × (m ≡ u32 k)

  abbrev pub Timed : GraphStop → ℕ → Type 0
  Timed v t = (k : ℕ) × (d : ℕ) × Walk n use_distance a v k d × (t ≡ u32 d)

  abbrev pub Has : GraphStop → Search → Type 0
  Has v s = (m : ℕ) × (lookup v s.metric_from_a ≡ some m)

  -- What is found is that of walks.
  pub record Sound (s : Search) : Type 0 where
    pub entered : (v : GraphStop) (m : ℕ) → Memᴰ (v, m) s.metric_from_a → Reached v m
    pub timed :
        (v : GraphStop) (m : ℕ) → lookup v s.metric_from_a ≡ some m → Timed v (distance_of v s)
    pub queued :
        (e : GraphStopMetric)
        → Memᴰ e s.nodes_to_visit
        → Reached e.graph_stop e.metric × Has e.graph_stop s

  -- No metric is lost or becomes greater.
  abbrev pub Lowers : Search → Search → Type 0
  Lowers s s' =
      (v : GraphStop) (m : ℕ)
      → lookup v s.metric_from_a ≡ some m
      → (m' : ℕ) × (lookup v s'.metric_from_a ≡ some m') × (m' ≤ m)

  -- The neighbor is no farther than by the hop from a stop of that metric.
  abbrev pub Relaxed : GraphStop → ℕ → Text → RouteMetadata → Search → Type 0
  Relaxed v m to meta s =
      (w t : ℕ)
      → cost n use_distance v to meta ≡ returns (w, t)
      → (m' : ℕ) × (lookup (stop_on to meta) s.metric_from_a ≡ some m') × (m' ≤ m + w)

  abbrev pub Settled : Search → GraphStop → ℕ → Type 0
  Settled s v m =
      (to : Text) (meta : RouteMetadata) → IsHop n v.station_id to meta → Relaxed v m to meta s

  -- Each stop waits in the queue with its metric, or is settled, or is left to another part.
  abbrev pub Open : (GraphStop → ℕ → Type 0) → Search → Type 0
  Open Left s =
      (v : GraphStop) (m : ℕ)
      → lookup v s.metric_from_a ≡ some m
      → Memᴰ (record { graph_stop = v; metric = m }) s.nodes_to_visit ⊎ Settled s v m ⊎ Left v m

  pub Relaxed-Lowers :
      (v : GraphStop) (m : ℕ) (to : Text) (meta : RouteMetadata) (s s' : Search)
      → Lowers s s'
      → Relaxed v m to meta s
      → Relaxed v m to meta s'
  Relaxed-Lowers v m to meta s s' lowers r w t h =
      let (m1, at1, le1) = r w t h in
      let (m2, at2, le2) = lowers (stop_on to meta) m1 at1 in (m2, at2, omega (arith, le1, le2))

  pub Lowers-trans : (r s t : Search) → Lowers r s → Lowers s t → Lowers r t
  Lowers-trans r s t h k v m at =
      let (m1, at1, le1) = h v m at in
      let (m2, at2, le2) = k v m1 at1 in (m2, at2, omega (arith, le1, le2))

  -- A better metric is stored.
  module _ (from v : GraphStop) (m d : ℕ) (s : Search)
      (better : is_better m (lookup v s.metric_from_a) ≡ true) (is_reached : Reached v m)
      (is_timed : Timed v d) where
    abbrev stored : Search
    stored = store from v m d s

    pub store-Lowers : Lowers s stored
    store-Lowers u m1 at = elim (Bool-cases (v == u)) [
      | inl e ↦
          let same : v ≡ u = (eq_iff v u).0 e in
          (
            m,
            ground (arith, lookup-insert v u m s.metric_from_a, e),
            ground (arith, better, same, at),
          )
      | inr e ↦ (m1, ground (arith, lookup-insert v u m s.metric_from_a, e, at), omega arith)
    ]

    pub store-Sound : Sound s → Sound stored
    store-Sound h = record {
      entered = λ u m1 mem. elim (mem-insert v m u m1 s.metric_from_a mem) [
        | inl (same, same_metric) ↦
            subst (λ z. Reached z m1) (sym same) (subst (Reached v) (sym same_metric) is_reached)
        | inr old ↦ h.entered u m1 old
      ];
      timed = λ u m1 at. elim (Bool-cases (v == u)) [
        | inl e ↦
            let same : d ≡ distance_of u stored =
              ground (arith, lookup-insert v u d s.distance_from_a, e) in
            subst (λ z. Timed z (distance_of u stored)) ((eq_iff v u).0 e)
              (subst (Timed v) same is_timed)
        | inr e ↦
            let same : distance_of u s ≡ distance_of u stored =
              ground (arith, lookup-insert v u d s.distance_from_a, e) in
            subst (Timed u) same
              (h.timed u m1 (ground (arith, lookup-insert v u m s.metric_from_a, e, at)))
      ];
      queued = λ e mem. elim (Memᴰ.append_cases s.nodes_to_visit mem) [
        | inl old ↦
            let (is_walk, (m1, at)) = h.queued e old in
            let (m2, at2, _) = store-Lowers e.graph_stop m1 at in (is_walk, (m2, at2))
        | inr new ↦
            subst (λ z. Reached z.graph_stop z.metric × Has z.graph_stop stored)
              (sym (Memᴰ.eq_of_singleton new))
              (is_reached, (m, lookup-insert_self v m s.metric_from_a))
      ];
    }

    pub store-Open : (Left : GraphStop → ℕ → Type 0) → Open Left s → Open Left stored
    store-Open Left h u m1 at = elim (Bool-cases (v == u)) [
      | inl e ↦
          let same : v ≡ u = (eq_iff v u).0 e in
          let same_metric : m ≡ m1 = ground (arith, lookup-insert v u m s.metric_from_a, e, at) in
          inl (Memᴰ.append_right s.nodes_to_visit (Memᴰ.head (ground (arith, same, same_metric))))
      | inr e ↦ elim (h u m1 (ground (arith, lookup-insert v u m s.metric_from_a, e, at))) [
        | inl mem ↦ inl (Memᴰ.append_left _ mem)
        | inr (inl settled) ↦ inr (
            inl (λ to meta is_hop.
              Relaxed-Lowers u m1 to meta s stored store-Lowers (settled to meta is_hop)))
        | inr (inr left) ↦ inr (inr left)
      ]
    ]

    pub store-size :
        Memᴰ v (all_stops n) → m < u32_mod → size (all_stops n) stored ≤ size (all_stops n) s
    store-size mem small =
        let less : m < metric_or_top v s.metric_from_a = ground (arith, better, small) in
        omega (
          arith,
          metrics-insert_lt v m s.metric_from_a less (all_stops n) mem,
          length-append s.nodes_to_visit (record { graph_stop = v; metric = m } ∷ []),
        )
