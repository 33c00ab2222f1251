-- ===== src/Transport/Search/Queue.antt =====
-- The priority queue and the paths to a station, as lists.
use mathlib.Core.List.{Memᴰ}
use mathlib.Core.List.Memᴰ
use learncppthroughprojects.Prelude.{
  ℕ, ◌≤◌, Bool, true, false, some, List, [], ◌∷◌, Text, ◌≡◌, ◌⊎◌, inl, inr, refl, ap, sym, subst,
  ◌∙◌, arith, length, Bool-cases, if◌then◌else◌, ◌==◌, eq_iff, text_eq, ltb, suc,
}
use learncppthroughprojects.Map.{Map, lookup}
use learncppthroughprojects.Transport.Search.{
  GraphStop, graph_stop_eq, GraphStopMetric, least, paths_to,
}

-- Two entries that may have been exchanged.
module _ (e f : GraphStopMetric) (q : List GraphStopMetric) (x : GraphStopMetric) where
  exchange :
      (b : Bool)
      → Memᴰ x (e ∷ f ∷ q)
      → (x ≡ (if b then e else f)) ⊎ Memᴰ x ((if b then f else e) ∷ q)
  exchange true (Memᴰ.head i) = inl i
  exchange true (Memᴰ.tail h) = inr h
  exchange false (Memᴰ.head i) = inr (Memᴰ.head i)
  exchange false (Memᴰ.tail (Memᴰ.head i)) = inl i
  exchange false (Memᴰ.tail (Memᴰ.tail h)) = inr (Memᴰ.tail h)

  exchange_back :
      (b : Bool)
      → (x ≡ (if b then e else f)) ⊎ Memᴰ x ((if b then f else e) ∷ q)
      → Memᴰ x (e ∷ f ∷ q)
  exchange_back true (inl i) = Memᴰ.head i
  exchange_back true (inr h) = Memᴰ.tail h
  exchange_back false (inl i) = Memᴰ.tail (Memᴰ.head i)
  exchange_back false (inr (Memᴰ.head i)) = Memᴰ.head i
  exchange_back false (inr (Memᴰ.tail h)) = Memᴰ.tail (Memᴰ.tail h)

-- The top of the queue and the others are the queue.
pub least-cases :
    (e : GraphStopMetric) (q : List GraphStopMetric) (x : GraphStopMetric)
    → Memᴰ x (e ∷ q)
    → (x ≡ (least e q).0) ⊎ Memᴰ x (least e q).1
unfolding least
least-cases e [] x h = inl (Memᴰ.eq_of_singleton h)
least-cases e (f ∷ q) x h = elim (exchange e f q x (ltb f.metric e.metric) h) [
  | inl i ↦ inr (Memᴰ.head i)
  | inr k ↦ elim (least-cases (if ltb f.metric e.metric then f else e) q x k) [
    | inl i ↦ inl i
    | inr l ↦ inr (Memᴰ.tail l)
  ]
]

pub least-top : (e : GraphStopMetric) (q : List GraphStopMetric) → Memᴰ (least e q).0 (e ∷ q)
unfolding least
least-top e [] = Memᴰ.head refl
least-top e (f ∷ q) =
    exchange_back e f q _ (ltb f.metric e.metric)
      (inr (least-top (if ltb f.metric e.metric then f else e) q))

pub least-rest :
    (e : GraphStopMetric) (q : List GraphStopMetric) (x : GraphStopMetric)
    → Memᴰ x (least e q).1
    → Memᴰ x (e ∷ q)
unfolding least
least-rest e [] x h = absurd (Memᴰ.not-nil h)
least-rest e (f ∷ q) x h = exchange_back e f q x (ltb f.metric e.metric) (elim (Memᴰ.cases_cons h) [
  | inl i ↦ inl i
  | inr k ↦ inr (least-rest (if ltb f.metric e.metric then f else e) q x k)
])

pub length-least :
    (e : GraphStopMetric) (q : List GraphStopMetric) → length (least e q).1 ≡ length q
unfolding least
length-least e [] = refl
length-least e (f ∷ q) = ap suc (length-least (if ltb f.metric e.metric then f else e) q)

pub queue-cases :
    (q : List GraphStopMetric)
    → (q ≡ []) ⊎ ((e : GraphStopMetric) × (rest : List GraphStopMetric) × (q ≡ e ∷ rest))
queue-cases [] = inl refl
queue-cases (e ∷ rest) = inr (e, rest, refl)

pub least-le :
    (e : GraphStopMetric) (q : List GraphStopMetric) (x : GraphStopMetric)
    → Memᴰ x (e ∷ q)
    → (least e q).0.metric ≤ x.metric
unfolding least
least-le e [] x (Memᴰ.head i) = let same = ap (λ z. z.metric) i in omega (arith, same)
least-le e [] x (Memᴰ.tail h) = absurd (Memᴰ.not-nil h)
least-le e (f ∷ q) x h =
    let winner = if ltb f.metric e.metric then f else e in
    let first = least-le winner q winner (Memᴰ.head refl) in
    elim (Memᴰ.cases_cons h) [
      | inl i ↦ let same = ap (λ z. z.metric) i in ground (arith, first, same)
      | inr k ↦ elim (Memᴰ.cases_cons k) [
        | inl i ↦ let same = ap (λ z. z.metric) i in ground (arith, first, same)
        | inr l ↦ least-le winner q x (Memᴰ.tail l)
      ]
    ]

-- `pathsToB` has exactly the stops at the station.
pub paths_to-mem :
    (b : Text) (mp : Map GraphStop ℕ) (v : GraphStop) (m : ℕ)
    → lookup v mp ≡ some m
    → v.station_id ≡ b
    → Memᴰ (record { graph_stop = v; metric = m }) (paths_to b mp)
unfolding paths_to lookup
paths_to-mem b [] v m h at = cc
paths_to-mem b ((u, old) ∷ mp) v m h at = elim (Bool-cases (u == v)) [
  | inl e ↦
      let same : u ≡ v = (eq_iff u v).0 e in
      let same_metric : m ≡ old = ground (arith, h, e) in
      let at_b : (u.station_id == b) ≡ true =
        (eq_iff u.station_id b).1 (ap (λ x. x.station_id) same ∙ at) in
      rw at_b (Memᴰ.head (ground (arith, same, same_metric)))
  | inr e ↦
      let later = paths_to-mem b mp v m (ground (arith, h, e)) at in
      elim (Bool-cases (u.station_id == b)) [
        | inl at_b ↦ rw at_b (Memᴰ.tail later)
        | inr elsewhere ↦ rw elsewhere later
      ]
]

pub paths_to_sound :
    (b : Text) (mp : Map GraphStop ℕ) (e : GraphStopMetric)
    → Memᴰ e (paths_to b mp)
    → (e.graph_stop.station_id ≡ b) × Memᴰ (e.graph_stop, e.metric) mp
unfolding paths_to
paths_to_sound b [] e h = absurd (Memᴰ.not-nil h)
paths_to_sound b ((u, old) ∷ mp) e h = elim (Bool-cases (u.station_id == b)) [
  | inl at_b ↦
      let kept : paths_to b ((u, old) ∷ mp)
          ≡ record { graph_stop = u; metric = old } ∷ paths_to b mp =
        rw at_b refl in
      elim (Memᴰ.cases_cons (subst (Memᴰ e) kept h)) [
        | inl same ↦ (
          ap (λ x. x.graph_stop.station_id) same ∙ (eq_iff u.station_id b).0 at_b,
          Memᴰ.head (ap (λ x. (x.graph_stop, x.metric)) same),
        )
        | inr later ↦ let (at, mem) = paths_to_sound b mp e later in (at, Memᴰ.tail mem)
      ]
  | inr elsewhere ↦
      let kept : paths_to b ((u, old) ∷ mp) ≡ paths_to b mp = rw elsewhere refl in
      let (at, mem) = paths_to_sound b mp e (subst (Memᴰ e) kept h) in (at, Memᴰ.tail mem)
]

-- An entry is found.
pub lookup-mem :
    (v : GraphStop) (m : ℕ) (mp : Map GraphStop ℕ)
    → Memᴰ (v, m) mp
    → (m' : ℕ) × (lookup v mp ≡ some m')
unfolding lookup
lookup-mem v m [] h = absurd (Memᴰ.not-nil h)
lookup-mem v m ((u, old) ∷ mp) h = elim (Bool-cases (u == v)) [
  | inl e ↦ (old, rw e refl)
  | inr e ↦ elim (Memᴰ.cases_cons h) [
    | inl i ↦
        let same : v ≡ u = ap (λ z. z.0) i in absurd (ground (arith, e, (eq_iff u v).1 (sym same)))
    | inr later ↦ let (m', at) = lookup-mem v m mp later in (m', rw e at)
  ]
]
