-- ===== src/Transport/Search/Backwards.antt =====
-- The loop over the parents, when the queue is empty.
use mathlib.Core.List.{Memᴰ}
use mathlib.Core.List.Memᴰ
use learncppthroughprojects.Prelude.{
  ℕ, zero, suc, ◌+◌, ◌-◌, ◌<◌, Bool, true, false, some, List, [], ◌∷◌, Text, ◌≡◌, inl, inr, refl,
  ap, sym, subst, ◌∙◌, arith, returns, Bool-cases, ◌==◌, eq_iff, text_eq, u32, u32_mod, u32-lt,
  u32-eq_of_lt, u32-sub, u32-add_left,
}
use learncppthroughprojects.Map.{lookup}
use learncppthroughprojects.Transport.Types.{RouteMetadata, RouteStep, TransportNetwork}
use learncppthroughprojects.Transport.Search.{
  GraphStop, graph_stop_eq, GraphStopMetric, first_stop, stop_on, Search, distance_of, least,
  nearest, paths_to,
}
use learncppthroughprojects.Transport.Search.Itinerary.{parent_of, step_to, trace_back}
use learncppthroughprojects.Transport.Search.Queue.{least-top, queue-cases}
use learncppthroughprojects.Transport.Search.Relaxing.{Settled}
use learncppthroughprojects.Transport.Search.Shortest.{Ready}
use learncppthroughprojects.Transport.Search.Trails.{Rides, rides}
use learncppthroughprojects.Transport.Search.Parents.{maps_of, Link, Tree}
use learncppthroughprojects.Transport.Search.Tracing.{At, Between}

pub nearest-mem :
    (b : Text) (s : Search) (e : GraphStopMetric)
    → nearest b s ≡ some e
    → Memᴰ e (paths_to b s.metric_from_a)
unfolding nearest
nearest-mem b s e h = elim (queue-cases (paths_to b s.metric_from_a)) [
  | inl empty ↦ absurd (ground (arith, h, empty))
  | inr (f, q, paths) ↦
      let same : (least f q).0 ≡ e = ground (arith, h, paths) in
      subst (λ z. Memᴰ z (paths_to b s.metric_from_a)) same
        (subst (Memᴰ (least f q).0) (sym paths) (least-top f q))
]

step_to-stop_on :
    (to : Text) (meta : RouteMetadata) (parent : GraphStop) (s : Search) (t : ℕ)
    → lookup (stop_on to meta) s.station_id_to_parent ≡ some parent
    → distance_of parent s < u32_mod
    → distance_of (stop_on to meta) s ≡ u32 (distance_of parent s + t)
    → step_to (stop_on to meta) s
      ≡ returns (record {
        start_station_id = parent.station_id;
        end_station_id = to;
        line_id = meta.line_id;
        route_id = meta.route_id;
        travel_time = u32 t;
      })
unfolding step_to
step_to-stop_on to meta parent s t found low distance =
    let above : parent_of (stop_on to meta) s ≡ parent = ground (arith, found) in
    let time : u32 (distance_of (stop_on to meta) s + u32_mod - distance_of parent s) ≡ u32 t =
      rw distance (u32-sub (distance_of parent s) t low) in
    rw (above, time, step_to) refl

trace_back-home :
    (fuel : ℕ) (a : Text) (v : GraphStop) (s : Search) (acc : List RouteStep)
    → (v.station_id == a) ≡ true
    → trace_back (suc fuel) a v s acc ≡ some (returns acc)
unfolding trace_back
trace_back-home fuel a v s acc e = ground (arith, e)

trace_back-step_to :
    (fuel : ℕ) (a : Text) (v parent : GraphStop) (s : Search) (step : RouteStep)
    (acc : List RouteStep)
    → (v.station_id == a) ≡ false
    → step_to v s ≡ returns step
    → lookup v s.station_id_to_parent ≡ some parent
    → trace_back (suc fuel) a v s acc ≡ trace_back fuel a parent s (step ∷ acc)
unfolding trace_back
trace_back-step_to fuel a v parent s step acc e stepped found =
    let above : parent_of v s ≡ parent = ground (arith, found) in ground (arith, e, stepped, above)

module _ (n : TransportNetwork) (use_distance : Bool) (a : Text) (s : Search)
    (ready : Ready n use_distance a (At n use_distance a) (Between n use_distance a) s)
    (ends : s.nodes_to_visit ≡ []) where
  abbrev tree : Tree n use_distance a (maps_of s)
  tree = ready.2.0

  settled :
      (v : GraphStop) (m : ℕ) → lookup v s.metric_from_a ≡ some m → Settled n use_distance a s v m
  settled v m at = elim (ready.1 v m at) [
    | inl mem ↦
        absurd (Memᴰ.not-nil (subst (Memᴰ (record { graph_stop = v; metric = m })) ends mem))
    | inr (inl done) ↦ done
    | inr (inr none_left) ↦ absurd none_left
  ]

  -- A stop with its parent, when the queue is empty.
  abbrev Tie : (v : GraphStop) (m : ℕ) → Link n use_distance a tree.rank (maps_of s) v m → Type 0
  Tie v m l =
      (l.parent_metric + l.w ≡ m)
      × (distance_of v s ≡ u32 (distance_of l.parent s + l.t))
      × (tree.rank l.parent < tree.rank v)

  Link-Tie :
      (v : GraphStop) (m : ℕ) (l : Link n use_distance a tree.rank (maps_of s) v m)
      → lookup v s.metric_from_a ≡ some m
      → Tie v m l
  Link-Tie v m l at = elim l.tie [
    | inr tie ↦ tie
    | inl less ↦
        let (m', found, le) =
          settled l.parent l.parent_metric l.is_metric l.to l.meta l.is_hop l.w l.t l.is_cost in
        let at' : lookup (stop_on l.to l.meta) s.metric_from_a ≡ some m =
          subst (λ z. lookup z s.metric_from_a ≡ some m) (sym l.is_stop) at in
        absurd (ground (arith, less, found, le, at'))
  ]

  abbrev step_of :
      {v : GraphStop} {m : ℕ} → Link n use_distance a tree.rank (maps_of s) v m → RouteStep
  step_of l = record {
    start_station_id = l.parent.station_id;
    end_station_id = l.to;
    line_id = l.meta.line_id;
    route_id = l.meta.route_id;
    travel_time = u32 l.t;
  }

  Link-step :
      (v : GraphStop) (m : ℕ) (l : Link n use_distance a tree.rank (maps_of s) v m)
      → Tie v m l
      → step_to v s ≡ returns (step_of l)
  Link-step v m l (_, distance, _) =
      let (k, d, _, timed) = ready.0.timed l.parent l.parent_metric l.is_metric in
      let low : distance_of l.parent s < u32_mod = rw timed (u32-lt d) in
      subst (λ z. step_to z s ≡ returns (step_of l)) l.is_stop
        (step_to-stop_on l.to l.meta l.parent s l.t
          (subst (λ z. lookup z s.station_id_to_parent ≡ some l.parent) (sym l.is_stop) l.is_parent)
          low
          (subst (λ z. distance_of z s ≡ u32 (distance_of l.parent s + l.t)) (sym l.is_stop)
            distance))

  -- The loop over the parents goes back along hops to the station where the search has begun.
  abbrev pub Traced : ℕ → GraphStop → ℕ → GraphStop → List RouteStep → ℕ → ℕ → Type 0
  Traced fuel v m z acc k d =
      (steps : List RouteStep) × (time : ℕ) × (trace_back fuel a v s acc ≡ some (returns steps))
      × Rides n use_distance (first_stop a) z steps (m + k) (time + d)
      × (distance_of v s ≡ u32 time)

  pub trace_back-Traced :
      (fuel : ℕ) (v : GraphStop) (m : ℕ) (z : GraphStop) (acc : List RouteStep) (k d : ℕ)
      → lookup v s.metric_from_a ≡ some m
      → (v.station_id ≡ a → v ≡ first_stop a)
      → tree.rank v < fuel
      → Rides n use_distance v z acc k d
      → Traced fuel v m z acc k d
  trace_back-Traced zero v m z acc k d at away low rest = absurd (omega (arith, low))
  trace_back-Traced (suc fuel) v m z acc k d at away low rest =
      elim (Bool-cases (v.station_id == a)) [
        | inl e ↦
            let first = away ((eq_iff v.station_id a).0 e) in
            let none_spent : m ≡ 0 =
              ground (
                arith,
                at,
                subst (λ x. lookup x s.metric_from_a ≡ some 0) (sym first) tree.origin,
              ) in
            (
              acc,
              0,
              trace_back-home fuel a v s acc e,
              subst (λ x. Rides n use_distance (first_stop a) z acc x (0 + d))
                  (omega (arith, none_spent))
                  (subst (λ x. Rides n use_distance (first_stop a) z acc k x) (omega arith)
                    (subst (λ x. Rides n use_distance x z acc k d) first rest)),
              subst (λ x. distance_of x s ≡ u32 0) (sym first)
                  (tree.origin_distance ∙ sym (u32-eq_of_lt 0 (omega arith))),
            )
        | inr e ↦ elim (tree.linked v m at) [
          | inl first ↦
              absurd (ground (arith, e, ap (λ x. x.station_id) first, eq_iff v.station_id a))
          | inr l ↦
              let tie = Link-Tie v m l at in
              let step = Link-step v m l tie in
              let (steps, time, runs, way, timed) =
                trace_back-Traced fuel l.parent l.parent_metric z (step_of l ∷ acc) (l.w + k)
                  (l.t + d) l.is_metric l.away (omega (arith, tie.2, low))
                  (rides l.parent z l.to l.meta acc k d l.w l.t l.is_hop l.is_cost
                    (subst (λ x. Rides n use_distance x z acc k d) (sym l.is_stop) rest)) in
              (
                steps,
                time + l.t,
                trace_back-step_to fuel a v l.parent s (step_of l) acc e step l.is_parent ∙ runs,
                subst (λ x. Rides n use_distance (first_stop a) z steps x (time + l.t + d))
                    (omega (arith, tie.0))
                    (subst
                      (Rides n use_distance (first_stop a) z steps (l.parent_metric + (l.w + k)))
                      (omega arith) way),
                tie.1 ∙ ap (λ x. u32 (x + l.t)) timed ∙ u32-add_left time l.t,
              )
        ]
      ]
