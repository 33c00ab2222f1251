-- ===== src/Transport/Search/Shortest.antt =====
-- The whole search: it ends, and its metrics are those of the best walks.
use mathlib.Core.List.{Memᴰ}
use learncppthroughprojects.Prelude.{
  ℕ, zero, suc, ◌<◌, Bool, some, List, [], ◌∷◌, Text, ◌≡◌, inl, inr, ap, sym, subst, arith, length,
  returns,
}
use learncppthroughprojects.Transport.Types.{StationNode, TransportNetwork}
use learncppthroughprojects.Transport.Network.{get_station_node}
use learncppthroughprojects.Transport.WellFormed.{IsWellFormed}
use learncppthroughprojects.Transport.Search.{
  GraphStop, graph_stop_eq, GraphStopMetric, Search, visit_all, least,
}
use learncppthroughprojects.Transport.Search.Queue.{
  least-cases, least-top, least-rest, length-least, queue-cases,
}
use learncppthroughprojects.Transport.Search.Walks.{Walk-station}
use learncppthroughprojects.Transport.Search.Measure.{all_stops, size}
use learncppthroughprojects.Transport.Search.Relaxing.{Sound, Lowers, Lowers-trans, Settled, Open}
use learncppthroughprojects.Transport.Search.Visiting.{Visiting, Keeps, visit-Yields}

-- The queue without its top.
abbrev pub popped : GraphStopMetric → List GraphStopMetric → Search → Search
popped e q s = record s { nodes_to_visit = (least e q).1 }

-- What else is to be known between two rounds is `Between`.
module _ (n : TransportNetwork) (use_distance : Bool) (a : Text)
    (At : GraphStopMetric → Search → Type 0) (Between : Search → Type 0) where
  abbrev pub IsNone : GraphStop → ℕ → Type 0
  IsNone v m = ⊥

  -- Between two rounds.
  abbrev pub Ready : Search → Type 0
  Ready s = Sound n use_distance a s × Open n use_distance a IsNone s × Between s

  -- It is kept by every round.
  pub record Upkeep : Type 0 where
    pub keeps : Keeps n use_distance a At
    pub pops :
        (e : GraphStopMetric) (q : List GraphStopMetric) (s : Search)
        → s.nodes_to_visit ≡ e ∷ q
        → Between s
        → At (least e q).0 (popped e q s)
    pub closes :
        (top : GraphStopMetric) (s : Search)
        → At top s
        → Settled n use_distance a s top.graph_stop top.metric
        → Between s

  abbrev pub Ends : ℕ → Search → Type 0
  Ends fuel s =
      (t : Search) × (visit_all fuel n use_distance s ≡ some (returns t))
      × Ready t
      × (t.nodes_to_visit ≡ [])
      × Lowers n use_distance a s t

module _ (n : TransportNetwork) (use_distance : Bool) (a : Text)
    (At : GraphStopMetric → Search → Type 0) (Between : Search → Type 0)
    (upkeep : Upkeep n use_distance a At Between) (wf : IsWellFormed n) (home : StationNode)
    (at_home : get_station_node a n ≡ some home) where
  module _ (e : GraphStopMetric) (q : List GraphStopMetric) (s : Search)
      (queue : s.nodes_to_visit ≡ e ∷ q) where
    abbrev top : GraphStopMetric
    top = (least e q).0

    mem-queue : (x : GraphStopMetric) → Memᴰ x (e ∷ q) → Memᴰ x s.nodes_to_visit
    mem-queue x h = subst (Memᴰ x) (sym queue) h

    popped-Visiting :
        Ready n use_distance a At Between s → Visiting n use_distance a At top (popped e q s)
    popped-Visiting (sound, waits, between) = (
      record {
        entered = sound.entered;
        timed = sound.timed;
        queued = λ x h. sound.queued x (mem-queue x (least-rest e q x h));
      },
      (λ v m at. elim (waits v m at) [
        | inl mem ↦
            elim (least-cases e q (record { graph_stop = v; metric = m })
              (subst (Memᴰ (record { graph_stop = v; metric = m })) queue mem)) [
                | inl same ↦ inr (inr (ap (λ x. x.graph_stop) same, ap (λ x. x.metric) same))
                | inr rest ↦ inl rest
              ]
        | inr (inl settled) ↦ inr (inl settled)
        | inr (inr none_left) ↦ absurd none_left
      ]),
      (sound.queued top (mem-queue top (least-top e q))).1,
      upkeep.pops e q s queue between,
    )

    -- The top of the queue has been visited.
    Settled-Ready :
        (t : Search)
        → Visiting n use_distance a At top t
        → Settled n use_distance a t top.graph_stop top.metric
        → Ready n use_distance a At Between t
    Settled-Ready t (sound, waits, _, at) done = (
      sound,
      λ v m at. elim (waits v m at) [
        | inl mem ↦ inl mem
        | inr (inl settled) ↦ inr (inl settled)
        | inr (inr (same, same_metric)) ↦ inr (
            inl (
              subst (λ u. Settled n use_distance a t u m) (sym same)
                (subst (Settled n use_distance a t top.graph_stop) (sym same_metric) done)))
      ],
      upkeep.closes top t at done,
    )

  pub visit_all-Ends :
      (fuel : ℕ) (s : Search)
      → Ready n use_distance a At Between s
      → size (all_stops n) s < fuel
      → Ends n use_distance a At Between fuel s
  unfolding visit_all
  visit_all-Ends zero s ready h = absurd (omega arith)
  visit_all-Ends (suc fuel) s (sound, waits, between) h = elim (queue-cases s.nodes_to_visit) [
    | inl ends ↦
        (s, ground (arith, ends), (sound, waits, between), ends, λ v m at. (m, at, omega arith))
    | inr (e, q, queue) ↦
        let ((k, d, walk, same), has) =
          sound.queued (least e q).0 (mem-queue e q s queue (least e q).0 (least-top e q)) in
        let (node, at) =
          Walk-station n wf use_distance a home at_home (least e q).0.graph_stop k d walk in
        let y =
          visit-Yields n use_distance a At upkeep.keeps wf home at_home (least e q).0
            (k, d, walk, same) node at (popped e q s)
            (popped-Visiting e q s queue (sound, waits, between)) in
        let (t, runs, ready, ends, lowers) =
          visit_all-Ends fuel y.state (Settled-Ready e q s queue y.state y.invariant y.is_done)
            (omega (arith, y.is_after.1, length-least e q, ap length queue, h)) in
        (
          t,
          ground (arith, queue, y.is_result, runs),
          ready,
          ends,
          Lowers-trans n use_distance a s y.state t y.is_after.0 lowers,
        )
  ]
