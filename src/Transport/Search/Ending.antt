-- ===== src/Transport/Search/Ending.antt =====
-- The start and the end of the loop over the priority queue.
use mathlib.Core.List.{Memᴰ}
use mathlib.Core.List.Memᴰ
use learncppthroughprojects.Prelude.{
  ℕ, ◌+◌, ◌*◌, ◌≤◌, Bool, none, some, [], Text, ◌≡◌, ◌≢◌, inl, inr, refl, sym, subst, arith, length,
  Bool-cases, ◌==◌, eq_iff, text_eq, u32, u32_mod,
}
use learncppthroughprojects.Map.{lookup, insert, lookup-insert_self}
use learncppthroughprojects.Transport.Types.{StationNode, TransportNetwork}
use learncppthroughprojects.Transport.Network.{get_station_node}
use learncppthroughprojects.Transport.WellFormed.{IsWellFormed}
use learncppthroughprojects.Transport.Search.{
  GraphStop, graph_stop_eq, GraphStopMetric, first_stop, Search, distance_of, least, start_search,
  paths_to, nearest,
}
use learncppthroughprojects.Transport.Search.Queue.{
  least-top, queue-cases, least-le, paths_to-mem, paths_to_sound, lookup-mem,
}
use learncppthroughprojects.Transport.Search.Walks.{Walk, stays, hop}
use learncppthroughprojects.Transport.Search.Measure.{all_stops, metric_or_top, metrics-bound}
use learncppthroughprojects.Transport.Search.Relaxing.{Reached, Timed, Has, Sound, Lowers}
use learncppthroughprojects.Transport.Search.Shortest.{Ready, Upkeep, Ends, visit_all-Ends}

module _ (n : TransportNetwork) (use_distance : Bool) (a : Text) where
  start_Reached : Reached n use_distance a (first_stop a) 0
  unfolding u32
  start_Reached = (0, 0, stays, refl)

  pub start-found : lookup (first_stop a) (start_search a).metric_from_a ≡ some 0
  unfolding insert
  start-found = lookup-insert_self (first_stop a) 0 []

  pub start-only :
      (v : GraphStop) (m : ℕ)
      → lookup v (start_search a).metric_from_a ≡ some m
      → (first_stop a ≡ v) × (0 ≡ m)
  unfolding lookup
  start-only v m at = elim (Bool-cases (first_stop a == v)) [
    | inl e ↦ ((eq_iff (first_stop a) v).0 e, ground (arith, at, e))
    | inr e ↦ absurd (ground (arith, at, e))
  ]

  start-Sound : Sound n use_distance a (start_search a)
  unfolding u32
  start-Sound = record {
    entered = λ v m mem.
        let same = Memᴰ.eq_of_singleton mem in
        subst (λ z. Reached n use_distance a z.0 z.1) (sym same) start_Reached;
    timed = λ v m at.
        let (same, _) = start-only v m at in
        subst (λ z. Timed n use_distance a z (distance_of z (start_search a))) same
          (0, 0, stays, ground (arith, start-found));
    queued = λ e mem.
        subst
          (λ z.
            Reached n use_distance a z.graph_stop z.metric
            × Has n use_distance a z.graph_stop (start_search a))
          (sym (Memᴰ.eq_of_singleton mem)) (start_Reached, (0, start-found));
  }

  -- Enough rounds for any network.
  abbrev pub rounds : ℕ
  rounds = 2 * (length (all_stops n) * u32_mod) + 2

  pub start-metric_le : (u : GraphStop) → metric_or_top u (start_search a).metric_from_a ≤ u32_mod
  unfolding lookup
  start-metric_le u = ground arith

module _ (n : TransportNetwork) (use_distance : Bool) (a : Text)
    (At : GraphStopMetric → Search → Type 0) (Between : Search → Type 0) where
  -- When the queue is empty, no walk is better.
  module _ (t : Search) (ready : Ready n use_distance a At Between t) (ends : t.nodes_to_visit ≡ [])
      (lowers : Lowers n use_distance a (start_search a) t) where
    pub Walk-le :
        (v : GraphStop) (k d : ℕ)
        → Walk n use_distance a v k d
        → (m : ℕ) × (lookup v t.metric_from_a ≡ some m) × (m ≤ k)
    Walk-le _ k d stays = lowers (first_stop a) 0 (start-found n use_distance a)
    Walk-le _ _ _ (hop v to meta k d w time walk is_hop is_cost) =
        let (m, at, le) = Walk-le v k d walk in
        elim (ready.1 v m at) [
          | inl mem ↦
              absurd (Memᴰ.not-nil (subst (Memᴰ (record { graph_stop = v; metric = m })) ends mem))
          | inr (inl settled) ↦
              let (m', at', le') = settled to meta is_hop w time is_cost in
              (m', at', omega (arith, le, le'))
          | inr (inr none_left) ↦ absurd none_left
        ]

    -- An entry at a station is the metric and the travel time of walks.
    pub entry-walks :
        (b : Text) (e : GraphStopMetric)
        → Memᴰ e (paths_to b t.metric_from_a)
        → (e.graph_stop.station_id ≡ b)
          × Reached n use_distance a e.graph_stop e.metric
          × Timed n use_distance a e.graph_stop (distance_of e.graph_stop t)
    entry-walks b e h =
        let (at, mem) = paths_to_sound b t.metric_from_a e h in
        let (m', found) = lookup-mem e.graph_stop e.metric t.metric_from_a mem in
        (at, ready.0.entered e.graph_stop e.metric mem, ready.0.timed e.graph_stop m' found)

    pub nearest-lem :
        (b : Text) (v : GraphStop) (k d : ℕ)
        → Walk n use_distance a v k d
        → v.station_id ≡ b
        → (e : GraphStopMetric) × (nearest b t ≡ some e)
          × (e.graph_stop.station_id ≡ b)
          × (e.metric ≤ k)
          × Reached n use_distance a e.graph_stop e.metric
          × Timed n use_distance a e.graph_stop (distance_of e.graph_stop t)
    unfolding nearest
    nearest-lem b v k d walk at =
        let (m, found, le) = Walk-le v k d walk in
        let mem = paths_to-mem b t.metric_from_a v m found at in
        elim (queue-cases (paths_to b t.metric_from_a)) [
          | inl none_there ↦ absurd (Memᴰ.not-nil (subst (Memᴰ _) none_there mem))
          | inr (e, q, paths) ↦
              let best = (least e q).0 in
              let (at_b, is_walk, is_timed) =
                entry-walks b best (subst (Memᴰ best) (sym paths) (least-top e q)) in
              (
                best,
                ground (arith, paths),
                at_b,
                omega (arith, le, least-le e q _ (subst (Memᴰ _) paths mem)),
                is_walk,
                is_timed,
              )
        ]

    pub nearest-none :
        (b : Text)
        → ((v : GraphStop) (k d : ℕ) → Walk n use_distance a v k d → v.station_id ≢ b)
        → nearest b t ≡ none
    unfolding nearest
    nearest-none b none_there = elim (queue-cases (paths_to b t.metric_from_a)) [
      | inl empty ↦ ground (arith, empty)
      | inr (e, q, paths) ↦
          let (at, (k, d, walk, _), _) =
            entry-walks b e (subst (Memᴰ e) (sym paths) (Memᴰ.head refl)) in
          absurd (none_there e.graph_stop k d walk at)
    ]

  start-Ready : Between (start_search a) → Ready n use_distance a At Between (start_search a)
  start-Ready begins = (
    start-Sound n use_distance a,
    λ v m at.
        let (same, same_metric) = start-only n use_distance a v m at in
        inl (Memᴰ.head (ground (arith, same, same_metric))),
    begins,
  )

  module _ (wf : IsWellFormed n) (home : StationNode) (at_home : get_station_node a n ≡ some home)
      (upkeep : Upkeep n use_distance a At Between) (begins : Between (start_search a)) (fuel : ℕ)
      (enough : rounds n use_distance a ≤ fuel) where
    pub start-Ends : Ends n use_distance a At Between fuel (start_search a)
    start-Ends =
        visit_all-Ends n use_distance a At Between upkeep wf home at_home fuel (start_search a)
          (start-Ready begins)
          (omega (
            arith,
            enough,
            metrics-bound (all_stops n) (start_search a).metric_from_a
                (start-metric_le n use_distance a),
          ))
