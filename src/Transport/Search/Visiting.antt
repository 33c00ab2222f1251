-- ===== src/Transport/Search/Visiting.antt =====
-- The two loops over the neighbors of a stop and their routes.
use mathlib.Core.List.{Memᴰ}
use learncppthroughprojects.Prelude.{
  ℕ, ◌+◌, ◌≤◌, Bool, true, false, some, List, Text, ◌≡◌, inl, inr, refl, sym, ap, subst, ◌∙◌, arith,
  returns, Bool-cases, Option-cases, if◌then◌else◌, u32, u32-lt, u32-le, u32-add_u32, u32-add_left,
  Yields, for_each-Yields,
}
use learncppthroughprojects.Map.{lookup, lookup-insert_self}
use learncppthroughprojects.Transport.Types.{RouteMetadata, StationNode, TransportNetwork}
use learncppthroughprojects.Transport.Network.{get_station_node}
use learncppthroughprojects.Transport.WellFormed.{IsWellFormed}
use learncppthroughprojects.Transport.Search.{
  GraphStop, graph_stop_eq, GraphStopMetric, stop_on, is_better, Search, store, distance_of, relax,
  relax_all, visit, penalty,
}
use learncppthroughprojects.Transport.Search.Walks.{
  IsHop, hop, hops, cost, Parts, cost-Parts, cost-returns,
}
use learncppthroughprojects.Transport.Search.Measure.{all_stops, IsHop-mem, size}
use learncppthroughprojects.Transport.Search.Relaxing.{
  Reached, Timed, Has, Sound, Lowers, Lowers-trans, Relaxed, Relaxed-Lowers, Settled, Open,
  store-Lowers, store-Sound, store-Open, store-size,
}

-- What else is to be known while the neighbors of a stop are visited is `At`.
module _ (n : TransportNetwork) (use_distance : Bool) (a : Text)
    (At : GraphStopMetric → Search → Type 0) where
  -- The stop whose neighbors are visited is left out.
  abbrev pub IsTop : GraphStopMetric → GraphStop → ℕ → Type 0
  IsTop top v m = (v ≡ top.graph_stop) × (m ≡ top.metric)

  abbrev pub Visiting : GraphStopMetric → Search → Type 0
  Visiting top s =
      Sound n use_distance a s
      × Open n use_distance a (IsTop top) s
      × Has n use_distance a top.graph_stop s
      × At top s

  -- A better metric that is stored keeps it.
  abbrev pub Keeps : Type 0
  Keeps =
      (top : GraphStopMetric) (to : Text) (meta : RouteMetadata) (w t : ℕ) (s : Search)
      → IsHop n top.graph_stop.station_id to meta
      → cost n use_distance top.graph_stop to meta ≡ returns (w, t)
      → is_better (u32 (top.metric + w)) (lookup (stop_on to meta) s.metric_from_a) ≡ true
      → Lowers n use_distance a s (
          store top.graph_stop (stop_on to meta) (u32 (top.metric + w))
            (u32 (distance_of top.graph_stop s + t)) s)
      → At top s
      → At top (
          store top.graph_stop (stop_on to meta) (u32 (top.metric + w))
            (u32 (distance_of top.graph_stop s + t)) s)

  abbrev pub Before : Search → Search → Type 0
  Before s s' = Lowers n use_distance a s s' × (size (all_stops n) s' ≤ size (all_stops n) s)

  Before-trans : (r s t : Search) → Before r s → Before s t → Before r t
  Before-trans r s t (h, i) (k, j) = (Lowers-trans n use_distance a r s t h k, omega (arith, i, j))

  Before-refl : (s : Search) → Before s s
  Before-refl s = ((λ v m at. (m, at, omega arith)), omega arith)

  module _ (keeps : Keeps) (top : GraphStopMetric)
      (is_walk : Reached n use_distance a top.graph_stop top.metric) (to : Text)
      (meta : RouteMetadata) (w t : ℕ) (is_hop : IsHop n top.graph_stop.station_id to meta)
      (is_cost : cost n use_distance top.graph_stop to meta ≡ returns (w, t)) where
    parts : Parts n use_distance top.graph_stop to meta w t
    parts = cost-Parts n use_distance top.graph_stop to meta w t is_cost

    abbrev new_metric : ℕ
    new_metric = u32 (top.metric + w)

    abbrev new_distance : Search → ℕ
    new_distance s = u32 (distance_of top.graph_stop s + t)

    abbrev better : Search → Bool
    better s = is_better new_metric (lookup (stop_on to meta) s.metric_from_a)

    abbrev update : Search → Search
    update s =
        if better s then store top.graph_stop (stop_on to meta) new_metric (new_distance s) s else s

    relax-update : (s : Search) → relax n use_distance top to meta s ≡ returns (update s)
    unfolding relax
    relax-update s =
        let same_metric : u32 (u32 (top.metric + parts.weighed) + parts.extra) ≡ new_metric =
          u32-add_u32 top.metric parts.weighed parts.extra
          ∙ ap (λ x. u32 (top.metric + x)) parts.metric_sum in
        let same_distance : u32 (
              u32 (distance_of top.graph_stop s + meta.travel_time)
              + (if parts.changed then penalty else 0))
            ≡ new_distance s =
          u32-add_u32 (distance_of top.graph_stop s) meta.travel_time
            (if parts.changed then penalty else 0)
          ∙ ap (λ x. u32 (distance_of top.graph_stop s + x)) parts.time_sum in
        rw (parts.is_weight, parts.is_change, parts.is_extra, same_metric, same_distance) refl

    new_metric-Reached : Reached n use_distance a (stop_on to meta) new_metric
    new_metric-Reached =
        let (k, d, walk, same) = is_walk in
        (
          k + w,
          d + t,
          hop top.graph_stop to meta k d w t walk is_hop is_cost,
          ap (λ x. u32 (x + w)) same ∙ u32-add_left k w,
        )

    new_distance-Timed :
        (s : Search)
        → Timed n use_distance a top.graph_stop (distance_of top.graph_stop s)
        → Timed n use_distance a (stop_on to meta) (new_distance s)
    new_distance-Timed s (k, d, walk, same) = (
      k + w,
      d + t,
      hop top.graph_stop to meta k d w t walk is_hop is_cost,
      ap (λ x. u32 (x + t)) same ∙ u32-add_left d t,
    )

    new_metric_le : new_metric ≤ top.metric + w
    new_metric_le = u32-le (top.metric + w)

    cost_unique :
        (w' t' : ℕ) → cost n use_distance top.graph_stop to meta ≡ returns (w', t') → w ≡ w'
    cost_unique w' t' h =
        let both : returns (w, t) ≡ returns (w', t') = sym is_cost ∙ h in ground (arith, both)

    Visits : Search → Type 0
    Visits s =
        Yields (Visiting top) Before (Relaxed n use_distance a top.graph_stop top.metric to meta) s
          (relax n use_distance top to meta s)

    store-Visits : (s : Search) → Visiting top s → better s ≡ true → Visits s
    unfolding Visits
    store-Visits s (sound, waits, (m, at), more) is_better =
        let is_timed = new_distance-Timed s (sound.timed top.graph_stop m at) in
        let lowers =
          store-Lowers n use_distance a top.graph_stop (stop_on to meta) new_metric (new_distance s)
            s is_better new_metric-Reached is_timed in
        let (m1, at1, _) = lowers top.graph_stop m at in
        record {
          state = store top.graph_stop (stop_on to meta) new_metric (new_distance s) s;
          is_result = relax-update s ∙ rw is_better refl;
          invariant = (
            store-Sound n use_distance a top.graph_stop (stop_on to meta) new_metric
                (new_distance s) s is_better new_metric-Reached is_timed sound,
            store-Open n use_distance a top.graph_stop (stop_on to meta) new_metric (new_distance s)
                s is_better new_metric-Reached is_timed (IsTop top) waits,
            (m1, at1),
            keeps top to meta w t s is_hop is_cost is_better lowers more,
          );
          is_after = (
            lowers,
            store-size n use_distance a top.graph_stop (stop_on to meta) new_metric (new_distance s)
                s is_better new_metric-Reached is_timed (IsHop-mem n _ to meta is_hop) (u32-lt _),
          );
          is_done = λ w' t' h. (
            new_metric,
            lookup-insert_self (stop_on to meta) new_metric s.metric_from_a,
            omega (arith, new_metric_le, cost_unique w' t' h),
          );
        }

    keep-Visits : (s : Search) → Visiting top s → better s ≡ false → Visits s
    unfolding Visits
    keep-Visits s inv worse = elim (Option-cases (lookup (stop_on to meta) s.metric_from_a)) [
      | inl e ↦ absurd (ground (arith, worse, e))
      | inr (old, e) ↦ record {
        state = s;
        is_result = relax-update s ∙ rw worse refl;
        invariant = inv;
        is_after = Before-refl s;
        is_done = λ w' t' h. (old, e, ground (arith, worse, e, new_metric_le, cost_unique w' t' h));
      }
    ]

    relax-Yields :
        (s : Search)
        → Visiting top s
        → Yields
            (Visiting top)
            Before
            (Relaxed n use_distance a top.graph_stop top.metric to meta)
            s
            (relax n use_distance top to meta s)
    unfolding Visits
    relax-Yields s inv = elim (Bool-cases (better s)) [
      | inl e ↦ store-Visits s inv e
      | inr e ↦ keep-Visits s inv e
    ]

  module _ (keeps : Keeps) (wf : IsWellFormed n) (home : StationNode)
      (at_home : get_station_node a n ≡ some home) (top : GraphStopMetric)
      (is_walk : Reached n use_distance a top.graph_stop top.metric) (node : StationNode)
      (at : get_station_node top.graph_stop.station_id n ≡ some node) where
    abbrev RelaxedAll : Text × List RouteMetadata → Search → Type 0
    RelaxedAll entry s =
        (meta : RouteMetadata)
        → Memᴰ meta entry.1
        → Relaxed n use_distance a top.graph_stop top.metric entry.0 meta s

    relax_all-Yields :
        (entry : Text × List RouteMetadata) (s : Search)
        → Memᴰ entry (hops n node)
        → Visiting top s
        → Yields (Visiting top) Before (RelaxedAll entry) s (relax_all n use_distance top entry s)
    relax_all-Yields (to, metadata) s mem =
        for_each-Yields (relax n use_distance top to) (Visiting top) Before
          (Relaxed n use_distance a top.graph_stop top.metric to) Before-refl Before-trans
          (λ meta r t h. Relaxed-Lowers n use_distance a top.graph_stop top.metric to meta r t h.0)
          metadata s
          (λ meta t is_route inv.
            let is_hop : IsHop n top.graph_stop.station_id to meta = record {
              node = node;
              metadata = metadata;
              is_station = at;
              is_neighbor = mem;
              is_route = is_route;
            } in
            let (k, d, walk, _) = is_walk in
            let (w, time, is_cost) =
              cost-returns n wf use_distance a home at_home top.graph_stop k d to meta walk
                is_hop in
            relax-Yields keeps top is_walk to meta w time is_hop is_cost t inv)

    pub visit-Yields :
        (s : Search)
        → Visiting top s
        → Yields
            (Visiting top)
            Before
            (λ t. Settled n use_distance a t top.graph_stop top.metric)
            s
            (visit n use_distance top s)
    unfolding visit
    visit-Yields s inv =
        let y =
          for_each-Yields (relax_all n use_distance top) (Visiting top) Before RelaxedAll
            Before-refl Before-trans
            (λ entry r t h done meta mem.
              Relaxed-Lowers n use_distance a top.graph_stop top.metric entry.0 meta r t h.0
                (done meta mem))
            (hops n node) s (λ entry t mem. relax_all-Yields entry t mem) inv in
        record {
          state = y.state;
          is_result = rw (at, visit) y.is_result;
          invariant = y.invariant;
          is_after = y.is_after;
          is_done = λ to meta h.
              let same : h.node ≡ node = ground (arith, h.is_station, at) in
              y.is_done (to, h.metadata)
                (subst (λ z. Memᴰ (to, h.metadata) (hops n z)) same h.is_neighbor) meta h.is_route;
        }
