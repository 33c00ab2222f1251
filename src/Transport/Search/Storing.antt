-- ===== src/Transport/Search/Storing.antt =====
-- What a better metric that is stored does to the parents of the stops.
use mathlib.Core.List.{Memᴰ}
use mathlib.Core.List.Memᴰ
use learncppthroughprojects.Prelude.{
  ℕ, suc, ◌+◌, ◌≤◌, ◌<◌, Bool, true, false, some, List, ◌∷◌, Text, ◌≡◌, ◌⊎◌, inl, inr, refl, ap,
  sym, subst, ◌∙◌, arith, returns, Bool-cases, if◌then◌else◌, ◌==◌, eq_iff, eq_refl, text_eq, u32,
  u32-lt, u32-eq_of_lt, ltb,
}
use learncppthroughprojects.Map.{lookup, lookup-insert, lookup-insert_self, insert-IsDistinct}
use learncppthroughprojects.Transport.Types.{RouteMetadata, TransportNetwork}
use learncppthroughprojects.Transport.Search.{
  GraphStop, graph_stop_eq, GraphStopMetric, first_stop, stop_on, is_better, Search, store,
  distance_of,
}
use learncppthroughprojects.Transport.Search.Walks.{IsHop, cost}
use learncppthroughprojects.Transport.Search.Measure.{
  all_stops, IsHop-mem, metric_or_top, metrics-insert_lt,
}
use learncppthroughprojects.Transport.Search.Relaxing.{Lowers, Settled}
use learncppthroughprojects.Transport.Search.Trails.{
  Trail, goes, Trail-mem, IsBounded, stop_on-ne-first_stop, cost-first_stop,
}
use learncppthroughprojects.Transport.Search.Parents.{maps_of, Link, Tree, Covered, Label}

module _ (n : TransportNetwork) (use_distance : Bool) (a : Text) where
  module _ (bounded : IsBounded n use_distance a) (top : GraphStopMetric) (to : Text)
      (meta : RouteMetadata) (w t : ℕ) (s : Search)
      (is_hop : IsHop n top.graph_stop.station_id to meta)
      (is_cost : cost n use_distance top.graph_stop to meta ≡ returns (w, t))
      (better : is_better (u32 (top.metric + w)) (lookup (stop_on to meta) s.metric_from_a) ≡ true)
      (label : Label n use_distance a s top) where
    abbrev v : GraphStop
    v = stop_on to meta

    abbrev m : ℕ
    m = u32 (top.metric + w)

    abbrev stored : Search
    stored = store top.graph_stop v m (u32 (distance_of top.graph_stop s + t)) s

    exact : m ≡ top.metric + w
    exact =
        let (vs, d, trail, _) = label in
        u32-eq_of_lt (top.metric + w)
          (bounded vs top.graph_stop top.metric d to meta w t trail is_hop is_cost)

    -- A stop that is better was not on the trail.
    free : (vs : List GraphStop) → Covered n use_distance a s vs top.metric → ¬ Memᴰ v vs
    free vs covered mem = let (old, at, le) = covered v mem in ground (arith, better, at, le, exact)

    top_metric : (k : ℕ) × (lookup top.graph_stop s.metric_from_a ≡ some k) × (k ≤ top.metric)
    top_metric =
        let (vs, d, trail, covered) = label in
        covered top.graph_stop (Trail-mem n use_distance a vs top.graph_stop top.metric d trail)

    top_ne : (v == top.graph_stop) ≡ false
    top_ne =
        let (vs, d, trail, covered) = label in
        elim (Bool-cases (v == top.graph_stop)) [
          | inr e ↦ e
          | inl e ↦ absurd (
              free vs covered (
                subst (λ z. Memᴰ z vs) (sym ((eq_iff v top.graph_stop).0 e))
                  (Trail-mem n use_distance a vs top.graph_stop top.metric d trail)))
        ]

    pub store-Label :
        Lowers n use_distance a s stored
        → Label n use_distance a stored (record { graph_stop = v; metric = m })
    store-Label lowers =
        let (vs, d, trail, covered) = label in
        (
          v ∷ vs,
          d + t,
          subst (λ k. Trail n use_distance a (v ∷ vs) v k (d + t)) (sym exact)
              (goes vs top.graph_stop to meta top.metric d w t trail is_hop is_cost
                (free vs covered)),
          λ u mem. elim (Memᴰ.cases_cons mem) [
            | inl e ↦ (
              m,
              subst (λ z. lookup z stored.metric_from_a ≡ some m) (sym e)
                  (lookup-insert_self v m s.metric_from_a),
              omega arith,
            )
            | inr old ↦
                let (k, at, le) = covered u old in
                let (k', at', le') = lowers u k at in (k', at', omega (arith, le, le', exact))
          ],
        )

    distance_there : distance_of v stored ≡ u32 (distance_of top.graph_stop s + t)
    distance_there =
        ground
          (arith, lookup-insert_self v (u32 (distance_of top.graph_stop s + t)) s.distance_from_a)

    distance_elsewhere : (u : GraphStop) → (v == u) ≡ false → distance_of u stored ≡ distance_of u s
    distance_elsewhere u ne =
        ground
          (arith, lookup-insert v u (u32 (distance_of top.graph_stop s + t)) s.distance_from_a, ne)

    metric_elsewhere :
        (u : GraphStop)
        → (v == u) ≡ false
        → lookup u stored.metric_from_a ≡ lookup u s.metric_from_a
    metric_elsewhere u ne = ground (arith, lookup-insert v u m s.metric_from_a, ne)

    -- The parent of `v` is the top.
    new_away :
        (top.graph_stop ≡ first_stop a) ⊎ Settled n use_distance a s (first_stop a) 0
        → top.graph_stop.station_id ≡ a
        → top.graph_stop ≡ first_stop a
    new_away (inl e) at = e
    new_away (inr settled) at =
        let (w0, t0, is_cost0, le) =
          cost-first_stop n use_distance a top.graph_stop to meta w t is_cost in
        let (old, found, le') =
          settled to meta (subst (λ z. IsHop n z to meta) at is_hop) w0 t0 is_cost0 in
        absurd (ground (arith, better, found, le, le', exact))

    module _ (tree : Tree n use_distance a (maps_of s))
        (home : (top.graph_stop ≡ first_stop a) ⊎ Settled n use_distance a s (first_stop a) 0) where
      abbrev new_rank : GraphStop → ℕ
      new_rank u = if v == u then suc tree.stores else tree.rank u

      new_rank_lt :
          (u : GraphStop) (k : ℕ)
          → (v == u) ≡ false
          → lookup u s.metric_from_a ≡ some k
          → new_rank u < new_rank v
      new_rank_lt u k ne at = ground (arith, ne, eq_refl v, tree.ranked u k at)

      new_Link : Link n use_distance a new_rank (maps_of stored) v m
      new_Link =
          let (k, at, le) = top_metric in
          record {
            parent = top.graph_stop;
            to = to;
            meta = meta;
            w = w;
            t = t;
            parent_metric = k;
            is_stop = refl;
            is_hop = is_hop;
            is_cost = is_cost;
            is_parent = lookup-insert_self v top.graph_stop s.station_id_to_parent;
            is_metric =
                ground (arith, lookup-insert v top.graph_stop m s.metric_from_a, top_ne, at);
            away = new_away home;
            tie = elim (Bool-cases (ltb k top.metric)) [
              | inl e ↦ inl (ground (arith, e, exact))
              | inr e ↦ inr (
                ground (arith, e, le, exact),
                distance_there
                    ∙ ap (λ x. u32 (x + t)) (sym (distance_elsewhere top.graph_stop top_ne)),
                new_rank_lt top.graph_stop k top_ne at,
              )
            ];
          }

      old_Link :
          (u : GraphStop) (m1 : ℕ)
          → (v == u) ≡ false
          → Link n use_distance a tree.rank (maps_of s) u m1
          → Link n use_distance a new_rank (maps_of stored) u m1
      old_Link u m1 ne l = elim (Bool-cases (v == l.parent)) [
        | inl e ↦ record {
          parent = l.parent;
          to = l.to;
          meta = l.meta;
          w = l.w;
          t = l.t;
          parent_metric = m;
          is_stop = l.is_stop;
          is_hop = l.is_hop;
          is_cost = l.is_cost;
          is_parent =
              ground
                (arith, lookup-insert v u top.graph_stop s.station_id_to_parent, ne, l.is_parent);
          is_metric = ground (arith, lookup-insert v l.parent m s.metric_from_a, e);
          away = l.away;
          tie =
              let same : v ≡ l.parent = (eq_iff v l.parent).0 e in
              let at_v : lookup v s.metric_from_a ≡ some l.parent_metric =
                subst (λ z. lookup z s.metric_from_a ≡ some l.parent_metric) (sym same)
                  l.is_metric in
              let less : m < l.parent_metric = ground (arith, better, at_v) in
              inl (elim l.tie [
                | inl lower ↦ omega (arith, lower, less)
                | inr (equal, _, _) ↦ omega (arith, equal, less)
              ]);
        }
        | inr e ↦ record {
          parent = l.parent;
          to = l.to;
          meta = l.meta;
          w = l.w;
          t = l.t;
          parent_metric = l.parent_metric;
          is_stop = l.is_stop;
          is_hop = l.is_hop;
          is_cost = l.is_cost;
          is_parent =
              ground
                (arith, lookup-insert v u top.graph_stop s.station_id_to_parent, ne, l.is_parent);
          is_metric = metric_elsewhere l.parent e ∙ l.is_metric;
          away = l.away;
          tie = elim l.tie [
            | inl lower ↦ inl lower
            | inr (equal, distance, before) ↦ inr (
              equal,
              distance_elsewhere u ne
                  ∙ distance
                  ∙ ap (λ x. u32 (x + l.t)) (sym (distance_elsewhere l.parent e)),
              ground (arith, ne, e, before),
            )
          ];
        }
      ]

      pub store-Tree : Tree n use_distance a (maps_of stored)
      store-Tree = record {
        rank = new_rank;
        stores = suc tree.stores;
        linked = λ u m1 at. elim (Bool-cases (v == u)) [
          | inl e ↦
              let same : v ≡ u = (eq_iff v u).0 e in
              let same_metric : m ≡ m1 =
                ground (arith, lookup-insert v u m s.metric_from_a, e, at) in
              inr (
                subst (λ z. Link n use_distance a new_rank (maps_of stored) z m1) same
                  (subst (Link n use_distance a new_rank (maps_of stored) v) same_metric new_Link))
          | inr e ↦
              let old : lookup u s.metric_from_a ≡ some m1 = sym (metric_elsewhere u e) ∙ at in
              elim (tree.linked u m1 old) [
                | inl first ↦ inl first
                | inr l ↦ inr (old_Link u m1 e l)
              ]
        ];
        ranked = λ u m1 at. elim (Bool-cases (v == u)) [
          | inl e ↦ ground (arith, e)
          | inr e ↦ ground (arith, e, tree.ranked u m1 (sym (metric_elsewhere u e) ∙ at))
        ];
        spent =
            let less : m < metric_or_top v s.metric_from_a =
              ground (arith, better, u32-lt (top.metric + w)) in
            omega (
              arith,
              tree.spent,
              metrics-insert_lt v m s.metric_from_a less (all_stops n)
                  (IsHop-mem n top.graph_stop.station_id to meta is_hop),
            );
        origin = metric_elsewhere (first_stop a) (stop_on-ne-first_stop to meta a) ∙ tree.origin;
        origin_distance =
            distance_elsewhere (first_stop a) (stop_on-ne-first_stop to meta a)
            ∙ tree.origin_distance;
        keys = insert-IsDistinct v m s.metric_from_a tree.keys;
      }
