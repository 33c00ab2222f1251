-- ===== src/Transport/Search/Tracing.antt =====
-- The loop over the parents, behind a search in which no metric overflows.
use mathlib.Core.List.{Memᴰ}
use mathlib.Core.List.Memᴰ
use learncppthroughprojects.Prelude.{
  ◌+◌, Bool, some, List, [], ◌∷◌, Text, ◌≡◌, ◌⊎◌, inl, inr, refl, ap, sym, subst, ◌∙◌, arith,
  eq_refl, text_eq, u32,
}
use learncppthroughprojects.Map.{lookup, contains}
use learncppthroughprojects.Transport.Types.{TransportNetwork}
use learncppthroughprojects.Transport.Search.{
  graph_stop_eq, GraphStopMetric, first_stop, stop_on, Search, store, start_search, distance_of,
  least,
}
use learncppthroughprojects.Transport.Search.Queue.{least-top, least-rest}
use learncppthroughprojects.Transport.Search.Measure.{all_stops, metrics-bound}
use learncppthroughprojects.Transport.Search.Relaxing.{Settled, Relaxed-Lowers}
use learncppthroughprojects.Transport.Search.Shortest.{Upkeep}
use learncppthroughprojects.Transport.Search.Ending.{start-found, start-only, start-metric_le}
use learncppthroughprojects.Transport.Search.Trails.{IsBounded, begins}
use learncppthroughprojects.Transport.Search.Parents.{maps_of, Tree, Label, Label-Lowers}
use learncppthroughprojects.Transport.Search.Storing.{store-Label, store-Tree}

module _ (n : TransportNetwork) (use_distance : Bool) (a : Text) where
  abbrev Labels : Search → Type 0
  Labels s = (e : GraphStopMetric) → Memᴰ e s.nodes_to_visit → Label n use_distance a s e

  abbrev first_entry : GraphStopMetric
  first_entry = record { graph_stop = first_stop a; metric = 0 }

  abbrev pub Between : Search → Type 0
  Between s =
      Tree n use_distance a (maps_of s)
      × Labels s
      × ((s.nodes_to_visit ≡ first_entry ∷ []) ⊎ Settled n use_distance a s (first_stop a) 0)

  abbrev pub At : GraphStopMetric → Search → Type 0
  At top s =
      Tree n use_distance a (maps_of s)
      × Labels s
      × Label n use_distance a s top
      × ((top ≡ first_entry) ⊎ Settled n use_distance a s (first_stop a) 0)

  least-alone :
      (e : GraphStopMetric) (q : List GraphStopMetric)
      → e ∷ q ≡ first_entry ∷ []
      → (least e q).0 ≡ first_entry
  least-alone e q same = Memᴰ.eq_of_singleton (subst (Memᴰ _) same (least-top e q))

  pub upkeep : IsBounded n use_distance a → Upkeep n use_distance a At Between
  upkeep bounded = record {
    keeps = λ top to meta w t s is_hop is_cost better lowers (tree, labels, label, home).
        let home' : (top.graph_stop ≡ first_stop a) ⊎ Settled n use_distance a s (first_stop a) 0 =
          elim home [ inl e ↦ inl (ap (λ x. x.graph_stop) e) | inr settled ↦ inr settled ] in
        let stored : Search =
          store top.graph_stop (stop_on to meta) (u32 (top.metric + w))
            (u32 (distance_of top.graph_stop s + t)) s in
        (
          store-Tree n use_distance a bounded top to meta w t s is_hop is_cost better label tree
              home',
          (λ e mem. elim (Memᴰ.append_cases s.nodes_to_visit mem) [
            | inl old ↦ Label-Lowers n use_distance a s stored e lowers (labels e old)
            | inr new ↦ subst (Label n use_distance a stored) (sym (Memᴰ.eq_of_singleton new)) (
                store-Label n use_distance a bounded top to meta w t s is_hop is_cost better label
                  lowers)
          ]),
          Label-Lowers n use_distance a s stored top lowers label,
          elim home [
            | inl e ↦ inl e
            | inr settled ↦ inr (λ to1 m1 h.
                Relaxed-Lowers n use_distance a (first_stop a) 0 to1 m1 s stored lowers
                  (settled to1 m1 h))
          ],
        );
    pops = λ e q s queue (tree, labels, home). (
      tree,
      (λ x mem. labels x (subst (Memᴰ x) (sym queue) (least-rest e q x mem))),
      labels (least e q).0 (subst (Memᴰ _) (sym queue) (least-top e q)),
      elim home [
        | inl alone ↦ inl (least-alone e q (sym queue ∙ alone))
        | inr settled ↦ inr settled
      ],
    );
    closes = λ top s (tree, labels, label, home) done. (
      tree,
      labels,
      inr (elim home [
        | inl e ↦ subst (λ z. Settled n use_distance a s z.graph_stop z.metric) e done
        | inr settled ↦ settled
      ]),
    );
  }

  start_Tree : Tree n use_distance a (maps_of (start_search a))
  unfolding lookup contains
  start_Tree = record {
    rank = λ v. 0;
    stores = 0;
    linked = λ v m at. let (same, _) = start-only n use_distance a v m at in inl (sym same);
    ranked = λ v m at. omega arith;
    spent = omega (
      arith,
      metrics-bound (all_stops n) (start_search a).metric_from_a (start-metric_le n use_distance a),
    );
    origin = start-found n use_distance a;
    origin_distance = ground (arith, eq_refl (first_stop a));
    keys = (refl, tt);
  }

  start_Label : Label n use_distance a (start_search a) first_entry
  start_Label = (
    first_stop a ∷ [],
    0,
    begins,
    λ u mem. (
      0,
      subst (λ z. lookup z (start_search a).metric_from_a ≡ some 0) (sym (Memᴰ.eq_of_singleton mem))
          (start-found n use_distance a),
      omega arith,
    ),
  )

  pub begins_there : Between (start_search a)
  begins_there = (
    start_Tree,
    λ e mem.
        subst (Label n use_distance a (start_search a)) (sym (Memᴰ.eq_of_singleton mem))
          start_Label,
    inl refl,
  )
