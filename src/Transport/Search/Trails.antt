-- ===== src/Transport/Search/Trails.antt =====
-- Walks that come to no stop twice, and the steps of a travel route.
use mathlib.Core.List.{Memᴰ}
use learncppthroughprojects.Prelude.{
  ℕ, ◌+◌, ◌≤◌, ◌<◌, Bool, true, false, List, [], ◌∷◌, Text, ◌≡◌, inl, inr, refl, arith, returns,
  Bool-cases, ◌==◌, eq_iff, text_eq, u32, u32_mod,
}
use learncppthroughprojects.Transport.Types.{RouteMetadata, RouteStep, TransportNetwork}
use learncppthroughprojects.Transport.Search.{
  GraphStop, graph_stop_eq, first_stop, stop_on, weight, changes,
}
use learncppthroughprojects.Transport.Search.Walks.{IsHop, Walk, stays, hop, cost, cost-Parts}

-- The stops that a trail has come to, the last of them first.
pub data Trail (n : TransportNetwork) (use_distance : Bool) (a : Text)
    : List GraphStop → GraphStop → ℕ → ℕ → Type 0 where
  begins : Trail n use_distance a (first_stop a ∷ []) (first_stop a) 0 0
  goes :
      (vs : List GraphStop) (v : GraphStop) (to : Text) (m : RouteMetadata) (k d w t : ℕ)
      → Trail n use_distance a vs v k d
      → IsHop n v.station_id to m
      → cost n use_distance v to m ≡ returns (w, t)
      → ¬ Memᴰ (stop_on to m) vs
      → Trail n use_distance a (stop_on to m ∷ vs) (stop_on to m) (k + w) (d + t)

pub Trail-mem :
    (n : TransportNetwork) (use_distance : Bool) (a : Text) (vs : List GraphStop) (v : GraphStop)
    (k d : ℕ)
    → Trail n use_distance a vs v k d
    → Memᴰ v vs
Trail-mem n use_distance a _ _ k d begins = Memᴰ.head refl
Trail-mem n use_distance a _ _ k d (goes vs v to m _ _ _ _ trail h e free) = Memᴰ.head refl

-- A trail is a walk.
pub Trail-Walk :
    (n : TransportNetwork) (use_distance : Bool) (a : Text) (vs : List GraphStop) (v : GraphStop)
    (k d : ℕ)
    → Trail n use_distance a vs v k d
    → Walk n use_distance a v k d
Trail-Walk n use_distance a _ _ k d begins = stays
Trail-Walk n use_distance a _ _ _ _ (goes vs v to m k d w t trail h e free) =
    hop v to m k d w t (Trail-Walk n use_distance a vs v k d trail) h e

-- No trail, with one hop more, has a metric of 2 ^ 32 or more.
abbrev pub IsBounded : TransportNetwork → Bool → Text → Type 0
IsBounded n use_distance a =
    (vs : List GraphStop) (v : GraphStop) (k d : ℕ) (to : Text) (m : RouteMetadata) (w t : ℕ)
    → Trail n use_distance a vs v k d
    → IsHop n v.station_id to m
    → cost n use_distance v to m ≡ returns (w, t)
    → k + w < u32_mod

-- The steps lead from a stop to another, over hops of the network; with the sums of their metrics
-- and of their times.
pub data Rides (n : TransportNetwork) (use_distance : Bool)
    : GraphStop → GraphStop → List RouteStep → ℕ → ℕ → Type 0 where
  arrives : (v : GraphStop) → Rides n use_distance v v [] 0 0
  rides :
      (v z : GraphStop) (to : Text) (m : RouteMetadata) (steps : List RouteStep) (k d w t : ℕ)
      → IsHop n v.station_id to m
      → cost n use_distance v to m ≡ returns (w, t)
      → Rides n use_distance (stop_on to m) z steps k d
      → Rides n use_distance v z
          (record {
            start_station_id = v.station_id;
            end_station_id = to;
            line_id = m.line_id;
            route_id = m.route_id;
            travel_time = u32 t;
          }
            ∷ steps)
          (w + k)
          (t + d)

pub stop_on-ne-first_stop :
    (to : Text) (m : RouteMetadata) (a : Text) → (stop_on to m == first_stop a) ≡ false
stop_on-ne-first_stop to m a = ground (arith, eq_iff (stop_on to m) (first_stop a))

-- From the first stop a hop costs no more than from another stop at its station.
pub cost-first_stop :
    (n : TransportNetwork) (use_distance : Bool) (a : Text) (v : GraphStop) (to : Text)
    (m : RouteMetadata) (w t : ℕ)
    → cost n use_distance v to m ≡ returns (w, t)
    → (w0 : ℕ) × (t0 : ℕ) × (cost n use_distance (first_stop a) to m ≡ returns (w0, t0)) × (w0 ≤ w)
unfolding changes
cost-first_stop n use_distance a v to m w t h =
    let parts = cost-Parts n use_distance v to m w t h in
    (parts.weighed + 0, m.travel_time + 0, rw parts.is_weight refl, omega (arith, parts.metric_sum))

-- By travel time, the metric of a hop is its time.
pub cost-time :
    (n : TransportNetwork) (v : GraphStop) (to : Text) (m : RouteMetadata) (w t : ℕ)
    → cost n true v to m ≡ returns (w, t)
    → w ≡ t
unfolding weight
cost-time n v to m w t h =
    let parts = cost-Parts n true v to m w t h in
    elim (Bool-cases parts.changed) [
      | inl e ↦ ground (arith, parts.is_weight, parts.is_extra, parts.metric_sum, parts.time_sum, e)
      | inr e ↦ ground (arith, parts.is_weight, parts.is_extra, parts.metric_sum, parts.time_sum, e)
    ]

pub Rides-time :
    (n : TransportNetwork) (v z : GraphStop) (steps : List RouteStep) (k d : ℕ)
    → Rides n true v z steps k d
    → k ≡ d
Rides-time n _ _ _ _ _ (arrives v) = refl
Rides-time n _ _ _ _ _ (rides v z to m steps k d w t h e rest) =
    omega (arith, cost-time n v to m w t e, Rides-time n (stop_on to m) z steps k d rest)

pub Walk-time :
    (n : TransportNetwork) (a : Text) (v : GraphStop) (k d : ℕ) → Walk n true a v k d → k ≡ d
Walk-time n a _ _ _ stays = refl
Walk-time n a _ _ _ (hop v to m k d w t walk h e) =
    omega (arith, cost-time n v to m w t e, Walk-time n a v k d walk)
