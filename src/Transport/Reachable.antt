-- ===== src/Transport/Reachable.antt =====
-- The networks that a program can build: every operation keeps the invariant.
use learncppthroughprojects.Prelude.{
  ℕ, ◌≤◌, Bool, true, false, none, some, inl, inr, Text, ◌≡◌, refl, sym, ◌∙◌, subst, arith, length,
  get_elem?, get_elem?-some_of_lt, ◌⊎◌, returns, >>=-eq-returns, eq_iff, text_eq, Option-cases,
}
use learncppthroughprojects.Map.{lookup}
use learncppthroughprojects.Transport.Types.{
  Station, Line, PassengerEvent, RouteEdge, StationNode, TransportNetwork,
}
use learncppthroughprojects.Transport.Node.{new_node, get_edge}
use learncppthroughprojects.Transport.Network.{
  new_network, get_station_node, put_node, put_edge, edge_pointer, add_station, add_line,
  record_passenger_event, count_passenger, set_travel_time_directional, set_travel_time,
}
use learncppthroughprojects.Transport.Pointers.{incoming_pointer, get_station_node-put_node}
use learncppthroughprojects.Transport.WellFormed.{IsWellFormed, put_edge-IsWellFormed}
use learncppthroughprojects.Transport.LineWellFormed.{add_line-IsWellFormed}

-- A network with the same pointers and no fewer edges is as well formed.
module _ (n n' : TransportNetwork) (out : (a b : Text) → edge_pointer a b n' ≡ edge_pointer a b n)
    (coming : (a b : Text) → incoming_pointer a b n' ≡ incoming_pointer a b n)
    (more : length n.edges ≤ length n'.edges) where
  same_pointers-IsWellFormed : IsWellFormed n → IsWellFormed n'
  same_pointers-IsWellFormed w = record {
    bounded = λ a b p h. omega (arith, w.bounded a b p (sym (out a b) ∙ h));
    distinct = λ a b c d p h k. w.distinct a b c d p (sym (out a b) ∙ h) (sym (out c d) ∙ k);
    mirrored = λ a b. coming a b ∙ w.mirrored a b ∙ sym (out a b);
  }

-- A write to a node that leaves its edges alone, or a new node with none.
module _ (id : Text) (node' : StationNode) (n : TransportNetwork) where
  put_node-IsWellFormed :
      (node : StationNode)
      → get_station_node id n ≡ some node
      → node'.to_station_id_to_edge ≡ node.to_station_id_to_edge
      → node'.from_station_id_to_edge ≡ node.from_station_id_to_edge
      → IsWellFormed n
      → IsWellFormed (put_node id node' n)
  unfolding edge_pointer incoming_pointer get_edge
  put_node-IsWellFormed node found to from w =
      same_pointers-IsWellFormed n (put_node id node' n)
        (λ a b. ground (arith, get_station_node-put_node id a node' n, eq_iff id a, found, to))
        (λ a b. ground (arith, get_station_node-put_node id b node' n, eq_iff id b, found, from))
        (unfold put_node in omega arith) w

pub add_station-IsWellFormed :
    (station : Station) (n : TransportNetwork)
    → IsWellFormed n
    → IsWellFormed (add_station station n).1
unfolding add_station
add_station-IsWellFormed station n w = elim (Option-cases (get_station_node station.id n)) [
  | inr (node, found) ↦ rw (found, add_station) w
  | inl missing ↦
      rw (missing, add_station)
        (same_pointers-IsWellFormed n (put_node station.id new_node n)
          (λ a b.
            unfold edge_pointer get_edge lookup in
            ground (arith, get_station_node-put_node station.id a new_node n, eq_iff station.id a))
          (λ a b.
            unfold incoming_pointer lookup in
            ground (arith, get_station_node-put_node station.id b new_node n, eq_iff station.id b))
          (unfold put_node in omega arith) w)
]

-- What `SetTravelTimeDirectional` does on a well-formed network.
pub set_travel_time_directional-cases :
    (a b : Text) (time : ℕ) (n : TransportNetwork)
    → IsWellFormed n
    → ((edge_pointer a b n ≡ none) × (set_travel_time_directional a b time n ≡ (false, n)))
      ⊎ ((p : ℕ) × (e : RouteEdge) × (edge_pointer a b n ≡ some p)
          × (get_elem? n.edges p ≡ some e)
          × (set_travel_time_directional a b time n
              ≡ (true, put_edge p (record e { travel_time = time }) n)))
unfolding set_travel_time_directional
set_travel_time_directional-cases a b time n w = elim (Option-cases (edge_pointer a b n)) [
  | inl missing ↦ inl (missing, ground (arith, missing))
  | inr (p, found) ↦
      let (e, at) = get_elem?-some_of_lt n.edges p (w.bounded a b p found) in
      inr (p, e, found, at, ground (arith, found, at))
]

pub set_travel_time_directional-IsWellFormed :
    (a b : Text) (time : ℕ) (n : TransportNetwork)
    → IsWellFormed n
    → IsWellFormed (set_travel_time_directional a b time n).1
set_travel_time_directional-IsWellFormed a b time n w =
    elim (set_travel_time_directional-cases a b time n w) [
      | inl (missing, same) ↦ rw same w
      | inr (p, e, found, at, same) ↦
          rw same (put_edge-IsWellFormed p (record e { travel_time = time }) n w)
    ]

pub set_travel_time-IsWellFormed :
    (a b : Text) (time : ℕ) (n : TransportNetwork)
    → IsWellFormed n
    → IsWellFormed (set_travel_time a b time n).1
unfolding set_travel_time
set_travel_time-IsWellFormed a b time n w =
    set_travel_time_directional-IsWellFormed b a time (set_travel_time_directional a b time n).1
      (set_travel_time_directional-IsWellFormed a b time n w)

record_passenger_event-IsWellFormed :
    (event : PassengerEvent) (n n' : TransportNetwork) (ok : Bool)
    → IsWellFormed n
    → record_passenger_event event n ≡ returns (ok, n')
    → IsWellFormed n'
unfolding record_passenger_event
record_passenger_event-IsWellFormed event n n' ok w h =
    elim (Option-cases (get_station_node event.station_id n)) [
      | inl missing ↦ let same : n' ≡ n = ground arith in subst IsWellFormed (sym same) w
      | inr (node, found) ↦
          let counted =
            >>=-eq-returns {B = Bool × TransportNetwork}
              (count_passenger event.event_type node.passengers)
              (λ count.
                returns (true, put_node event.station_id (record node { passengers = count }) n))
              {b = (ok, n')} (ground arith) in
          let node' = record node { passengers = counted.0 } in
          let same : n' ≡ put_node event.station_id node' n = ground (arith, counted.2) in
          subst IsWellFormed (sym same)
            (put_node-IsWellFormed event.station_id node' n node found refl refl w)
    ]

-- One call of a method that changes the network.
pub data Step : TransportNetwork → TransportNetwork → Type 0 where
  station : (s : Station) (n : TransportNetwork) → Step n (add_station s n).1
  line :
      (l : Line) (n n' : TransportNetwork) (ok : Bool) → add_line l n ≡ returns (ok, n') → Step n n'
  event :
      (e : PassengerEvent) (n n' : TransportNetwork) (ok : Bool)
      → record_passenger_event e n ≡ returns (ok, n')
      → Step n n'
  time : (a b : Text) (t : ℕ) (n : TransportNetwork) → Step n (set_travel_time a b t n).1

pub data Reachable : TransportNetwork → Type 0 where
  fresh : {n : TransportNetwork} → n ≡ new_network → Reachable n
  step : {n n' : TransportNetwork} → Reachable n → Step n n' → Reachable n'

new_network-IsWellFormed : IsWellFormed new_network
unfolding edge_pointer incoming_pointer get_station_node lookup
new_network-IsWellFormed = record {
  bounded = λ a b p h. cc;
  distinct = λ a b c d p h k. cc;
  mirrored = λ a b. refl;
}

Step-IsWellFormed : {n n' : TransportNetwork} → Step n n' → IsWellFormed n → IsWellFormed n'
Step-IsWellFormed (station s n) w = add_station-IsWellFormed s n w
Step-IsWellFormed (line l n n' ok h) w = add_line-IsWellFormed l n n' ok w h
Step-IsWellFormed (event e n n' ok h) w = record_passenger_event-IsWellFormed e n n' ok w h
Step-IsWellFormed (time a b t n) w = set_travel_time-IsWellFormed a b t n w

-- However the methods are called, and whether they succeed or not, as long as none has undefined
-- behaviour: no pointer dangles, no two pairs of stations share an edge, and both ends of an edge
-- know it.
pub Reachable-IsWellFormed : {n : TransportNetwork} → Reachable n → IsWellFormed n
Reachable-IsWellFormed (fresh e) = subst IsWellFormed (sym e) new_network-IsWellFormed
Reachable-IsWellFormed (step r s) = Step-IsWellFormed s (Reachable-IsWellFormed r)
