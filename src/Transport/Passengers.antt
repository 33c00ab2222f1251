-- ===== src/Transport/Passengers.antt =====
-- The count of passengers at a station over a sequence of events.
use learncppthroughprojects.Prelude.{
  ℕ, ◌+◌, ◌≤◌, ◌<◌, Bool, true, false, some, List, [], ◌∷◌, Text, ◌≡◌, inl, inr, refl, sym, ap, ◌∙◌,
  arith, length, if◌then◌else◌, ◌==◌, eq_iff, text_eq, nat_eq, Option-cases, Outcome, returns,
  throws, undefined_behaviour, ◌>>=◌,
}
use learncppthroughprojects.Prelude.Int.{
  ℤ, pos, negsuc, ◌+ℤ◌, ◌-ℤ◌, pos_part, neg_part, eq_of_parts, +ℤ_parts,
}
use learncppthroughprojects.Stomp.Stoi.{int_max}
use learncppthroughprojects.Transport.Types.{
  PassengerEvent, PassengerEventType, passenger_in, passenger_out, StationNode, TransportNetwork,
}
use learncppthroughprojects.Transport.Network.{
  get_station_node, put_node, count_passenger, record_passenger_event, get_passenger_count,
}
use learncppthroughprojects.Transport.Pointers.{get_station_node-put_node}

-- The calls of `RecordPassengerEvent` for a sequence of events.
unfoldable pub record_all : List PassengerEvent → TransportNetwork → Outcome TransportNetwork
record_all [] n = returns n
record_all (event ∷ events) n = record_passenger_event event n >>= λ (_, n1). record_all events n1

-- What an event counts for at a station.
change : Text → PassengerEvent → ℤ
change station event =
    if event.station_id == station
    then elim event.event_type [ passenger_in ↦ pos 1 | passenger_out ↦ negsuc 0 ]
    else pos 0

pub balance : Text → List PassengerEvent → ℤ
balance station [] = pos 0
balance station (event ∷ events) = change station event +ℤ balance station events

-- The counter of a station moves by one, while it is far enough from the ends of `int`.
count_passenger_lem :
    (t : PassengerEventType) (k : ℤ) (c : ℤ)
    → count_passenger t k ≡ returns c
    → c ≡ k +ℤ elim t [ passenger_in ↦ pos 1 | passenger_out ↦ negsuc 0 ]
unfolding count_passenger ◌+ℤ◌ ◌-ℤ◌
count_passenger_lem passenger_in (pos k) c h = ground (arith, eq_iff k int_max)
count_passenger_lem passenger_in (negsuc k) c h = ground arith
count_passenger_lem passenger_out (pos k) c h = ground arith
count_passenger_lem passenger_out (negsuc k) c h = ground (arith, eq_iff k int_max)

abbrev magnitude : ℤ → ℕ
magnitude k = pos_part k + neg_part k

abbrev sign_of : PassengerEventType → ℤ
sign_of t = elim t [ passenger_in ↦ pos 1 | passenger_out ↦ negsuc 0 ]

count_passenger-returns :
    (t : PassengerEventType) (k : ℤ)
    → magnitude k < int_max
    → (c : ℤ) × (count_passenger t k ≡ returns c) × (magnitude c ≤ magnitude k + 1)
unfolding count_passenger ◌+ℤ◌ ◌-ℤ◌
count_passenger-returns passenger_in (pos k) h =
    (pos (k + 1), ground (arith, eq_iff k int_max), omega arith)
count_passenger-returns passenger_in (negsuc k) h = (negsuc k +ℤ pos 1, refl, ground arith)
count_passenger-returns passenger_out (pos k) h = (pos k -ℤ pos 1, refl, ground arith)
count_passenger-returns passenger_out (negsuc k) h =
    (negsuc (k + 1), ground (arith, eq_iff k int_max), omega arith)

+ℤ_zero : (k : ℤ) → k +ℤ pos 0 ≡ k
unfolding ◌+ℤ◌
+ℤ_zero k = ground arith

+ℤ_assoc : (a b c : ℤ) → (a +ℤ b) +ℤ c ≡ a +ℤ (b +ℤ c)
+ℤ_assoc a b c =
    eq_of_parts _ _
      (omega (arith, +ℤ_parts a b, +ℤ_parts b c, +ℤ_parts (a +ℤ b) c, +ℤ_parts a (b +ℤ c)))

-- No counter can reach an end of `int` within `m` events.
abbrev pub Within : ℕ → TransportNetwork → Type 0
Within m n =
    (s : Text) (node : StationNode)
    → get_station_node s n ≡ some node
    → pos_part node.passengers + neg_part node.passengers + m ≤ int_max

-- Each station counts `by s` more; one that is unknown stays so.
abbrev Counts : (Text → ℤ) → TransportNetwork → TransportNetwork → Type 0
Counts by n n' =
    (s : Text) → get_passenger_count s n' ≡ (get_passenger_count s n >>= λ k. returns (k +ℤ by s))

record_passenger_event-Counts :
    (event : PassengerEvent) (m : ℕ) (n : TransportNetwork)
    → Within (1 + m) n
    → (ok : Bool) × (n1 : TransportNetwork) × (record_passenger_event event n ≡ returns (ok, n1))
      × Within m n1
      × Counts (λ s. change s event) n n1
unfolding record_passenger_event get_passenger_count change
record_passenger_event-Counts event m n within =
    elim (Option-cases (get_station_node event.station_id n)) [
      | inl missing ↦ (
        false,
        n,
        ground arith,
        (λ s node h. omega (arith, within s node h)),
        λ s. elim (Option-cases (get_station_node s n)) [
          | inl unknown ↦ ground arith
          | inr (other, at) ↦ ground (arith, eq_iff event.station_id s, +ℤ_zero other.passengers)
        ],
      )
      | inr (node, found) ↦
          let (c, counted, near) =
            count_passenger-returns event.event_type node.passengers
              (omega (arith, within event.station_id node found)) in
          let sum = count_passenger_lem event.event_type node.passengers c counted in
          let node' = record node { passengers = c } in
          (
            true,
            put_node event.station_id node' n,
            rw (record_passenger_event, found, counted) refl,
            (λ s other h. ground (
              arith,
              get_station_node-put_node event.station_id s node' n,
              within s other,
              within event.station_id node found,
              near,
            )),
            λ s. elim (Option-cases (get_station_node s n)) [
              | inl unknown ↦ ground (
                arith,
                get_station_node-put_node event.station_id s node' n,
                eq_iff event.station_id s,
                found,
              )
              | inr (other, at) ↦ ground (
                arith,
                get_station_node-put_node event.station_id s node' n,
                eq_iff event.station_id s,
                +ℤ_zero other.passengers,
                found,
                sum,
              )
            ],
          )
    ]

bind_add_zero : (r : Outcome ℤ) → r ≡ (r >>= λ k. returns (k +ℤ pos 0))
bind_add_zero (returns k) = ap returns (sym (+ℤ_zero k))
bind_add_zero (throws e) = refl
bind_add_zero undefined_behaviour = refl

bind_add_add :
    (r : Outcome ℤ) (a b : ℤ)
    → (r >>= (λ k. returns (k +ℤ a)) >>= λ k. returns (k +ℤ b))
      ≡ (r >>= λ k. returns (k +ℤ (a +ℤ b)))
bind_add_add (returns k) a b = ap returns (+ℤ_assoc k a b)
bind_add_add (throws e) a b = refl
bind_add_add undefined_behaviour a b = refl

-- A sequence of RecordPassengerEvent calls, on a network in which no counter is so near an end of
-- `int` that the number of events could reach it: every call returns, and GetPassengerCount after
-- them gives what it gave before, plus the station's own events of type In, minus its own events of
-- type Out; for a station that is unknown it throws as before.
pub get_passenger_count-record_all :
    (events : List PassengerEvent) (n : TransportNetwork)
    → Within (length events) n
    → (n' : TransportNetwork) × (record_all events n ≡ returns n')
      × ((s : Text)
          → get_passenger_count s n'
            ≡ (get_passenger_count s n >>= λ k. returns (k +ℤ balance s events)))
unfolding record_all balance
get_passenger_count-record_all [] n within = (n, refl, λ s. bind_add_zero (get_passenger_count s n))
get_passenger_count-record_all (event ∷ events) n within =
    let (ok, n1, e, within1, counts) =
      record_passenger_event-Counts event (length events) n
        (λ s node h. omega (arith, within s node h)) in
    let (n', e', rest) = get_passenger_count-record_all events n1 within1 in
    (
      n',
      rw e e',
      λ s.
          rest s
          ∙ ap (λ r. r >>= λ k. returns (k +ℤ balance s events)) (counts s)
          ∙ bind_add_add (get_passenger_count s n) (change s event) (balance s events),
    )
