-- ===== src/Transport/Loading.antt =====
-- The loops of `TransportNetwork::FromJson` that change the network, on the values that the JSON
-- library has read. The order of the lines is that of an `unordered_map`, hence any.
use learncppthroughprojects.Prelude.{
  ℕ, Bool, true, false, ◌||◌, List, [], ◌∷◌, Text, ◌≡◌, refl, sym, ap, ◌∙◌, subst, arith, Outcome,
  returns, throws, runtime_error, ◌>>=◌, >>=-eq-returns,
}
use learncppthroughprojects.Transport.Types.{Station, Line, TransportNetwork}
use learncppthroughprojects.Transport.Network.{add_station, add_line, set_travel_time}
use learncppthroughprojects.Transport.WellFormed.{IsWellFormed}
use learncppthroughprojects.Transport.LineWellFormed.{add_line-IsWellFormed}
use learncppthroughprojects.Transport.Reachable.{
  add_station-IsWellFormed, set_travel_time-IsWellFormed,
}

-- `if (!success) throw`
abbrev pub or_throw : Bool × TransportNetwork → Outcome TransportNetwork
or_throw (true, n) = returns n
or_throw (false, n) = throws runtime_error

unfoldable pub load_stations : List Station → TransportNetwork → Outcome TransportNetwork
load_stations [] n = returns n
load_stations (station ∷ stations) n =
    or_throw (add_station station n) >>= λ n1. load_stations stations n1

unfoldable pub load_lines : List Line → TransportNetwork → Outcome TransportNetwork
load_lines [] n = returns n
load_lines (line ∷ lines) n = add_line line n >>= or_throw >>= λ n1. load_lines lines n1

unfoldable pub load_travel_times :
    List (Text × Text × ℕ) → Bool → TransportNetwork → Bool × TransportNetwork
load_travel_times [] success n = (success, n)
load_travel_times ((a, b, time) ∷ times) success n =
    let (set, n1) = set_travel_time a b time n in load_travel_times times (success || set) n1

unfoldable pub load :
    List Station
    → List Line
    → List (Text × Text × ℕ)
    → TransportNetwork
    → Outcome (Bool × TransportNetwork)
load stations lines times n = load_stations stations n >>= (λ n1. load_lines lines n1) >>= λ n2.
    returns (load_travel_times times true n2)

or_throw-eq_returns :
    (r : Bool × TransportNetwork) {n : TransportNetwork} → or_throw r ≡ returns n → r ≡ (true, n)
or_throw-eq_returns (true, m) h = ground arith
or_throw-eq_returns (false, m) h = cc

load_stations-IsWellFormed :
    (stations : List Station) (n n' : TransportNetwork)
    → IsWellFormed n
    → load_stations stations n ≡ returns n'
    → IsWellFormed n'
unfolding load_stations
load_stations-IsWellFormed [] n n' w h =
    let same : n' ≡ n = ground arith in subst IsWellFormed (sym same) w
load_stations-IsWellFormed (station ∷ stations) n n' w h =
    let (n1, first, rest) =
      >>=-eq-returns (or_throw (add_station station n)) (λ n1. load_stations stations n1) h in
    let same : (add_station station n).1 ≡ n1 =
      ap (λ r. r.1) (or_throw-eq_returns (add_station station n) first) in
    load_stations-IsWellFormed stations n1 n'
      (subst IsWellFormed same (add_station-IsWellFormed station n w)) rest

load_lines-IsWellFormed :
    (lines : List Line) (n n' : TransportNetwork)
    → IsWellFormed n
    → load_lines lines n ≡ returns n'
    → IsWellFormed n'
unfolding load_lines
load_lines-IsWellFormed [] n n' w h =
    let same : n' ≡ n = ground arith in subst IsWellFormed (sym same) w
load_lines-IsWellFormed (line ∷ lines) n n' w h =
    let (n1, first, rest) =
      >>=-eq-returns (add_line line n >>= or_throw) (λ n1. load_lines lines n1) h in
    let (r, added, passed) = >>=-eq-returns (add_line line n) or_throw first in
    let ok = or_throw-eq_returns r passed in
    load_lines-IsWellFormed lines n1 n'
      (add_line-IsWellFormed line n n1 true w (added ∙ ap returns ok)) rest

load_travel_times-IsWellFormed :
    (times : List (Text × Text × ℕ)) (n : TransportNetwork)
    → IsWellFormed n
    → ((load_travel_times times true n).0 ≡ true) × IsWellFormed (load_travel_times times true n).1
unfolding load_travel_times
load_travel_times-IsWellFormed [] n w = (refl, w)
load_travel_times-IsWellFormed ((a, b, time) ∷ times) n w =
    load_travel_times-IsWellFormed times (set_travel_time a b time n).1
      (set_travel_time-IsWellFormed a b time n w)

-- The loops of FromJson, on a well-formed network: if they return, the network is well formed, and
-- the result is true, also where a travel time was for stations that are not neighbours and
-- SetTravelTime returned false.
pub load-IsWellFormed :
    (stations : List Station) (lines : List Line) (times : List (Text × Text × ℕ))
    (n n' : TransportNetwork) (ok : Bool)
    → IsWellFormed n
    → load stations lines times n ≡ returns (ok, n')
    → (ok ≡ true) × IsWellFormed n'
unfolding load
load-IsWellFormed stations lines times n n' ok w h =
    let (n2, loaded, last) =
      >>=-eq-returns (load_stations stations n >>= (λ n1. load_lines lines n1))
        (λ n2. returns (load_travel_times times true n2)) h in
    let (n1, first, second) =
      >>=-eq-returns (load_stations stations n) (λ n1. load_lines lines n1) loaded in
    let w1 = load_stations-IsWellFormed stations n n1 w first in
    let w2 = load_lines-IsWellFormed lines n1 n2 w1 second in
    let (all_well, w3) = load_travel_times-IsWellFormed times n2 w2 in
    let same : load_travel_times times true n2 ≡ (ok, n') = ground (arith, last) in
    (ap (λ r. r.0) (sym same) ∙ all_well, subst (λ r. IsWellFormed r.1) same w3)
