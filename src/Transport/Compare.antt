-- ===== src/Transport/Compare.antt =====
-- The operators `==` of src/transport-network.cpp.
use learncppthroughprojects.Prelude.{
  ◌<◌, ◌≤◌, Bool, true, false, not, ◌&&◌, List, [], ◌∷◌, map, Text, ◌≡◌, ◌↔◌, refl, ap, arith,
  length, if◌then◌else◌, ◌==◌, eq_iff, text_eq, nat_eq, Outcome, returns, undefined_behaviour,
  Bool-cases, inl, inr, ◌∙◌,
}
use learncppthroughprojects.Transport.Types.{Station, Route, RouteStep, TravelRoute, Line}

module _ {ℓ} {A : Type ℓ} (same : A → A → Bool) where
  -- `isEqual`, behind the test of the sizes.
  unfoldable pub entries_equal : List A → List A → Bool
  entries_equal [] _ = true
  entries_equal (x ∷ xs) [] = true
  entries_equal (x ∷ xs) (y ∷ ys) = if not (same x y) then false else entries_equal xs ys

  unfoldable pub is_equal : List A → List A → Bool
  is_equal a b = if not (length a == length b) then false else entries_equal a b

unfoldable pub step_equal : RouteStep → RouteStep → Bool
step_equal a b =
    a.start_station_id == b.start_station_id
    && a.end_station_id == b.end_station_id
    && a.line_id == b.line_id
    && a.route_id == b.route_id
    && a.travel_time == b.travel_time

-- The loop over `steps` in `TravelRoute::operator==`; `other.steps[i]` behind the end is undefined.
unfoldable pub compare_steps : List RouteStep → List RouteStep → Bool → Outcome Bool
compare_steps [] _ equal = returns equal
compare_steps (s ∷ steps) [] equal = undefined_behaviour
compare_steps (s ∷ steps) (t ∷ others) equal =
    compare_steps steps others (if not (step_equal s t) then false else equal)

unfoldable pub travel_route_equal : TravelRoute → TravelRoute → Outcome Bool
travel_route_equal a b = compare_steps a.steps b.steps (
    a.start_station_id == b.start_station_id
    && a.end_station_id == b.end_station_id
    && a.total_travel_time == b.total_travel_time
    && length a.steps == length b.steps)

unfoldable pub station_equal : Station → Station → Bool
station_equal a b = b.id == a.id && b.name == a.name

-- `id` is compared twice.
unfoldable pub route_equal : Route → Route → Bool
route_equal a b =
    a.id == b.id
    && a.direction == b.direction
    && a.id == b.id
    && a.start_station_id == b.start_station_id
    && a.end_station_id == b.end_station_id
    && is_equal (λ s t. s == t) a.stops b.stops

unfoldable pub line_equal : Line → Line → Bool
line_equal a b = a.id == b.id && a.name == b.name && is_equal route_equal a.routes b.routes

-- A test that decides equality of what `f` keeps makes `is_equal` decide it entry by entry.
module _ {ℓ κ} {A : Type ℓ} {B : Type κ} (same : A → A → Bool) (f : A → B)
    (decides : (x y : A) → (same x y ≡ true) ↔ (f x ≡ f y)) where
  is_equal_iff : (xs ys : List A) → (is_equal same xs ys ≡ true) ↔ (map f xs ≡ map f ys)
  unfolding is_equal entries_equal
  is_equal_iff [] [] = ground arith
  is_equal_iff [] (y ∷ ys) = ((λ h. ground (arith, eq_iff 0 (length (y ∷ ys)))), λ h. cc)
  is_equal_iff (x ∷ xs) [] = ((λ h. ground (arith, eq_iff (length (x ∷ xs)) 0)), λ h. cc)
  is_equal_iff (x ∷ xs) (y ∷ ys) = ground (
    arith,
    decides x y,
    is_equal_iff xs ys,
    eq_iff (length xs) (length ys),
    eq_iff (length (x ∷ xs)) (length (y ∷ ys)),
  )

step_equal_iff : (a b : RouteStep) → (step_equal a b ≡ true) ↔ (a ≡ b)
unfolding step_equal
step_equal_iff a b = ground (
  arith,
  eq_iff a.start_station_id b.start_station_id,
  eq_iff a.end_station_id b.end_station_id,
  eq_iff a.line_id b.line_id,
  eq_iff a.route_id b.route_id,
  eq_iff a.travel_time b.travel_time,
)

map_id : {A : Type 0} (xs : List A) → map (λ x. x) xs ≡ xs
map_id [] = refl
map_id (x ∷ xs) = ap (◌∷◌ x) (map_id xs)

texts_equal_iff : (xs ys : List Text) → (is_equal (λ s t. s == t) xs ys ≡ true) ↔ (xs ≡ ys)
texts_equal_iff xs ys =
    ground
      (arith, is_equal_iff (λ s t. s == t) (λ s. s) (λ s t. eq_iff s t) xs ys, map_id xs, map_id ys)

-- A route without its line.
abbrev pub forget_line : Route → Route
forget_line r = record r { line_id = [] }

-- Route::operator== is true exactly for routes that agree in all but the line: the line's
-- identifier is not compared.
route_equal_iff : (a b : Route) → (route_equal a b ≡ true) ↔ (forget_line a ≡ forget_line b)
unfolding route_equal
route_equal_iff a b = ground (
  arith,
  eq_iff a.id b.id,
  eq_iff a.direction b.direction,
  eq_iff a.start_station_id b.start_station_id,
  eq_iff a.end_station_id b.end_station_id,
  texts_equal_iff a.stops b.stops,
)

-- Line::operator== is true exactly for lines with the same identifier, the same name and the same
-- routes in the same order, up to the line identifiers of the routes.
pub line_equal_iff :
    (a b : Line)
    → (line_equal a b ≡ true)
      ↔ ((a.id ≡ b.id) × (a.name ≡ b.name) × (map forget_line a.routes ≡ map forget_line b.routes))
unfolding line_equal
line_equal_iff a b = ground (
  arith,
  eq_iff a.id b.id,
  eq_iff a.name b.name,
  is_equal_iff route_equal forget_line route_equal_iff a.routes b.routes,
)

compare_steps_long :
    (xs ys : List RouteStep) (equal : Bool)
    → length ys < length xs
    → compare_steps xs ys equal ≡ undefined_behaviour
unfolding compare_steps
compare_steps_long [] ys equal h = absurd (omega arith)
compare_steps_long (x ∷ xs) [] equal h = refl
compare_steps_long (x ∷ xs) (y ∷ ys) equal h =
    compare_steps_long xs ys (if not (step_equal x y) then false else equal) (omega arith)

compare_steps-false :
    (xs ys : List RouteStep) → length xs ≤ length ys → compare_steps xs ys false ≡ returns false
unfolding compare_steps
compare_steps-false [] ys h = refl
compare_steps-false (x ∷ xs) [] h = absurd (omega arith)
compare_steps-false (x ∷ xs) (y ∷ ys) h = ground (arith, compare_steps-false xs ys (omega arith))

compare_steps_same :
    (xs ys : List RouteStep)
    → length xs ≡ length ys
    → (r : Bool) × (compare_steps xs ys true ≡ returns r) × ((r ≡ true) ↔ (xs ≡ ys))
unfolding compare_steps
compare_steps_same [] [] h = (true, refl, ground arith)
compare_steps_same [] (y ∷ ys) h = absurd (omega arith)
compare_steps_same (x ∷ xs) [] h = absurd (omega arith)
compare_steps_same (x ∷ xs) (y ∷ ys) h = elim (Bool-cases (step_equal x y)) [
  | inl same ↦
      let (r, e, i) = compare_steps_same xs ys (omega arith) in
      (r, rw same e, ground (arith, i, step_equal_iff x y))
  | inr other ↦ (
    false,
    rw other (compare_steps-false xs ys (omega arith)),
    ground (arith, step_equal_iff x y),
  )
]

-- What is compared before the steps.
abbrev pub fields_equal : TravelRoute → TravelRoute → Bool
fields_equal a b =
    a.start_station_id == b.start_station_id
    && a.end_station_id == b.end_station_id
    && a.total_travel_time == b.total_travel_time
    && length a.steps == length b.steps

fields_equal_iff :
    (a b : TravelRoute)
    → (fields_equal a b ≡ true) ↔ (
        (a.start_station_id ≡ b.start_station_id)
        × (a.end_station_id ≡ b.end_station_id)
        × (a.total_travel_time ≡ b.total_travel_time)
        × (length a.steps ≡ length b.steps))
fields_equal_iff a b = ground (
  arith,
  eq_iff a.start_station_id b.start_station_id,
  eq_iff a.end_station_id b.end_station_id,
  eq_iff a.total_travel_time b.total_travel_time,
  eq_iff (length a.steps) (length b.steps),
)

-- TravelRoute::operator==, where the left side has more steps than the right one, has undefined
-- behaviour: the loop indexes the right one's steps past their end.
pub travel_route_equal-undefined_behaviour :
    (a b : TravelRoute)
    → length b.steps < length a.steps
    → travel_route_equal a b ≡ undefined_behaviour
unfolding travel_route_equal
travel_route_equal-undefined_behaviour a b h =
    compare_steps_long a.steps b.steps (fields_equal a b) h

-- TravelRoute::operator==, where the left side has no more steps than the right one, returns, and
-- returns true exactly if the two travel routes are equal.
pub travel_route_equal_iff :
    (a b : TravelRoute)
    → length a.steps ≤ length b.steps
    → (r : Bool) × (travel_route_equal a b ≡ returns r) × ((r ≡ true) ↔ (a ≡ b))
unfolding travel_route_equal
travel_route_equal_iff a b h = elim (Bool-cases (fields_equal a b)) [
  | inl same ↦
      let equal = (fields_equal_iff a b).0 same in
      let (r, e, i) = compare_steps_same a.steps b.steps equal.3 in
      (r, ap (λ f. compare_steps a.steps b.steps f) same ∙ e, ground (arith, i, equal))
  | inr other ↦ (
    false,
    ap (λ f. compare_steps a.steps b.steps f) other ∙ compare_steps-false a.steps b.steps h,
    ((λ t. cc), λ e. ground (arith, fields_equal_iff a b)),
  )
]
