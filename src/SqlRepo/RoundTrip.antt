-- ===== src/SqlRepo/RoundTrip.antt =====
-- What is written to a row is read back.
use train_seat_booking_syste.Prelude.{
  ℕ, ◌≡◌, refl, ap, String, pos, Option, none, some, List, [], ◌∷◌, map, All, arith, eq_iff,
  is_some, true, ◌||◌, inl, inr,
}
use train_seat_booking_syste.Domain.Errors.{Result, ok, Result-cases}
use train_seat_booking_syste.Domain.Stations.{Station, Leg, IsForward, make_leg}
use train_seat_booking_syste.Domain.Timetable.{Stop, make_stop, departure_min}
use train_seat_booking_syste.Domain.Values.{
  BookingStatus, held, confirmed, cancelled, expired, standing, CoachType, reserved, unreserved,
  TravelClass, first, second, third, status_value, coach_type_value, class_value,
}
use train_seat_booking_syste.Ports.{Coach, Seat, Trip, Hold}
use train_seat_booking_syste.SqlRepo.{
  TripRow, leg_to_range, range_to_leg, parse_status, parse_coach_type, parse_class, seat_or_empty,
  seat_or_null, to_hold, to_row, each, stop_of, coach_of, seat_of, stop_json, coach_json, seat_json,
  to_trip, trip_row, station_of, station_json,
}

parse_status-value : (s : BookingStatus) → parse_status (status_value s) ≡ ok s
unfolding parse_status
parse_status-value held = refl
parse_status-value confirmed = refl
parse_status-value cancelled = refl
parse_status-value expired = refl
parse_status-value standing = refl

parse_class-value : (c : TravelClass) → parse_class (class_value c) ≡ ok c
unfolding parse_class
parse_class-value first = refl
parse_class-value second = refl
parse_class-value third = refl

parse_coach_type-value : (c : CoachType) → parse_coach_type (coach_type_value c) ≡ ok c
unfolding parse_coach_type
parse_coach_type-value reserved = refl
parse_coach_type-value unreserved = refl

range_to_leg-leg_to_range : (l : Leg) → IsForward l → range_to_leg (leg_to_range l) ≡ ok l
unfolding make_leg
range_to_leg-leg_to_range l f = ground arith

seat_or_empty-seat_or_null : (s : String) → seat_or_empty (seat_or_null s) ≡ s
seat_or_empty-seat_or_null s = ground (arith, eq_iff s "")

-- A booking whose leg runs forward, as every leg of the program does, is read back from its row as
-- it was written, also one without a seat.
pub to_hold-to_row : (h : Hold) → IsForward h.leg → to_hold (to_row h) ≡ ok h
unfolding to_hold to_row
to_hold-to_row h f = rw (
  range_to_leg-leg_to_range h.leg f,
  parse_class-value h.travel_class,
  parse_status-value h.status,
  seat_or_empty-seat_or_null h.seat_id,
)

each-map :
    {A B : Type 0} (P : A → Type 0) (f : B → Result A) (g : A → B)
    → ((x : A) → P x → f (g x) ≡ ok x)
    → (xs : List A) → All P xs
    → each f (map g xs) ≡ ok xs
unfolding each
each-map P f g back [] h = refl
each-map P f g back (x ∷ xs) (p, h) = rw (back x p, each-map P f g back xs h)

-- A stop with a time, as the constructor of `Stop` demands.
abbrev pub HasTime : Stop → Type 0
HasTime s = (is_some s.arrive_min || is_some s.depart_min) ≡ true

make_stop-ok :
    (seq : ℕ) (arrive depart : Option ℕ)
    → (is_some arrive || is_some depart) ≡ true
    → make_stop (pos seq) arrive depart
      ≡ ok (record { station_seq = seq; arrive_min = arrive; depart_min = depart })
unfolding make_stop
make_stop-ok seq none none h = cc
make_stop-ok seq none (some d) h = refl
make_stop-ok seq (some a) depart h = refl

stop_of-stop_json : (s : Stop) → HasTime s → stop_of (stop_json s) ≡ ok s
stop_of-stop_json s h = make_stop-ok s.station_seq s.arrive_min s.depart_min h

abbrev Always {ℓ} : {A : Type ℓ} → A → Type 0
Always a = Unit

coach_of-coach_json : (c : Coach) → Always c → coach_of (coach_json c) ≡ ok c
coach_of-coach_json c u = rw (parse_coach_type-value c.coach_type, parse_class-value c.travel_class)

seat_of-seat_json : (s : Seat) → Always s → seat_of (seat_json s) ≡ ok s
seat_of-seat_json s u = rw (parse_coach_type-value s.coach_type, parse_class-value s.travel_class)

All-Always {ℓ} : {A : Type ℓ} (xs : List A) → All Always xs
All-Always [] = tt
All-Always (x ∷ xs) = (tt, All-Always xs)

map-station_of-station_json :
    {F : Type 0} (xs : List (Station F)) → map station_of (map station_json xs) ≡ xs
unfolding station_of station_json
map-station_of-station_json [] = refl
map-station_of-station_json (x ∷ xs) = ap (λ l. x ∷ l) (map-station_of-station_json xs)

-- A trip each of whose stops has a time, and which departs from somewhere, is read back from its row
-- as it was written.
pub to_trip-trip_row :
    {F : Type 0} (trip : Trip F) (row : TripRow F)
    → All HasTime trip.stops
    → trip_row trip ≡ ok row
    → to_trip row ≡ ok trip
unfolding to_trip trip_row
to_trip-trip_row trip row h e =
    let stops = each-map HasTime stop_of stop_json stop_of-stop_json trip.stops h in
    let coaches =
      each-map Always coach_of coach_json coach_of-coach_json trip.coaches
        (All-Always trip.coaches) in
    let seats =
      each-map Always seat_of seat_json seat_of-seat_json trip.seats (All-Always trip.seats) in
    let stations = map-station_of-station_json trip.stations in
    elim (Result-cases (departure_min trip.stops)) [
      | inr (x, d) ↦ ground arith
      | inl (m, d) ↦ ground arith
    ]
