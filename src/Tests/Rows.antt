-- ===== src/Tests/Rows.antt =====
-- Rows of the database on the sample, and each theorem about them at an input.
use train_seat_booking_syste.Prelude.{
  ℕ, ◌≡◌, refl, inl, inr, Bool, true, false, ℤ, ◌≤ℤ◌, ◌<ℤ◌, ltb_ℤ, ◌&&◌, Option, some, [], ◌∷◌,
  arith, any, Bool-cases, if◌then◌else◌,
}
use train_seat_booking_syste.Prelude.Dict.{Dict, values, insert}
use train_seat_booking_syste.Domain.Errors.{Result, ok, err, overlap_error}
use train_seat_booking_syste.Domain.Timetable.{departure_min}
use train_seat_booking_syste.Domain.Values.{held, confirmed}
use train_seat_booking_syste.MemoryRepo.{add_hold}
use train_seat_booking_syste.Ports.{Hold}
use train_seat_booking_syste.SqlRepo.Exclusion.{
  Meets, half_open, stands_against, add_hold-eq-excludes,
}
use train_seat_booking_syste.SqlRepo.RoundTrip.{to_hold-to_row, to_trip-trip_row}
use train_seat_booking_syste.SqlRepo.{Range, TripRow, to_hold, to_row, to_trip, trip_row}
use train_seat_booking_syste.Tests.Sample.{express, booked}

to_hold-to_row_example :
    to_hold (to_row (booked "id-1" "SLR-1" 0 1 30 held)) ≡ ok (booked "id-1" "SLR-1" 0 1 30 held)
to_hold-to_row_example = to_hold-to_row (booked "id-1" "SLR-1" 0 1 30 held) (omega arith)

abbrev row_of : Result (TripRow ℕ) → TripRow ℕ
row_of (ok row) = row
row_of (err e) = record {
  trip_id = "";
  route_code = "";
  service_date = "";
  train_no = "";
  train_name = "";
  departs_min = 0;
  stations = [];
  stops = [];
  coaches = [];
  seats = [];
}

to_trip-trip_row_example : to_trip (row_of (trip_row express)) ≡ ok express
unfolding trip_row departure_min
to_trip-trip_row_example =
    to_trip-trip_row express (row_of (trip_row express)) (refl, (refl, (refl, tt))) refl

-- The operator on integer ranges, where both have two ends.
abbrev meet_ends : Option ℤ → Option ℤ → Option ℤ → Option ℤ → Bool
meet_ends (some a) (some b) (some c) (some d) = ltb_ℤ a b && ltb_ℤ c d && ltb_ℤ a d && ltb_ℤ c b
meet_ends _ _ _ _ = false

abbrev meet : Range → Range → Bool
meet r s = meet_ends r.lower r.upper s.lower s.upper

common :
    (a b c d : ℤ)
    → meet (half_open a b) (half_open c d) ≡ true
    → (p : ℤ) × (a ≤ℤ p) × (p <ℤ b) × (c ≤ℤ p) × (p <ℤ d)
common a b c d h = elim (Bool-cases (ltb_ℤ a c)) [
  | inl e ↦ (c, ground arith, ground arith, ground arith, ground arith)
  | inr e ↦ (a, ground arith, ground arith, ground arith, ground arith)
]

met :
    (a b c d p : ℤ)
    → a ≤ℤ p
    → p <ℤ b
    → c ≤ℤ p
    → p <ℤ d
    → meet (half_open a b) (half_open c d) ≡ true
met a b c d p h i j k = ground arith

meet-Meets : Meets meet
meet-Meets a b c d = (common a b c d, λ (p, h, i, j, k). met a b c d p h i j k)

abbrev stored : Dict Hold
stored = ("id-1", booked "id-1" "SLR-1" 0 2 30 confirmed) ∷ []

add_hold-eq-excludes_example : add_hold stored (booked "id-2" "SLR-2" 1 3 30 held) ≡ (
    if any (stands_against meet (booked "id-2" "SLR-2" 1 3 30 held)) (values stored)
    then err overlap_error
    else ok (insert "id-2" (booked "id-2" "SLR-2" 1 3 30 held) stored))
add_hold-eq-excludes_example =
    add_hold-eq-excludes meet stored (booked "id-2" "SLR-2" 1 3 30 held) meet-Meets (omega arith)
      (omega arith, tt) refl refl
