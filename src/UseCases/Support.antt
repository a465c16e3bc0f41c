-- ===== src/UseCases/Support.antt =====
-- backend/slr/usecases/_support.py: configuration keys, leg validation, distance and prices.
use train_seat_booking_syste.Prelude.{
  ℕ, Bool, ◌&&◌, String, ℤ, List, [], ◌∷◌, map, length, any, select, str_eq, ◌==◌, if◌then◌else◌,
}
use train_seat_booking_syste.Prelude.Dict.{Dict}
use train_seat_booking_syste.Domain.Errors.{Result, ok, err, invalid_leg, ◌>>=◌}
use train_seat_booking_syste.Domain.Stations.{Station, Leg, overlaps, distance_km}
use train_seat_booking_syste.Domain.Values.{TravelClass, first, second, third}
use train_seat_booking_syste.Ports.{Hold, Trip, Deps}
use train_seat_booking_syste.MemoryRepo.{active_holds}

abbrev pub hold_ttl : String
hold_ttl = "hold_ttl_seconds"

abbrev pub max_seats_per_passenger : String
max_seats_per_passenger = "max_seats_per_passenger"

abbrev pub velocity_window : String
velocity_window = "velocity_window_seconds"

abbrev pub max_bookings_per_window : String
max_bookings_per_window = "max_bookings_per_window"

abbrev pub abuse_threshold : String
abuse_threshold = "abuse_threshold"

abbrev pub standing_capacity : String
standing_capacity = "standing_capacity_per_coach"

abbrev pub booking_window_days : String
booking_window_days = "booking_window_days"

abbrev pub utc_offset_minutes : String
utc_offset_minutes = "utc_offset_minutes"

-- `seq in {s.seq for s in trip.stations}`
abbrev pub has_station : {F : Type 0} → List (Station F) → ℕ → Bool
has_station stations seq = any (λ s. s.seq == seq) stations

-- The elements of a set of texts, each once.
abbrev pub distinct : List String → List String
distinct [] = []
distinct (x ∷ xs) = if any (str_eq x) xs then distinct xs else x ∷ distinct xs

-- the key `class_mult_{travel_class.value.lower()}`
abbrev pub class_mult_key : TravelClass → String
class_mult_key first = "class_mult_first"
class_mult_key second = "class_mult_second"
class_mult_key third = "class_mult_third"

-- the seats with an active booking over any part of the leg
abbrev pub busy_seats : Dict Hold → String → Leg → List String
busy_seats holds trip_id leg =
    distinct (map (λ h. h.seat_id) (select (λ h. overlaps h.leg leg) (active_holds holds trip_id)))

module _ {F : Type 0} where
  unfoldable pub validate_leg : Trip F → Leg → Result (Unit {0})
  validate_leg trip leg =
      if has_station trip.stations leg.origin_seq && has_station trip.stations leg.dest_seq
      then ok tt
      else err invalid_leg

  unfoldable pub occupancy_over_leg : Deps F → Dict Hold → Trip F → Leg → F
  occupancy_over_leg deps holds trip leg = elim trip.seats [
    | [] ↦ deps.float_zero
    | s ∷ rest ↦ deps.float_div (length (busy_seats holds trip.trip_id leg)) (length (s ∷ rest))
  ]

  unfoldable pub price_leg : Deps F → Dict Hold → Trip F → Leg → TravelClass → Result ℤ
  price_leg deps holds trip leg travel_class = do
    km ← distance_km deps.float_sub trip.stations leg
    mult ← deps.get_float (class_mult_key travel_class)
    deps.price km mult (occupancy_over_leg deps holds trip leg)
