-- ===== src/UseCases/LegAvailability.antt =====
-- backend/slr/usecases/leg_availability.py, quote_fare.py and get_trip.py: the reads of a trip.
pub mod Outcome
use train_seat_booking_syste.Prelude.{
  ℕ, zero, suc, Bool, true, false, String, ℤ, List, [], ◌∷◌, map, length, select, any, str_eq,
  bool_not, if◌then◌else◌,
}
use train_seat_booking_syste.Prelude.Dict.{Dict}
use train_seat_booking_syste.Domain.Errors.{Result, ok, err}
use train_seat_booking_syste.Domain.Stations.{Leg, overlaps}
use train_seat_booking_syste.Domain.Values.{TravelClass}
use train_seat_booking_syste.MemoryRepo
use train_seat_booking_syste.Ports.{Hold, Seat, Trip, Deps}
use train_seat_booking_syste.UseCases.Support.{validate_leg, price_leg}
use train_seat_booking_syste.World.{
  World, Exec, pure, lift, ◌>>=◌, ◌>>◌, with_uow, commit, trip_of, gets_holds, expire_due,
}

pub record SeatAvailability : Type 0 where
  pub seat_id : String
  pub coach : String
  pub travel_class : TravelClass
  pub is_available : Bool

pub record LegAvailability : Type 0 where
  pub trip_id : String
  pub leg : Leg
  pub seats : List SeatAvailability
  pub free_count : ℕ

-- `busy.get(seat_id, [])`: the legs of the active bookings on the seat, in the order of the store.
abbrev pub busy_legs : List Hold → String → List Leg
busy_legs active seat_id = map (λ h. h.leg) (select (λ h. str_eq h.seat_id seat_id) active)

abbrev pub availability_of : List Hold → Leg → Seat → SeatAvailability
availability_of active leg s = record {
  seat_id = s.seat_id;
  coach = s.coach;
  travel_class = s.travel_class;
  is_available = bool_not (any (λ other. overlaps other leg) (busy_legs active s.seat_id));
}

abbrev pub summarize : String → Leg → List SeatAvailability → LegAvailability
summarize trip_id leg seats = record {
  trip_id = trip_id;
  leg = leg;
  seats = seats;
  free_count = length (select (λ s. s.is_available) seats);
}

module _ {F : Type 0} where
  unfoldable pub seats_over : ℤ → String → Leg → Exec F (List SeatAvailability)
  seats_over now trip_id leg = do
    trip ← trip_of trip_id
    lift (validate_leg trip leg)
    expire_due now
    active ← gets_holds (λ d. MemoryRepo.active_holds d trip_id)
    commit
    pure (map (availability_of active leg) trip.seats)

  -- The seats are counted after the `with` block.
  unfoldable pub leg_availability : ℤ → String → Leg → Exec F LegAvailability
  leg_availability now trip_id leg = do
    seats ← with_uow (seats_over now trip_id leg)
    pure (summarize trip_id leg seats)

  unfoldable pub quote_body : Deps F → String → Leg → TravelClass → Exec F ℤ
  quote_body deps trip_id leg travel_class = do
    trip ← trip_of trip_id
    lift (validate_leg trip leg)
    holds ← gets_holds (λ d. d)
    lift (price_leg deps holds trip leg travel_class)

  -- quote_fare.py: nothing is expired, and nothing is committed.
  unfoldable pub quote_fare : Deps F → String → Leg → TravelClass → Exec F ℤ
  quote_fare deps trip_id leg travel_class = with_uow (quote_body deps trip_id leg travel_class)

  -- get_trip.py
  unfoldable pub get_trip : String → Exec F (Trip F)
  get_trip trip_id = with_uow (trip_of trip_id)
