-- ===== src/UseCases/LegAvailability/Outcome.antt =====
-- What `leg_availability` and `quote_fare` return and leave behind.
use train_seat_booking_syste.Prelude.{String, ℤ, arith}
use train_seat_booking_syste.Domain.Stations.{Leg}
use train_seat_booking_syste.Domain.Values.{TravelClass}
use train_seat_booking_syste.Ports.{Deps}
use train_seat_booking_syste.MemoryRepo.Exclusive.{IsExclusive, expire_due-IsExclusive}
use train_seat_booking_syste.World.{World, enter, with_uow, trip_of}
use train_seat_booking_syste.World.Atomic.{IsGood, IsKept, IsGood-IsSafe, with_uow-IsKept}
use train_seat_booking_syste.UseCases.LegAvailability.{
  seats_over, leg_availability, quote_body, quote_fare, get_trip,
}

module _ {F : Type 0} (trip_id : String) (leg : Leg) (w : World F)
    (x : IsExclusive w.store.holds) where
  module _ (now : ℤ) where
    seats_over-IsGood : IsGood w (seats_over now trip_id leg (enter w))
    unfolding seats_over
    seats_over-IsGood = grind (arith, expire_due-IsExclusive)

    counted : IsKept w (with_uow (seats_over now trip_id leg) w).1
    counted =
        with_uow-IsKept (seats_over now trip_id leg) w x
          (IsGood-IsSafe w (seats_over now trip_id leg (enter w)) seats_over-IsGood)

    pub leg_availability-IsKept : IsKept w (leg_availability now trip_id leg w).1
    unfolding leg_availability
    leg_availability-IsKept = ground (arith, counted)

  module _ (deps : Deps F) (travel_class : TravelClass) where
    pub quote_fare-IsKept : IsKept w (quote_fare deps trip_id leg travel_class w).1
    unfolding quote_fare quote_body
    quote_fare-IsKept =
        with_uow-IsKept (quote_body deps trip_id leg travel_class) w x (ground arith)

module _ {F : Type 0} (trip_id : String) (w : World F) (x : IsExclusive w.store.holds) where
  pub get_trip-IsKept : IsKept w (get_trip trip_id w).1
  unfolding get_trip
  get_trip-IsKept = with_uow-IsKept (trip_of trip_id) w x (ground arith)
