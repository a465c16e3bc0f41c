-- ===== src/UseCases/CancelBooking/Outcome.antt =====
-- What `cancel_booking` returns and leaves behind.
use train_seat_booking_syste.Prelude.{◌≡◌, String, none, some, [], ◌∷◌, ◌++◌, arith, if◌then◌else◌}
use train_seat_booking_syste.Prelude.Dict.{lookup, insert}
use train_seat_booking_syste.Domain.Errors.{ok, err, illegal_transition}
use train_seat_booking_syste.Ports.{Hold}
use train_seat_booking_syste.Domain.Values.{cancelled, is_active, is_terminal}
use train_seat_booking_syste.MemoryRepo
use train_seat_booking_syste.MemoryRepo.{with_status}
use train_seat_booking_syste.MemoryRepo.Exclusive.{IsExclusive, cancel-IsExclusive}
use train_seat_booking_syste.World.{World, enter, with_uow}
use train_seat_booking_syste.World.Atomic.{
  IsGood, KeepsStoreOnError, IsKept, IsGood-IsSafe, with_uow-IsKept, with_uow-KeepsStoreOnError,
}
use train_seat_booking_syste.UseCases.CancelBooking.{cancel_body, cancel_booking}

module _ {F : Type 0} (booking_id : String) (w : World F) where
  cancel_body-IsGood : IsExclusive w.store.holds → IsGood w (cancel_body booking_id (enter w))
  unfolding cancel_body
  cancel_body-IsGood x = grind (arith, cancel-IsExclusive)

  pub cancel_booking-IsKept : IsExclusive w.store.holds → IsKept w (cancel_booking booking_id w).1
  unfolding cancel_booking
  cancel_booking-IsKept x =
      with_uow-IsKept (cancel_body booking_id) w x
        (IsGood-IsSafe w (cancel_body booking_id (enter w)) (cancel_body-IsGood x))

  -- From an exclusive store, a `cancel_booking` that raises leaves the store as it was.
  pub cancel_booking-KeepsStoreOnError :
      IsExclusive w.store.holds → KeepsStoreOnError w (cancel_booking booking_id w)
  unfolding cancel_booking
  cancel_booking-KeepsStoreOnError x =
      with_uow-KeepsStoreOnError (cancel_body booking_id) w (cancel_body-IsGood x)

-- The world that the cancellation of `h` leaves, once the transaction is over.
abbrev pub freed : {F : Type 0} → String → Hold → World F → World F
freed booking_id h w = record w {
  store = record {
    holds = insert booking_id (with_status h cancelled) w.store.holds;
    trips = w.store.trips;
  };
  snapshot = none;
  events =
      if is_active h.status
      then w.events
        ++ record { trip_id = h.trip_id; seat_id = h.seat_id; leg = h.leg; status = cancelled } ∷ []
      else w.events;
  sent =
      w.sent
      ++ record {
        recipient = h.passenger_id;
        event = "booking_cancelled";
        detail = ("reference", h.reference) ∷ [];
      }
        ∷ [];
}

-- A booking that is HELD, CONFIRMED or STANDING is cancelled: its record says so, its passenger is
-- told, and the seat is announced as free exactly if the booking held one. A second cancellation,
-- and that of an expired booking, raises IllegalTransition and changes nothing.
pub cancel_booking_lem :
    {F : Type 0} (booking_id : String) (w : World F) (h : Hold)
    → lookup booking_id w.store.holds ≡ some h
    → cancel_booking booking_id w ≡ (
        if is_terminal h.status
        then (err illegal_transition, record w { snapshot = none })
        else (ok (with_status h cancelled), freed booking_id h w))
unfolding cancel_booking cancel_body with_uow MemoryRepo.get MemoryRepo.set_status
cancel_booking_lem booking_id w h found = ground arith
