-- ===== src/UseCases/ConfirmBooking.antt =====
-- backend/slr/usecases/confirm_booking.py
pub mod Outcome
use train_seat_booking_syste.Prelude.{Bool, String, ℤ, Option, [], ◌∷◌, bool_not}
use train_seat_booking_syste.Domain.BookingSm.{confirm, apply}
use train_seat_booking_syste.Domain.Errors.{
  Result, ok, err, booking_not_found, payment_declined, raise_if,
}
use train_seat_booking_syste.Ports.{Hold, Trip, Deps}
use train_seat_booking_syste.World.{
  World, Exec, pure, raise, lift, ◌>>=◌, ◌>>◌, with_uow, commit, trip_of, booking_of, expire_due,
  set_status, publish, notify, charge,
}
use train_seat_booking_syste.UseCases.Receipt.{Receipt, receipt_for}

-- `except KeyError: raise BookingNotFound`
abbrev pub or_not_found : Result Hold → Result Hold
or_not_found (ok h) = ok h
or_not_found (err e) = err booking_not_found

module _ {F : Type 0} where
  abbrev pub find_booking : String → Exec F Hold
  find_booking booking_id w = let (r, w') = booking_of booking_id w in (or_not_found r, w')

  -- up to and with `uow.commit()`
  unfoldable pub settle : Deps F → ℤ → String → Exec F (Hold × Trip F)
  settle deps now booking_id = do
    expire_due now
    hold ← find_booking booking_id
    target ← lift (apply hold.status confirm)
    trip ← trip_of hold.trip_id
    result ← charge deps hold.reference hold.fare_cents
    lift (raise_if (bool_not result.is_ok) payment_declined)
    confirmed ← set_status booking_id target
    publish (record {
      trip_id = hold.trip_id;
      seat_id = hold.seat_id;
      leg = hold.leg;
      status = confirmed.status;
    })
    notify hold.passenger_id "booking_confirmed" (("reference", hold.reference) ∷ [])
    commit
    pure (confirmed, trip)

  -- The receipt is built after the commit, still inside the `with` block.
  unfoldable pub confirm_body : Deps F → ℤ → String → Exec F Receipt
  confirm_body deps now booking_id = do
    (confirmed, trip) ← settle deps now booking_id
    lift (receipt_for confirmed trip now)

  unfoldable pub confirm_booking : Deps F → ℤ → String → Exec F Receipt
  confirm_booking deps now booking_id = with_uow (confirm_body deps now booking_id)
