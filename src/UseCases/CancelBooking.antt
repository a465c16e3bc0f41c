-- ===== src/UseCases/CancelBooking.antt =====
-- backend/slr/usecases/cancel_booking.py
pub mod Outcome
use train_seat_booking_syste.Prelude.{Bool, String, [], ◌∷◌, if◌then◌else◌}
use train_seat_booking_syste.Domain.BookingSm.{cancel, apply}
use train_seat_booking_syste.Domain.Errors.{Result, ok, err}
use train_seat_booking_syste.Domain.Values.{cancelled, is_active}
use train_seat_booking_syste.Ports.{Hold}
use train_seat_booking_syste.World.{
  World, Exec, pure, lift, ◌>>=◌, ◌>>◌, with_uow, commit, set_status, publish, notify,
}
use train_seat_booking_syste.UseCases.ConfirmBooking.{find_booking}

module _ {F : Type 0} where
  abbrev pub publish_freed : Hold → Exec F (Unit {0})
  publish_freed hold =
      if is_active hold.status
      then publish (record {
        trip_id = hold.trip_id;
        seat_id = hold.seat_id;
        leg = hold.leg;
        status = cancelled;
      })
      else pure tt

  unfoldable pub cancel_body : String → Exec F Hold
  cancel_body booking_id = do
    hold ← find_booking booking_id
    lift (apply hold.status cancel)
    updated ← set_status booking_id cancelled
    publish_freed hold
    notify hold.passenger_id "booking_cancelled" (("reference", hold.reference) ∷ [])
    commit
    pure updated

  unfoldable pub cancel_booking : String → Exec F Hold
  cancel_booking booking_id = with_uow (cancel_body booking_id)
