-- ===== src/UseCases/VerifyTicket.antt =====
-- backend/slr/usecases/verify_ticket.py
pub mod Outcome
use train_seat_booking_syste.Prelude.{Bool, true, false, String, ℤ, Option, none, some}
use train_seat_booking_syste.Domain.Errors.{Result, ok, err, booking_not_found}
use train_seat_booking_syste.Domain.Values.{BookingStatus}
use train_seat_booking_syste.MemoryRepo
use train_seat_booking_syste.Ports.{Hold, Trip}
use train_seat_booking_syste.UseCases.Receipt.{Receipt, receipt_for, or_raise}
use train_seat_booking_syste.World.{
  World, Exec, pure, lift, ◌>>=◌, ◌>>◌, with_uow, commit, trip_of, gets_holds, expire_due,
}

pub data Verdict : Type 0 where
  valid unpaid cancelled expired : Verdict

-- `_VERDICTS`
abbrev pub verdict_of : BookingStatus → Verdict
verdict_of BookingStatus.confirmed = valid
verdict_of BookingStatus.standing = valid
verdict_of BookingStatus.held = unpaid
verdict_of BookingStatus.cancelled = cancelled
verdict_of BookingStatus.expired = expired

pub record Verification : Type 0 where
  pub verdict : Verdict
  pub receipt : Receipt

-- `verification.valid`
abbrev pub is_valid : Verification → Bool
is_valid v = elim v.verdict [ valid ↦ true | _ ↦ false ]

abbrev pub verification_of : Hold → Result Receipt → Result Verification
verification_of booking (ok receipt) =
    ok (record { verdict = verdict_of booking.status; receipt = receipt })
verification_of booking (err e) = err e

module _ {F : Type 0} where
  unfoldable pub look_up : ℤ → String → Exec F (Hold × Trip F)
  look_up now reference = do
    expire_due now
    found ← gets_holds (λ d. MemoryRepo.by_reference d reference)
    booking ← lift (or_raise found (err booking_not_found))
    trip ← trip_of booking.trip_id
    commit
    pure (booking, trip)

  -- The receipt is built after the `with` block.
  unfoldable pub verify_ticket : ℤ → String → Exec F Verification
  verify_ticket now reference = do
    (booking, trip) ← with_uow (look_up now reference)
    lift (verification_of booking (receipt_for booking trip now))
