-- ===== src/UseCases/VerifyTicket/Outcome.antt =====
-- What `verify_ticket` returns and leaves behind.
use train_seat_booking_syste.Prelude.{String, ℤ, arith}
use train_seat_booking_syste.MemoryRepo.Exclusive.{IsExclusive, expire_due-IsExclusive}
use train_seat_booking_syste.World.{World, enter, with_uow}
use train_seat_booking_syste.World.Atomic.{IsGood, IsKept, IsGood-IsSafe, with_uow-IsKept}
use train_seat_booking_syste.UseCases.VerifyTicket.{look_up, verify_ticket}

module _ {F : Type 0} (now : ℤ) (reference : String) (w : World F) where
  look_up-IsGood : IsExclusive w.store.holds → IsGood w (look_up now reference (enter w))
  unfolding look_up
  look_up-IsGood x = grind (arith, expire_due-IsExclusive)

  looked_up : IsExclusive w.store.holds → IsKept w (with_uow (look_up now reference) w).1
  looked_up x =
      with_uow-IsKept (look_up now reference) w x
        (IsGood-IsSafe w (look_up now reference (enter w)) (look_up-IsGood x))

  pub verify_ticket-IsKept : IsExclusive w.store.holds → IsKept w (verify_ticket now reference w).1
  unfolding verify_ticket
  verify_ticket-IsKept x = ground (arith, looked_up x)
