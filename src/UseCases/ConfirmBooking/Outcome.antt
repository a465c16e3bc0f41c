-- ===== src/UseCases/ConfirmBooking/Outcome.antt =====
-- What `confirm_booking` returns and leaves behind.
use train_seat_booking_syste.Prelude.{
  ◌≡◌, refl, ◌⊎◌, String, ℤ, none, some, [], ◌∷◌, ◌++◌, arith, eq_iff, true, false, ◌≢◌, ◌∙◌, List,
  length, if◌then◌else◌,
}
use train_seat_booking_syste.Prelude.Dict.{lookup, insert, lookup-insert}
use train_seat_booking_syste.Domain.Errors.{
  ok, err, illegal_transition, payment_declined, invalid_leg,
}
use train_seat_booking_syste.Domain.Timetable.{serves, is_ok-leg_times}
use train_seat_booking_syste.Domain.Values.{held, confirmed}
use train_seat_booking_syste.Ports.{Hold, Trip, Deps}
use train_seat_booking_syste.MemoryRepo
use train_seat_booking_syste.MemoryRepo.{with_status, is_due, expire}
use train_seat_booking_syste.MemoryRepo.Exclusive.{
  IsExclusive, lookup-expire_due, expire_due-IsExclusive, confirm-IsExclusive,
}
use train_seat_booking_syste.World.{World, enter, with_uow, get_trip}
use train_seat_booking_syste.World.Atomic.{IsGood, IsSafe, IsKept, with_uow-IsKept}
use train_seat_booking_syste.UseCases.Receipt.{receipt_for, build_receipt}
use train_seat_booking_syste.UseCases.ConfirmBooking.{settle, confirm_body, confirm_booking}

module _ {F : Type 0} (deps : Deps F) (now : ℤ) (booking_id : String) (w : World F) where
  settle-IsGood : IsExclusive w.store.holds → IsGood w (settle deps now booking_id (enter w))
  unfolding settle
  settle-IsGood x = grind (arith, expire_due-IsExclusive, confirm-IsExclusive)

  confirm_body-IsSafe :
      IsExclusive w.store.holds → IsSafe w (confirm_body deps now booking_id (enter w)).1
  unfolding confirm_body
  confirm_body-IsSafe x = ground (arith, settle-IsGood x)

  pub confirm_booking-IsKept :
      IsExclusive w.store.holds → IsKept w (confirm_booking deps now booking_id w).1
  unfolding confirm_booking
  confirm_booking-IsKept x =
      with_uow-IsKept (confirm_body deps now booking_id) w x (confirm_body-IsSafe x)

-- The world that a payment of `h` leaves, once the transaction is over.
abbrev pub settled : {F : Type 0} → ℤ → String → Hold → World F → World F
settled now booking_id h w = record {
  store = record {
    holds = insert booking_id (with_status h confirmed) (MemoryRepo.expire_due w.store.holds now).1;
    trips = w.store.trips;
  };
  snapshot = none;
  events =
      w.events
      ++ record { trip_id = h.trip_id; seat_id = h.seat_id; leg = h.leg; status = confirmed } ∷ [];
  sent =
      w.sent
      ++ record {
        recipient = h.passenger_id;
        event = "booking_confirmed";
        detail = ("reference", h.reference) ∷ [];
      }
        ∷ [];
  charges = w.charges ++ (h.reference, h.fare_cents) ∷ [];
  issued = w.issued;
  referenced = w.referenced;
}

-- the store as it was, the transaction over, and the charges as given
abbrev pub undone : {F : Type 0} → World F → List (String × ℤ) → World F
undone w charges = record w { snapshot = none; charges = charges }

unserved_receipt :
    {F : Type 0} (h : Hold) (trip : Trip F) (now : ℤ)
    → serves trip.stops h.leg ≡ false
    → receipt_for h trip now ≡ err invalid_leg
unfolding receipt_for build_receipt
unserved_receipt h trip now skipped = ground (arith, (is_ok-leg_times trip.stops h.leg).1.1)

module _ {F : Type 0} (deps : Deps F) (now : ℤ) (booking_id : String) (w : World F) (h : Hold)
    (found : lookup booking_id w.store.holds ≡ some h) where
  found_later :
      lookup booking_id (MemoryRepo.expire_due w.store.holds now).1
      ≡ some (if is_due now h then expire h else h)
  found_later = lookup-expire_due booking_id w.store.holds now ∙ rw found

  -- Confirming a hold that is not HELD any more, or that is overdue, raises IllegalTransition,
  -- charges nothing and changes nothing.
  pub confirm_booking-refused :
      (is_due now h ≡ true) ⊎ (h.status ≢ held)
      → confirm_booking deps now booking_id w ≡ (err illegal_transition, undone w w.charges)
  unfolding confirm_booking confirm_body settle with_uow MemoryRepo.get
  confirm_booking-refused late = ground (arith, found_later)

  module _ (trip : Trip F) (open_hold : h.status ≡ held) (in_time : is_due now h ≡ false)
      (known : get_trip w.store.trips h.trip_id ≡ ok trip) where
    -- A declined charge raises PaymentDeclined and leaves nothing but the attempt.
    pub confirm_booking-declined :
        (deps.answer (length w.charges) h.reference h.fare_cents).is_ok ≡ false
        → confirm_booking deps now booking_id w
          ≡ (err payment_declined, undone w (w.charges ++ (h.reference, h.fare_cents) ∷ []))
    unfolding confirm_booking confirm_body settle with_uow MemoryRepo.get
    confirm_booking-declined no_money = ground (arith, found_later)

    -- An accepted charge, of the fare that was fixed when the seat was held, leaves the booking
    -- CONFIRMED, whatever becomes of the receipt.
    pub confirm_booking-paid :
        (deps.answer (length w.charges) h.reference h.fare_cents).is_ok ≡ true
        → confirm_booking deps now booking_id w
          ≡ (receipt_for (with_status h confirmed) trip now, settled now booking_id h w)
    unfolding confirm_booking confirm_body settle with_uow MemoryRepo.get MemoryRepo.set_status
    confirm_booking-paid paid = ground (arith, found_later)

    -- A HELD booking in time, whose charge is accepted and whose train does not serve the leg, is
    -- charged and CONFIRMED, and the call raises InvalidLeg all the same: the receipt is built after
    -- the commit.
    pub confirm_booking-unserved :
        (deps.answer (length w.charges) h.reference h.fare_cents).is_ok ≡ true
        → serves trip.stops h.leg ≡ false
        → ((confirm_booking deps now booking_id w).0 ≡ err invalid_leg)
          × (lookup booking_id (confirm_booking deps now booking_id w).1.store.holds
              ≡ some (with_status h confirmed))
          × ((confirm_booking deps now booking_id w).1.charges
              ≡ w.charges ++ (h.reference, h.fare_cents) ∷ [])
    confirm_booking-unserved paid skipped = rw (confirm_booking-paid paid) (
      unserved_receipt (with_status h confirmed) trip now skipped,
      simp lookup-insert (ground (arith, eq_iff booking_id booking_id)),
      refl,
    )
