-- ===== src/App/Routes/Holding.antt =====
-- What a client is told of a hold, and what the store then has.
use train_seat_booking_syste.Prelude.{
  ℕ, ◌≤◌, ◌≤ℤ◌, pos, ◌≡◌, refl, subst, ◌⊎◌, inl, inr, true, false, String, ℤ, none, some, arith,
  Option, Bool-cases,
}
use train_seat_booking_syste.App.HttpErrors.{status_for}
use train_seat_booking_syste.App.Routes.{
  Reply, sent, refused, unhandled, refusal, reply, respond, hold_request, run_hold, hold,
}
use train_seat_booking_syste.App.Schemas.Bookings.{BookingOut, booking_out}
use train_seat_booking_syste.App.Schemas.Requests.{HoldBody, is_hold_body, text_length}
use train_seat_booking_syste.Domain.Errors.{
  Error, Result, ok, err, Result-cases, invalid_leg, invalid_service_date, illegal_transition,
  no_feasible_seat, overlap_error, seat_cap_exceeded, velocity_exceeded, abuse_suspected,
  payment_declined, coach_full, booking_not_found, seat_not_bookable, key_error, value_error,
  stop_iteration, index_error, assertion_error,
}
use train_seat_booking_syste.Domain.Stations.{Leg, make_leg}
use train_seat_booking_syste.MemoryRepo.Exclusive.{IsExclusive}
use train_seat_booking_syste.Ports.{Hold, Deps}
use train_seat_booking_syste.UseCases.HoldSeat.Outcome.{hold_seat-KeepsStoreOnError}
use train_seat_booking_syste.UseCases.HoldSeat.{hold_seat}
use train_seat_booking_syste.World.Atomic.{KeepsStoreOnError}
use train_seat_booking_syste.World.{World, Exec}

-- The bounds of a body: positions that are not negative, an identity card of 1 to 64 characters, and a
-- name of 1 to 120.
abbrev pub IsInBounds : HoldBody → Type 0
IsInBounds b =
    (pos 0 ≤ℤ b.origin_seq)
    × (pos 0 ≤ℤ b.dest_seq)
    × (1 ≤ text_length b.passenger_id)
    × (text_length b.passenger_id ≤ 64)
    × (1 ≤ text_length b.passenger_name)
    × (text_length b.passenger_name ≤ 120)

-- What a client is told of an error: a conflict, too much of something, a charge that was declined,
-- what is not there, or what cannot be served.
abbrev pub IsTold : Error → ℕ → Type 0
IsTold overlap_error status = status ≡ 409
IsTold illegal_transition status = status ≡ 409
IsTold no_feasible_seat status = status ≡ 409
IsTold coach_full status = status ≡ 409
IsTold seat_cap_exceeded status = status ≡ 429
IsTold velocity_exceeded status = status ≡ 429
IsTold abuse_suspected status = status ≡ 429
IsTold payment_declined status = status ≡ 402
IsTold booking_not_found status = status ≡ 404
IsTold key_error status = status ≡ 404
IsTold seat_not_bookable status = status ≡ 422
IsTold invalid_leg status = status ≡ 422
IsTold invalid_service_date status = status ≡ 422
IsTold value_error status = status ≡ 422
IsTold stop_iteration status = ⊥
IsTold index_error status = ⊥
IsTold assertion_error status = ⊥

-- The errors that no handler takes.
abbrev pub IsUntold : Error → Type 0
IsUntold e = (e ≡ stop_iteration) ⊎ (e ≡ index_error) ⊎ (e ≡ assertion_error)

status_for-IsTold : (e : Error) (status : ℕ) → status_for e ≡ some status → IsTold e status
unfolding status_for
status_for-IsTold overlap_error status h = ground arith
status_for-IsTold illegal_transition status h = ground arith
status_for-IsTold no_feasible_seat status h = ground arith
status_for-IsTold coach_full status h = ground arith
status_for-IsTold seat_cap_exceeded status h = ground arith
status_for-IsTold velocity_exceeded status h = ground arith
status_for-IsTold abuse_suspected status h = ground arith
status_for-IsTold payment_declined status h = ground arith
status_for-IsTold booking_not_found status h = ground arith
status_for-IsTold key_error status h = ground arith
status_for-IsTold seat_not_bookable status h = ground arith
status_for-IsTold invalid_leg status h = ground arith
status_for-IsTold invalid_service_date status h = ground arith
status_for-IsTold value_error status h = ground arith
status_for-IsTold stop_iteration status h = ground arith
status_for-IsTold index_error status h = ground arith
status_for-IsTold assertion_error status h = ground arith

status_for-IsUntold : (e : Error) → status_for e ≡ none → IsUntold e
unfolding status_for
status_for-IsUntold stop_iteration h = inl refl
status_for-IsUntold index_error h = inr (inl refl)
status_for-IsUntold assertion_error h = inr (inr refl)
status_for-IsUntold _ h = absurd (ground arith)

is_hold_body-IsInBounds : (b : HoldBody) → is_hold_body b ≡ true → IsInBounds b
is_hold_body-IsInBounds b h = ground arith

is_hold_body-not : (b : HoldBody) → is_hold_body b ≡ false → ¬ IsInBounds b
is_hold_body-not b h in_bounds = ground arith

module _ {F : Type 0} (deps : Deps F) (currency : String) (now : ℤ) (b : HoldBody)
    (w : World F) where
  -- What `hold_seat` is asked for: what the body says, over the leg.
  abbrev pub asked : Leg → Exec F Hold
  asked leg = hold_seat deps now (record {
    trip_id = b.trip_id;
    seat_id = b.seat_id;
    leg = leg;
    passenger_id = b.passenger_id;
    passenger_name = b.passenger_name;
    reference = b.reference;
  })

  -- The error that a valid body ends in, raised by `Leg` or by `hold_seat`.
  abbrev pub IsRaised : Error → World F → Type 0
  IsRaised e w' =
      IsInBounds b
      × (w'.store ≡ w.store)
      × (((make_leg b.origin_seq b.dest_seq ≡ err e) × (w' ≡ w))
          ⊎ ((leg : Leg) × (make_leg b.origin_seq b.dest_seq ≡ ok leg)
              × (asked leg w ≡ (err e, w'))))

  -- A response to the hold request and the world after it.
  abbrev pub IsAnswer : Reply BookingOut × World F → Type 0
  IsAnswer (sent status out, w') =
      (leg : Leg) × (h : Hold) × (status ≡ 201)
      × IsInBounds b
      × (make_leg b.origin_seq b.dest_seq ≡ ok leg)
      × (asked leg w ≡ (ok h, w'))
      × (out ≡ record {
        booking_id = h.booking_id;
        reference = h.reference;
        trip_id = h.trip_id;
        seat_id = h.seat_id;
        origin_seq = h.leg.origin_seq;
        dest_seq = h.leg.dest_seq;
        passenger_id = h.passenger_id;
        passenger_name = h.passenger_name;
        travel_class = h.travel_class;
        status = h.status;
        fare = record { cents = h.fare_cents; currency = currency };
        held_until = h.held_until;
        created_at = h.created_at;
      })
  IsAnswer (refused status, w') =
      ((¬ IsInBounds b) × (status ≡ 422) × (w' ≡ w))
      ⊎ ((e : Error) × IsTold e status × IsRaised e w')
  IsAnswer (unhandled e, w') = IsUntold e × IsRaised e w'

  abbrev sent_of : Result Hold → Result BookingOut
  sent_of (ok h) = ok (booking_out currency h)
  sent_of (err e) = err e

  refused-IsAnswer : (e : Error) (w' : World F) → IsRaised e w' → IsAnswer (reply 201 (err e), w')
  unfolding reply
  refused-IsAnswer e w' raised = go (status_for e) refl
    where
      go : (o : Option ℕ) → status_for e ≡ o → IsAnswer (refusal e o, w')
      go none s = (status_for-IsUntold e s, raised)
      go (some status) s = inr (e, status_for-IsTold e status s, raised)

  run_hold-ok :
      (leg : Leg) (r : Result Hold) (w' : World F)
      → make_leg b.origin_seq b.dest_seq ≡ ok leg
      → hold_seat deps now (hold_request b leg) w ≡ (r, w')
      → run_hold deps currency now b w ≡ (sent_of r, w')
  unfolding run_hold
  run_hold-ok leg (ok h) w' l e = ground arith
  run_hold-ok leg (err x) w' l e = ground arith

  run_hold-err :
      (x : Error)
      → make_leg b.origin_seq b.dest_seq ≡ err x
      → run_hold deps currency now b w ≡ (err x, w)
  unfolding run_hold
  run_hold-err x l = ground arith

  hold-respond :
      (r : Result BookingOut) (w' : World F)
      → is_hold_body b ≡ true
      → run_hold deps currency now b w ≡ (r, w')
      → (reply 201 r, w') ≡ hold deps currency now b w
  unfolding hold respond
  hold-respond r w' v e = ground arith

  hold-invalid : is_hold_body b ≡ false → (refused 422, w) ≡ hold deps currency now b w
  unfolding hold respond
  hold-invalid v = ground arith

  run-IsAnswer :
      (leg : Leg) (r : Result Hold) (w' : World F)
      → is_hold_body b ≡ true
      → make_leg b.origin_seq b.dest_seq ≡ ok leg
      → hold_seat deps now (hold_request b leg) w ≡ (r, w')
      → KeepsStoreOnError w (r, w')
      → IsAnswer (reply 201 (sent_of r), w')
  unfolding reply booking_out
  run-IsAnswer leg (ok h) w' v l e k = (leg, h, refl, is_hold_body-IsInBounds b v, l, e, refl)
  run-IsAnswer leg (err x) w' v l e k =
      refused-IsAnswer x w' (is_hold_body-IsInBounds b v, k, inr (leg, l, e))

  valid-IsAnswer :
      IsExclusive w.store.holds → is_hold_body b ≡ true → IsAnswer (hold deps currency now b w)
  valid-IsAnswer x v = elim (Result-cases (make_leg b.origin_seq b.dest_seq)) [
    | inr (e, l) ↦
        subst IsAnswer (hold-respond (err e) w v (run_hold-err e l))
          (refused-IsAnswer e w (is_hold_body-IsInBounds b v, refl, inl (l, refl)))
    | inl (leg, l) ↦
        let (r, w') = hold_seat deps now (hold_request b leg) w in
        subst IsAnswer (hold-respond (sent_of r) w' v (run_hold-ok leg r w' l refl)) (
          run-IsAnswer leg r w' v l refl
            (hold_seat-KeepsStoreOnError deps now (hold_request b leg) w x))
  ]

-- POST /bookings/hold, from an exclusive store: a body out of bounds is refused with 422 before
-- anything runs; for any other the answer is a 201 with the booking that `hold_seat` returns for what
-- the body asks for, field by field, or the status of the error that `Leg` or `hold_seat` raises, such
-- as 409 for an overlap (none where no handler takes it), and then the store is as it was.
pub hold_lem :
    {F : Type 0} (deps : Deps F) (currency : String) (now : ℤ) (b : HoldBody) (w : World F)
    → IsExclusive w.store.holds
    → IsAnswer deps currency now b w (hold deps currency now b w)
hold_lem deps currency now b w x = elim (Bool-cases (is_hold_body b)) [
  | inl v ↦ valid-IsAnswer deps currency now b w x v
  | inr v ↦
      subst (IsAnswer deps currency now b w) (hold-invalid deps currency now b w v)
        (inl (is_hold_body-not b v, refl, refl))
]
