-- ===== src/UseCases/HoldSeat/Outcome.antt =====
-- What `hold_seat` returns and leaves behind.
use train_seat_booking_syste.Prelude.{
  ◌≡◌, ◌≢◌, ◌⊎◌, inl, inr, ◌+◌, ℤ, ◌+ℤ◌, String, Option, none, some, [], ◌∷◌, ◌++◌, arith,
  Option-cases, Bool-cases, str_eq, eq_iff,
}
use train_seat_booking_syste.Domain.Errors.{ok, Result-cases}
use train_seat_booking_syste.Domain.Values.{held}
use train_seat_booking_syste.Ports.{Hold, Seat, Trip, Deps}
use train_seat_booking_syste.MemoryRepo
use train_seat_booking_syste.MemoryRepo.Exclusive.{
  IsExclusive, expire_due-IsExclusive, add_hold-IsExclusive,
}
use train_seat_booking_syste.World.{World, enter, rollback, with_uow, get_trip}
use train_seat_booking_syste.World.Atomic.{
  IsGood, KeepsStoreOnError, IsKept, IsGood-IsSafe, with_uow-IsKept, with_uow-KeepsStoreOnError,
}
use train_seat_booking_syste.UseCases.Support.{hold_ttl, validate_leg, price_leg}
use train_seat_booking_syste.UseCases.AntiTout.{enforce_anti_tout}
use train_seat_booking_syste.UseCases.HoldSeat.{
  HoldRequest, replayed, reserved_seat, place_hold, hold_seat, hold_body,
}

module _ {F : Type 0} (deps : Deps F) (now : ℤ) (r : HoldRequest) (w : World F) where
  place_hold-IsGood : IsExclusive w.store.holds → IsGood w (place_hold deps now r (enter w))
  unfolding place_hold
  place_hold-IsGood x = grind (arith, expire_due-IsExclusive, add_hold-IsExclusive)

  hold_body-IsGood : IsExclusive w.store.holds → IsGood w (hold_body deps now r (enter w))
  unfolding hold_body
  hold_body-IsGood x = ground (arith, place_hold-IsGood x)

  pub hold_seat-IsKept : IsExclusive w.store.holds → IsKept w (hold_seat deps now r w).1
  unfolding hold_seat
  hold_seat-IsKept x =
      with_uow-IsKept (hold_body deps now r) w x
        (IsGood-IsSafe w (hold_body deps now r (enter w)) (hold_body-IsGood x))

  -- From an exclusive store, a `hold_seat` that raises leaves the store as it was: not even the holds
  -- that it expired stay expired.
  pub hold_seat-KeepsStoreOnError :
      IsExclusive w.store.holds → KeepsStoreOnError w (hold_seat deps now r w)
  unfolding hold_seat
  hold_seat-KeepsStoreOnError x =
      with_uow-KeepsStoreOnError (hold_body deps now r) w (hold_body-IsGood x)

  -- The reference that a new booking bears: that of the request, and the next of the generator where
  -- the request has none or an empty one.
  abbrev pub Bears : Option String → String → World F → Type 0
  Bears none reference w' =
      (reference ≡ deps.nth_reference (w.referenced + 1)) × (w'.referenced ≡ w.referenced + 1)
  Bears (some given) reference w' =
      ((given ≡ "")
        × (reference ≡ deps.nth_reference (w.referenced + 1))
        × (w'.referenced ≡ w.referenced + 1))
      ⊎ ((given ≢ "") × (reference ≡ given) × (w'.referenced ≡ w.referenced))

  -- What a new hold is: the request's seat and leg on a known trip, HELD until the configured time,
  -- at the price of the leg while the seat was still free, after the gate has let it pass; and what
  -- it leaves: the store with the overdue holds expired and the new one added, one event, and one
  -- message to the passenger.
  pub record IsPlaced (trip : Trip F) (seat : Seat) (ttl : ℤ) (h : Hold) (w' : World F)
      : Type 0 where
    pub known_trip : get_trip w.store.trips r.trip_id ≡ ok trip
    pub on_route : validate_leg trip r.leg ≡ ok tt
    pub reservable : reserved_seat trip r.seat_id ≡ ok seat
    pub allowed :
        enforce_anti_tout deps
          (MemoryRepo.expire_due w.store.holds now).1
          r.trip_id
          r.passenger_id
          now
        ≡ ok tt
    pub priced :
        price_leg deps (MemoryRepo.expire_due w.store.holds now).1 trip r.leg seat.travel_class
        ≡ ok h.fare_cents
    pub configured : deps.get_int hold_ttl ≡ ok ttl
    pub place : (h.trip_id ≡ r.trip_id) × (h.seat_id ≡ r.seat_id) × (h.leg ≡ r.leg)
    pub passenger :
        (h.passenger_id ≡ r.passenger_id)
        × (h.passenger_name ≡ r.passenger_name)
        × (h.travel_class ≡ seat.travel_class)
    pub times : (h.status ≡ held) × (h.held_until ≡ now +ℤ ttl) × (h.created_at ≡ now)
    pub identified :
        (h.booking_id ≡ deps.nth_id (w.issued + 1))
        × (w'.issued ≡ w.issued + 1)
        × Bears r.reference h.reference w'
    pub told :
        w'.sent
        ≡ w.sent
          ++ record {
            recipient = r.passenger_id;
            event = "seat_held";
            detail = ("reference", h.reference) ∷ ("seat_id", r.seat_id) ∷ [];
          }
            ∷ []
    pub added :
        MemoryRepo.add_hold (MemoryRepo.expire_due w.store.holds now).1 h ≡ ok w'.store.holds
    pub log :
        (w'.events
          ≡ w.events
            ++ record { trip_id = r.trip_id; seat_id = r.seat_id; leg = r.leg; status = held } ∷ [])
        × (w'.charges ≡ w.charges)
        × (w'.snapshot ≡ none)

  -- The ladder of guards: each returned, and with what.
  place_hold-guards :
      (h : Hold) (w' : World F)
      → place_hold deps now r w ≡ (ok h, w')
      → (trip : Trip F) × (seat : Seat) × (ttl : ℤ) × (get_trip w.store.trips r.trip_id ≡ ok trip)
        × (reserved_seat trip r.seat_id ≡ ok seat)
        × (deps.get_int hold_ttl ≡ ok ttl)
  unfolding place_hold
  place_hold-guards h w' e = elim (Result-cases (get_trip w.store.trips r.trip_id)) [
    | inr (x, ex) ↦ ground arith
    | inl (trip, et) ↦ elim (Result-cases (reserved_seat trip r.seat_id)) [
      | inr (x, ex) ↦ ground arith
      | inl (seat, es) ↦ elim (Result-cases (deps.get_int hold_ttl)) [
        | inr (x, ex) ↦ ground arith
        | inl (ttl, el) ↦ (trip, seat, ttl, et, es, el)
      ]
    ]
  ]

  place_hold-commits :
      (h : Hold) (w' : World F) → place_hold deps now r w ≡ (ok h, w') → w'.snapshot ≡ none
  unfolding place_hold
  place_hold-commits h w' e = ground arith

  module _ (trip : Trip F) (seat : Seat) (ttl : ℤ) (h : Hold) (w' : World F)
      (et : get_trip w.store.trips r.trip_id ≡ ok trip)
      (es : reserved_seat trip r.seat_id ≡ ok seat) (el : deps.get_int hold_ttl ≡ ok ttl)
      (e : place_hold deps now r w ≡ (ok h, w')) where
    placed_checks :
        (validate_leg trip r.leg ≡ ok tt)
        × (enforce_anti_tout deps
              (MemoryRepo.expire_due w.store.holds now).1
              r.trip_id
              r.passenger_id
              now
            ≡ ok tt)
    unfolding place_hold
    placed_checks = ground arith

    placed_price :
        price_leg deps (MemoryRepo.expire_due w.store.holds now).1 trip r.leg seat.travel_class
        ≡ ok h.fare_cents
    unfolding place_hold
    placed_price = ground arith

    placed_place : (h.trip_id ≡ r.trip_id) × (h.seat_id ≡ r.seat_id) × (h.leg ≡ r.leg)
    unfolding place_hold
    placed_place = ground arith

    placed_passenger :
        (h.passenger_id ≡ r.passenger_id)
        × (h.passenger_name ≡ r.passenger_name)
        × (h.travel_class ≡ seat.travel_class)
    unfolding place_hold
    placed_passenger = ground arith

    placed_times : (h.status ≡ held) × (h.held_until ≡ now +ℤ ttl) × (h.created_at ≡ now)
    unfolding place_hold
    placed_times = ground arith

    placed_named :
        (h.booking_id ≡ deps.nth_id (w.issued + 1))
        × (w'.issued ≡ w.issued + 1)
        × Bears r.reference h.reference w'
    unfolding place_hold
    placed_named = elim (Option-cases r.reference) [
      | inl n ↦ simp n (ground arith)
      | inr (given, g) ↦ elim (Bool-cases (str_eq given "")) [
        | inl b ↦ simp g (ground (arith, eq_iff given ""))
        | inr b ↦ simp g (ground (arith, eq_iff given ""))
      ]
    ]

    placed_told :
        w'.sent
        ≡ w.sent
          ++ record {
            recipient = r.passenger_id;
            event = "seat_held";
            detail = ("reference", h.reference) ∷ ("seat_id", r.seat_id) ∷ [];
          }
            ∷ []
    unfolding place_hold
    placed_told = ground arith

    placed_store :
        MemoryRepo.add_hold (MemoryRepo.expire_due w.store.holds now).1 h ≡ ok w'.store.holds
    unfolding place_hold
    placed_store = ground arith

    placed_log :
        (w'.events
          ≡ w.events
            ++ record { trip_id = r.trip_id; seat_id = r.seat_id; leg = r.leg; status = held } ∷ [])
        × (w'.charges ≡ w.charges)
        × (w'.snapshot ≡ none)
    unfolding place_hold
    placed_log = ground arith

    placed : IsPlaced trip seat ttl h w'
    placed = record {
      known_trip = et;
      on_route = placed_checks.0;
      reservable = es;
      allowed = placed_checks.1;
      priced = placed_price;
      configured = el;
      place = placed_place;
      passenger = placed_passenger;
      times = placed_times;
      identified = placed_named;
      told = placed_told;
      added = placed_store;
      log = placed_log;
    }

module _ {F : Type 0} (deps : Deps F) (now : ℤ) (r : HoldRequest) (w : World F) where
  place_hold_kept :
      (h : Hold) (w' : World F)
      → replayed w.store.holds r.reference ≡ none
      → hold_seat deps now r w ≡ (ok h, w')
      → place_hold deps now r (enter w) ≡ (ok h, w')
  unfolding hold_seat hold_body with_uow
  place_hold_kept h w' en e =
      ground (arith, place_hold-commits deps now r (enter w) h (place_hold deps now r (enter w)).1)

  -- An earlier booking of the same reference, nothing having changed; or a hold that has just been
  -- placed, its reference being new to the store.
  abbrev pub IsReplayOrPlaced : Hold → World F → Type 0
  IsReplayOrPlaced h w' =
      ((replayed w.store.holds r.reference ≡ some h) × (w' ≡ rollback (enter w)))
      ⊎ ((replayed w.store.holds r.reference ≡ none)
          × (trip : Trip F) × (seat : Seat) × (ttl : ℤ) × IsPlaced deps now r (enter w) trip seat
              ttl h w')

  -- A hold that `hold_seat` returns is the booking that has the request's reference, and then
  -- nothing has changed; or no booking has it, and the hold is HELD on the requested seat and leg of
  -- a known trip, for the passenger, at the price of the leg, until the configured time; the leg was
  -- on the route, the seat reservable, the gate passed and the repository accepted it; its reference is
  -- the request's, or the generator's next where the request has none or an empty one; one event was
  -- published, one message with the reference sent to the passenger, and nothing charged.
  pub hold_seat-IsReplayOrPlaced :
      (h : Hold) (w' : World F) → hold_seat deps now r w ≡ (ok h, w') → IsReplayOrPlaced h w'
  hold_seat-IsReplayOrPlaced h w' e = elim (Option-cases (replayed w.store.holds r.reference)) [
    | inr (g, eg) ↦ inl (unfold hold_seat hold_body with_uow in ground arith)
    | inl en ↦
        let kept = place_hold_kept h w' en e in
        let (trip, seat, ttl, et, es, el) = place_hold-guards deps now r (enter w) h w' kept in
        inr (en, trip, seat, ttl, placed deps now r (enter w) trip seat ttl h w' et es el kept)
  ]
