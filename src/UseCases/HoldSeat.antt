-- ===== src/UseCases/HoldSeat.antt =====
-- backend/slr/usecases/hold_seat.py
pub mod Outcome
use train_seat_booking_syste.Prelude.{
  ℕ, ◌≡◌, refl, Bool, true, false, String, ℤ, ◌+ℤ◌, Option, none, some, List, [], ◌∷◌, find, str_eq,
  arith, if◌then◌else◌,
}
use train_seat_booking_syste.Prelude.Dict.{Dict, lookup}
use train_seat_booking_syste.Domain.Errors.{Result, ok, err, seat_not_bookable}
use train_seat_booking_syste.Domain.Stations.{Leg}
use train_seat_booking_syste.Domain.Values.{TravelClass, held, is_reserved}
use train_seat_booking_syste.Ports.{Hold, Seat, Trip, Deps}
use train_seat_booking_syste.MemoryRepo
use train_seat_booking_syste.World.{
  World, Exec, pure, lift, ◌>>=◌, ◌>>◌, with_uow, commit, trip_of, gets_holds, expire_due, add_hold,
  publish, notify, new_id, new_reference,
}
use train_seat_booking_syste.UseCases.Support.{hold_ttl, validate_leg, price_leg}
use train_seat_booking_syste.UseCases.AntiTout.{enforce_anti_tout}

pub record HoldRequest : Type 0 where
  pub trip_id : String
  pub seat_id : String
  pub leg : Leg
  pub passenger_id : String
  pub passenger_name : String
  pub reference : Option String

abbrev pub new_hold : HoldRequest → String → String → TravelClass → ℤ → ℤ → ℤ → Hold
new_hold r booking_id reference travel_class fare held_until now = record {
  booking_id = booking_id;
  reference = reference;
  trip_id = r.trip_id;
  seat_id = r.seat_id;
  leg = r.leg;
  passenger_id = r.passenger_id;
  passenger_name = r.passenger_name;
  travel_class = travel_class;
  status = held;
  fare_cents = fare;
  held_until = held_until;
  created_at = now;
}

-- the early return: a reference that was held before
abbrev pub replayed : Dict Hold → Option String → Option Hold
replayed holds none = none
replayed holds (some reference) = MemoryRepo.by_reference holds reference

module _ {F : Type 0} where
  -- `_reserved_seat`
  unfoldable pub reserved_seat : Trip F → String → Result Seat
  reserved_seat trip seat_id = elim (find (λ s. str_eq s.seat_id seat_id) trip.seats) [
    | none ↦ err seat_not_bookable
    | some seat ↦ if is_reserved seat.coach_type then ok seat else err seat_not_bookable
  ]

  -- `reference or deps.references.new_reference()`: the empty text counts as none.
  abbrev pub reference_or_new : Deps F → Option String → Exec F String
  reference_or_new deps none = new_reference deps
  reference_or_new deps (some reference) =
      if str_eq reference "" then new_reference deps else pure reference

  -- the body after the early return
  unfoldable pub place_hold : Deps F → ℤ → HoldRequest → Exec F Hold
  place_hold deps now r = do
    expire_due now
    trip ← trip_of r.trip_id
    lift (validate_leg trip r.leg)
    seat ← lift (reserved_seat trip r.seat_id)
    holds ← gets_holds (λ d. d)
    lift (enforce_anti_tout deps holds r.trip_id r.passenger_id now)
    booking_id ← new_id deps
    reference ← reference_or_new deps r.reference
    fare ← lift (price_leg deps holds trip r.leg seat.travel_class)
    ttl ← lift (deps.get_int hold_ttl)
    let hold = new_hold r booking_id reference seat.travel_class fare (now +ℤ ttl) now
    add_hold hold
    publish (record { trip_id = r.trip_id; seat_id = r.seat_id; leg = r.leg; status = held })
    notify r.passenger_id "seat_held" (("reference", reference) ∷ ("seat_id", r.seat_id) ∷ [])
    commit
    pure hold

  unfoldable pub hold_body : Deps F → ℤ → HoldRequest → Exec F Hold
  hold_body deps now r = do
    holds ← gets_holds (λ d. d)
    elim (replayed holds r.reference) [
      | some existing ↦ pure existing
      | none ↦ place_hold deps now r
    ]

  unfoldable pub hold_seat : Deps F → ℤ → HoldRequest → Exec F Hold
  hold_seat deps now r = with_uow (hold_body deps now r)
