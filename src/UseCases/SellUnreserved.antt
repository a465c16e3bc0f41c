-- ===== src/UseCases/SellUnreserved.antt =====
-- backend/slr/usecases/sell_unreserved.py
pub mod Outcome
pub mod Assigned
use train_seat_booking_syste.Prelude.{
  ℕ, Bool, ◌&&◌, String, ℤ, pos, leb_ℤ, Option, none, some, List, [], ◌∷◌, map, length, select,
  get_elem?, bool_not,
}
use train_seat_booking_syste.Prelude.Dict.{Dict}
use train_seat_booking_syste.Domain.Errors.{
  Result, ok, err, coach_full, payment_declined, seat_not_bookable, index_error, raise_if,
}
use train_seat_booking_syste.Domain.Errors
use train_seat_booking_syste.Domain.Packing.{SeatOffer, choose_seat, predict_standing_seats}
use train_seat_booking_syste.Domain.Stations.{Leg}
use train_seat_booking_syste.Domain.Values.{
  TravelClass, BookingStatus, confirmed, standing, is_reserved, same_class, status_value,
}
use train_seat_booking_syste.Ports.{Hold, Seat, Trip, Deps}
use train_seat_booking_syste.MemoryRepo
use train_seat_booking_syste.World.{
  World, Exec, pure, lift, ◌>>=◌, ◌>>◌, with_uow, commit, trip_of, gets_holds, expire_due, add_hold,
  publish, notify, charge, new_id,
}
use train_seat_booking_syste.UseCases.AntiTout.{enforce_anti_tout}
use train_seat_booking_syste.UseCases.HoldSeat.{replayed, reference_or_new}
use train_seat_booking_syste.UseCases.Receipt.{Receipt, build_receipt, receipt_for, or_raise}
use train_seat_booking_syste.UseCases.Support.{standing_capacity, validate_leg, price_leg}

pub record SaleRequest : Type 0 where
  pub trip_id : String
  pub leg : Leg
  pub passenger_id : String
  pub passenger_name : String
  pub travel_class : TravelClass
  pub reference : Option String

abbrev pub seat_id_of : Option Seat → String
seat_id_of none = ""
seat_id_of (some seat) = seat.seat_id

abbrev pub sold_status : Option Seat → BookingStatus
sold_status none = standing
sold_status (some seat) = confirmed

abbrev pub sold_hold : SaleRequest → String → String → Option Seat → ℤ → ℤ → Hold
sold_hold r booking_id reference seat fare now = record {
  booking_id = booking_id;
  reference = reference;
  trip_id = r.trip_id;
  seat_id = seat_id_of seat;
  leg = r.leg;
  passenger_id = r.passenger_id;
  passenger_name = r.passenger_name;
  travel_class = r.travel_class;
  status = sold_status seat;
  fare_cents = fare;
  held_until = pos 0;
  created_at = now;
}

-- the legs on each seat of the pool
abbrev pub legs_by_seat : Dict Hold → String → List Seat → List (List Leg)
legs_by_seat holds trip_id =
    map (λ s. map (λ h. h.leg) (MemoryRepo.active_for_seat holds trip_id s.seat_id))

abbrev pub first_offer : List (Option SeatOffer) → Result (Option SeatOffer)
first_offer [] = err index_error
first_offer (o ∷ rest) = ok o

abbrev pub is_empty : {A : Type 0} → List A → Bool
is_empty [] = Bool.true
is_empty (x ∷ xs) = Bool.false

-- `pool[chosen] if chosen is not None else None`
abbrev pub seat_chosen : List Seat → Option ℕ → Result (Option Seat)
seat_chosen pool none = ok none
seat_chosen pool (some i) = elim (get_elem? pool i) [
  | none ↦ err index_error
  | some s ↦ ok (some s)
]

module _ {F : Type 0} where
  -- `_pool(trip, travel_class)`
  unfoldable pub pool_of : Trip F → TravelClass → List Seat
  pool_of trip travel_class =
      select (λ s. bool_not (is_reserved s.coach_type) && same_class s.travel_class travel_class)
        trip.seats

  -- `_guard_standing_capacity`
  unfoldable pub guard_standing_capacity :
      Deps F → Dict Hold → String → TravelClass → Result (Unit {0})
  guard_standing_capacity deps holds trip_id travel_class =
      Errors.◌>>=◌ (deps.get_int standing_capacity) (λ cap.
        raise_if
          (leb_ℤ cap (
            pos (
              length (
                select (λ h. same_class h.travel_class travel_class)
                  (MemoryRepo.by_status holds trip_id standing)))))
          coach_full)

  -- the branch `if chosen is None`
  unfoldable pub standing_offer :
      Deps F → Dict Hold → SaleRequest → List (List Leg) → Option ℕ → Result (Option SeatOffer)
  standing_offer deps holds r seat_legs (some chosen) = ok none
  standing_offer deps holds r seat_legs none =
      Errors.◌>>=◌ (guard_standing_capacity deps holds r.trip_id r.travel_class)
        (λ _. first_offer (predict_standing_seats seat_legs (r.leg ∷ [])))

  abbrev pub publish_seated : Hold → Option Seat → Exec F (Unit {0})
  publish_seated sold none = pure tt
  publish_seated sold (some seat) = publish (record {
    trip_id = sold.trip_id;
    seat_id = seat.seat_id;
    leg = sold.leg;
    status = sold.status;
  })

  -- A new sale, up to and with `uow.commit()`: the hold, its trip and seat, the offer and the pool.
  unfoldable pub ring_up :
      Deps F → ℤ → SaleRequest → Exec F (Hold × Trip F × Option Seat × Option SeatOffer × List Seat)
  ring_up deps now r = do
    expire_due now
    trip ← trip_of r.trip_id
    lift (validate_leg trip r.leg)
    holds ← gets_holds (λ d. d)
    lift (enforce_anti_tout deps holds r.trip_id r.passenger_id now)
    let pool = pool_of trip r.travel_class
    lift (raise_if (is_empty pool) seat_not_bookable)
    let seat_legs = legs_by_seat holds r.trip_id pool
    let chosen = choose_seat seat_legs r.leg
    offer ← lift (standing_offer deps holds r seat_legs chosen)
    fare ← lift (price_leg deps holds trip r.leg r.travel_class)
    reference ← reference_or_new deps r.reference
    result ← charge deps reference fare
    lift (raise_if (bool_not result.is_ok) payment_declined)
    seat ← lift (seat_chosen pool chosen)
    booking_id ← new_id deps
    let sold = sold_hold r booking_id reference seat fare now
    add_hold sold
    publish_seated sold seat
    notify r.passenger_id "counter_sale"
        (("reference", reference) ∷ ("status", status_value sold.status) ∷ [])
    commit
    pure (sold, trip, seat, offer, pool)

  -- a reference that was sold before: its receipt, and nothing else
  unfoldable pub replay_sale : ℤ → Hold → Exec F Receipt
  replay_sale now existing = do
    trip ← trip_of existing.trip_id
    lift (receipt_for existing trip now)

  unfoldable pub new_sale : Deps F → ℤ → SaleRequest → Exec F Receipt
  new_sale deps now r = do
    (sold, trip, seat, offer, pool) ← ring_up deps now r
    lift (build_receipt sold trip now seat offer pool)

  unfoldable pub sell_body : Deps F → ℤ → SaleRequest → Exec F Receipt
  sell_body deps now r = do
    holds ← gets_holds (λ d. d)
    elim (replayed holds r.reference) [
      | some existing ↦ replay_sale now existing
      | none ↦ new_sale deps now r
    ]

  unfoldable pub sell_unreserved : Deps F → ℤ → SaleRequest → Exec F Receipt
  sell_unreserved deps now r = with_uow (sell_body deps now r)
