-- ===== src/UseCases/SearchTrains/Served.antt =====
-- What a departure in the search result means: the train serves the journey, the classes are priced
-- as a booking would be, and the seats counted as free can be booked.
use train_seat_booking_syste.Prelude.{
  ℤ, ◌≢◌, All, ◌<◌, ◌≡◌, refl, ◌↔◌, inl, inr, true, false, String, none, some, List, [], ◌&&◌, ◌∷◌,
  arith, eq_iff, map, length, select, any, str_eq, ltb, Bool-cases, Option-cases,
}
use train_seat_booking_syste.Prelude.Dict.{Dict, insert, values}
use train_seat_booking_syste.Domain.Errors.{ok}
use train_seat_booking_syste.Domain.Stations.{Station, Leg, overlaps}
use train_seat_booking_syste.Domain.Timetable.{serves}
use train_seat_booking_syste.Domain.Values.{TravelClass, is_active}
use train_seat_booking_syste.Ports.{Hold, Trip, Deps}
use train_seat_booking_syste.MemoryRepo.{
  is_active_on_seat, active_for_seat, active_holds, blocks, add_hold,
}
use train_seat_booking_syste.UseCases.Support.{distinct, busy_seats, price_leg}
use train_seat_booking_syste.UseCases.SearchTrains.{
  ClassAvailability, TrainOption, free_of_class, present_classes, reservable_of, station_by_code,
  option_over, option_for,
}

any-distinct : (y : String) (xs : List String) → any (str_eq y) (distinct xs) ≡ any (str_eq y) xs
any-distinct y [] = refl
any-distinct y (x ∷ xs) = ground (arith, eq_iff y x, any-distinct y xs)

-- Where no active booking over the leg has the seat, none of the seat's stands in the way.
unblocked :
    (hold : Hold) (hs : List Hold)
    → any (str_eq hold.seat_id) (
        map
          (λ h. h.seat_id)
          (select
            (λ h. overlaps h.leg hold.leg)
            (select (λ h. str_eq h.trip_id hold.trip_id && is_active h.status) hs)))
      ≡ false
    → any (blocks hold) (select (is_active_on_seat hold.trip_id hold.seat_id) hs) ≡ false
unblocked hold [] e = refl
unblocked hold (h ∷ hs) e =
    ground (arith, eq_iff hold.seat_id h.seat_id, eq_iff h.seat_id hold.seat_id, unblocked hold hs)

-- A seat that the search counts as free over a leg can be booked over that leg: the store accepts
-- every hold on it.
pub add_hold-free_seat :
    (holds : Dict Hold) (hold : Hold)
    → any (str_eq hold.seat_id) (busy_seats holds hold.trip_id hold.leg) ≡ false
    → add_hold holds hold ≡ ok (insert hold.booking_id hold holds)
unfolding add_hold active_for_seat active_holds
add_hold-free_seat holds hold e = ground (
  arith,
  any-distinct hold.seat_id (
      map (λ h. h.seat_id)
        (select (λ h. overlaps h.leg hold.leg)
          (select (λ h. str_eq h.trip_id hold.trip_id && is_active h.status) (values holds)))),
  unblocked hold (values holds),
)

abbrev pub leg_between : {F : Type 0} → Station F → Station F → Leg
leg_between o d = record { origin_seq = o.seq; dest_seq = d.seq }

module _ {F : Type 0} (deps : Deps F) (holds : Dict Hold) (trip : Trip F) where
  -- The price of a booking in the class, and the number of its seats without an active booking.
  abbrev IsQuoted : Leg → ClassAvailability → Type 0
  IsQuoted leg c =
      (price_leg deps holds trip leg c.travel_class ≡ ok c.fare)
      × (c.free_seats
          ≡ length (
              free_of_class (busy_seats holds trip.trip_id leg) c.travel_class
                (reservable_of trip)))

  abbrev availability : Leg → TravelClass → ℤ → ClassAvailability
  availability leg t fare = record {
    travel_class = t;
    free_seats = length (free_of_class (busy_seats holds trip.trip_id leg) t (reservable_of trip));
    fare = fare;
  }

  -- What an option says, for the ends of the leg that it was found for.
  abbrev pub Describes : TrainOption F → Leg → Type 0
  Describes opt leg =
      (opt.origin_seq ≡ leg.origin_seq)
      × (opt.dest_seq ≡ leg.dest_seq)
      × (map (λ c. c.travel_class) opt.classes ≡ present_classes (reservable_of trip))
      × All (IsQuoted leg) opt.classes

  option_over-not-none :
      (leg : Leg) → serves trip.stops leg ≡ true → option_over deps holds trip leg ≢ ok none
  unfolding option_over
  option_over-not-none leg sv e = ground arith

  option_over-none :
      (leg : Leg) → serves trip.stops leg ≡ false → option_over deps holds trip leg ≡ ok none
  unfolding option_over
  option_over-none leg sv = ground arith

-- A train is left out, without an error, exactly where its route does not pass the two stations in
-- this order or it does not call at both.
pub option_for-eq-none_iff :
    {F : Type 0} (deps : Deps F) (holds : Dict Hold) (trip : Trip F)
    (origin_code dest_code : String)
    → (option_for deps holds trip origin_code dest_code ≡ ok none) ↔ (
        (o d : Station F)
        → station_by_code trip origin_code ≡ some o
        → station_by_code trip dest_code ≡ some d
        → o.seq < d.seq
        → serves trip.stops (leg_between o d) ≡ false)
unfolding option_for
option_for-eq-none_iff {F} deps holds trip origin_code dest_code = (
  λ e o d ho hd lt. elim (Bool-cases (serves trip.stops (leg_between o d))) [
    | inr n ↦ n
    | inl sv ↦ ground (arith, option_over-not-none deps holds trip (leg_between o d) sv)
  ],
  λ unserved. elim (Option-cases (station_by_code trip origin_code)) [
    | inl n ↦ ground arith
    | inr (o, ho) ↦ elim (Option-cases (station_by_code trip dest_code)) [
      | inl n ↦ ground arith
      | inr (d, hd) ↦ elim (Bool-cases (ltb o.seq d.seq)) [
        | inr n ↦ ground arith
        | inl lt ↦
            let none_over =
              option_over-none deps holds trip (leg_between o d)
                (unserved o d ho hd (ground arith)) in
            ground arith
      ]
    ]
  ],
)
