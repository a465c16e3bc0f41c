-- ===== src/UseCases/SearchTrains.antt =====
-- backend/slr/usecases/search_trains.py: the departures of a day that serve a journey. The use case
-- itself is in Search.
pub mod Served
pub mod Search
use train_seat_booking_syste.Prelude.{
  ℕ, ◌+◌, Bool, ◌&&◌, String, ℤ, pos, ◌+ℤ◌, Option, none, some, List, [], ◌∷◌, length, select, any,
  find, str_eq, ltb, ltb_ℤ, bool_not, if◌then◌else◌,
}
use train_seat_booking_syste.Prelude.Dict.{Dict, values}
use train_seat_booking_syste.Domain.Errors.{Result, ok, err, ◌>>=◌}
use train_seat_booking_syste.Domain.Stations.{Station, Leg, distance_km}
use train_seat_booking_syste.Domain.Timetable.{
  LegTimes, duration_min, format_hhmm, serves, leg_times,
}
use train_seat_booking_syste.Domain.Values.{TravelClass, class_order, same_class, is_reserved}
use train_seat_booking_syste.Ports.{Hold, Seat, Trip, Deps}
use train_seat_booking_syste.UseCases.Support.{busy_seats, price_leg}
use train_seat_booking_syste.World
use train_seat_booking_syste.World.{World, Exec}

pub record ClassAvailability : Type 0 where
  pub travel_class : TravelClass
  pub free_seats : ℕ
  pub fare : ℤ

pub record TrainOption (F : Type 0) : Type 0 where
  pub trip_id : String
  pub train_no : String
  pub train_name : String
  pub route_code : String
  pub service_date : String
  pub origin_seq : ℕ
  pub dest_seq : ℕ
  pub depart : String
  pub arrive : String
  pub duration : ℤ
  pub distance : F
  pub classes : List ClassAvailability

abbrev pub total_free : List ClassAvailability → ℕ
total_free [] = 0
total_free (c ∷ classes) = c.free_seats + total_free classes

abbrev pub min_fare : ℤ → List ClassAvailability → ℤ
min_fare least [] = least
min_fare least (c ∷ classes) = min_fare (if ltb_ℤ c.fare least then c.fare else least) classes

-- the properties `free_seats` and `from_fare` of an option
abbrev pub free_seats_of : {F : Type 0} → TrainOption F → ℕ
free_seats_of o = total_free o.classes

abbrev pub from_fare : {F : Type 0} → TrainOption F → ℤ
from_fare o = elim o.classes [ [] ↦ pos 0 | c ∷ classes ↦ min_fare c.fare classes ]

-- the reservable seats of the class that no active booking is on
abbrev pub free_of_class : List String → TravelClass → List Seat → List Seat
free_of_class busy travel_class =
    select (λ s. same_class s.travel_class travel_class && bool_not (any (str_eq s.seat_id) busy))

-- `CLASS_ORDER` less the classes that no reservable seat has
abbrev pub present_classes : List Seat → List TravelClass
present_classes reservable =
    select (λ c. any (λ s. same_class s.travel_class c) reservable) class_order

abbrev pub append_some : {A : Type 0} → Option A → List A → List A
append_some none xs = xs
append_some (some x) xs = x ∷ xs

module _ {F : Type 0} where
  abbrev pub reservable_of : Trip F → List Seat
  reservable_of trip = select (λ s. is_reserved s.coach_type) trip.seats

  -- `_station(trip, code)`
  abbrev pub station_by_code : Trip F → String → Option (Station F)
  station_by_code trip code = find (λ s. str_eq s.code code) trip.stations

  -- The loop that fills `classes`.
  unfoldable pub class_options :
      Deps F → Dict Hold → Trip F → Leg → List TravelClass → Result (List ClassAvailability)
  class_options deps holds trip leg [] = ok []
  class_options deps holds trip leg (c ∷ classes) = do
    fare ← price_leg deps holds trip leg c
    rest ← class_options deps holds trip leg classes
    let busy = busy_seats holds trip.trip_id leg
    let free = length (free_of_class busy c (reservable_of trip))
    ok (record { travel_class = c; free_seats = free; fare = fare } ∷ rest)

  abbrev pub train_option : Trip F → Leg → LegTimes → F → List ClassAvailability → TrainOption F
  train_option trip leg times km classes = record {
    trip_id = trip.trip_id;
    train_no = trip.train_no;
    train_name = trip.train_name;
    route_code = trip.route_code;
    service_date = trip.service_date;
    origin_seq = leg.origin_seq;
    dest_seq = leg.dest_seq;
    depart = format_hhmm times.depart_min;
    arrive = format_hhmm times.arrive_min;
    duration = duration_min times;
    distance = km;
    classes = classes;
  }

  -- `_option` from the test of the calling pattern on
  unfoldable pub option_over : Deps F → Dict Hold → Trip F → Leg → Result (Option (TrainOption F))
  option_over deps holds trip leg = if bool_not (serves trip.stops leg) then ok none else do
    times ← leg_times trip.stops leg
    classes ← class_options deps holds trip leg (present_classes (reservable_of trip))
    km ← distance_km deps.float_sub trip.stations leg
    ok (some (train_option trip leg times km classes))

  -- `_option`
  unfoldable pub option_for :
      Deps F → Dict Hold → Trip F → String → String → Result (Option (TrainOption F))
  option_for deps holds trip origin_code dest_code = elim (station_by_code trip origin_code) [
    | none ↦ ok none
    | some o ↦ elim (station_by_code trip dest_code) [
      | none ↦ ok none
      | some d ↦
          if ltb o.seq d.seq
          then option_over deps holds trip (record { origin_seq = o.seq; dest_seq = d.seq })
          else ok none
    ]
  ]

  -- The loop over the trips of the day.
  unfoldable pub options_of :
      Deps F → Dict Hold → String → String → List (Trip F) → Result (List (TrainOption F))
  options_of deps holds origin_code dest_code [] = ok []
  options_of deps holds origin_code dest_code (trip ∷ trips) = do
    option ← option_for deps holds trip origin_code dest_code
    rest ← options_of deps holds origin_code dest_code trips
    ok (append_some option rest)
