-- ===== src/UseCases/Receipt.antt =====
-- backend/slr/usecases/_receipt.py: one record for a ticket, whichever channel sold it.
use train_seat_booking_syste.Prelude.{
  ℕ, String, ℤ, Option, none, some, List, [], find, get_elem?, str_eq, ◌==◌,
}
use train_seat_booking_syste.Prelude.Digits.{decimal, concat}
use train_seat_booking_syste.Domain.Errors.{Result, ok, err, stop_iteration, index_error, ◌>>=◌}
use train_seat_booking_syste.Domain.Packing.{SeatOffer}
use train_seat_booking_syste.Domain.Stations.{Station}
use train_seat_booking_syste.Domain.Timetable.{LegTimes, duration_min, format_hhmm, leg_times}
use train_seat_booking_syste.Domain.Values.{BookingStatus, TravelClass}
use train_seat_booking_syste.Ports.{Hold, Seat, Trip}

pub record StandingAdvice : Type 0 where
  pub after_seq : ℕ
  pub after_station : String
  pub seat_label : String

pub record Receipt : Type 0 where
  pub reference : String
  pub qr_payload : String
  pub passenger_id : String
  pub passenger_name : String
  pub booking_id : String
  pub trip_id : String
  pub route_code : String
  pub train_no : String
  pub train_name : String
  pub service_date : String
  pub origin_code : String
  pub origin_name : String
  pub origin_seq : ℕ
  pub dest_code : String
  pub dest_name : String
  pub dest_seq : ℕ
  pub depart : String
  pub arrive : String
  pub duration : ℤ
  pub travel_class : TravelClass
  pub fare : ℤ
  pub status : BookingStatus
  pub issued_at : ℤ
  pub coach : Option String
  pub seat : Option String
  pub standing : Option StandingAdvice

-- `seat_label(seat)`
abbrev pub label_of : Seat → String
label_of seat = concat (decimal seat.row) seat.column

abbrev pub or_raise : {A : Type 0} → Option A → Result A → Result A
or_raise none e = e
or_raise (some a) e = ok a

abbrev pub map_option : {A B : Type 0} → (A → B) → Option A → Option B
map_option f none = none
map_option f (some a) = some (f a)

module _ {F : Type 0} where
  -- `_station(trip, seq)`
  unfoldable pub station_of : Trip F → ℕ → Result (Station F)
  station_of trip seq = or_raise (find (λ s. s.seq == seq) trip.stations) (err stop_iteration)

  unfoldable pub advice_for : Trip F → Option SeatOffer → List Seat → Result (Option StandingAdvice)
  advice_for trip none pool = ok none
  advice_for trip (some offer) pool = do
    after ← station_of trip offer.board_seq
    seat ← or_raise (get_elem? pool offer.seat_index) (err index_error)
    ok (
        some (record {
          after_seq = offer.board_seq;
          after_station = after.name;
          seat_label = label_of seat;
        }))

  abbrev pub fill_receipt :
      Hold
      → Trip F
      → ℤ
      → Option Seat
      → LegTimes
      → Station F
      → Station F
      → Option StandingAdvice
      → Receipt
  fill_receipt hold trip issued_at seat times origin dest advice = record {
    reference = hold.reference;
    qr_payload = hold.reference;
    passenger_id = hold.passenger_id;
    passenger_name = hold.passenger_name;
    booking_id = hold.booking_id;
    trip_id = trip.trip_id;
    route_code = trip.route_code;
    train_no = trip.train_no;
    train_name = trip.train_name;
    service_date = trip.service_date;
    origin_code = origin.code;
    origin_name = origin.name;
    origin_seq = origin.seq;
    dest_code = dest.code;
    dest_name = dest.name;
    dest_seq = dest.seq;
    depart = format_hhmm times.depart_min;
    arrive = format_hhmm times.arrive_min;
    duration = duration_min times;
    travel_class = hold.travel_class;
    fare = hold.fare_cents;
    status = hold.status;
    issued_at = issued_at;
    coach = map_option (λ s. s.coach) seat;
    seat = map_option label_of seat;
    standing = advice;
  }

  -- `pool` is empty where the caller passes none, and then there is no offer either.
  unfoldable pub build_receipt :
      Hold → Trip F → ℤ → Option Seat → Option SeatOffer → List Seat → Result Receipt
  build_receipt hold trip issued_at seat offer pool = do
    times ← leg_times trip.stops hold.leg
    origin ← station_of trip hold.leg.origin_seq
    dest ← station_of trip hold.leg.dest_seq
    advice ← advice_for trip offer pool
    ok (fill_receipt hold trip issued_at seat times origin dest advice)

  abbrev pub seat_by_id : Trip F → String → Option Seat
  seat_by_id trip seat_id = find (λ s. str_eq s.seat_id seat_id) trip.seats

  -- `receipt_for(hold, trip, issued_at=…)`
  unfoldable pub receipt_for : Hold → Trip F → ℤ → Result Receipt
  receipt_for hold trip issued_at =
      build_receipt hold trip issued_at (seat_by_id trip hold.seat_id) none []
