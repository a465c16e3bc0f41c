-- ===== src/SqlRepo.antt =====
-- backend/slr/adapters/sqlalchemy_repo.py and orm.py: the rows of the two tables, and their
-- conversion from and to the records of the ports. A JSON column is the records that are
-- written to it. Sessions are not modelled.
pub mod RoundTrip
pub mod Exclusion
pub mod Trips
pub mod Queries
use train_seat_booking_syste.Prelude.{
  ℕ, Bool, String, ℤ, pos, Option, none, some, List, [], ◌∷◌, map, str_eq, if◌then◌else◌,
}
use train_seat_booking_syste.Domain.Errors.{Result, ok, err, value_error, assertion_error, ◌>>=◌}
use train_seat_booking_syste.Domain.Stations.{Station, Leg, make_leg}
use train_seat_booking_syste.Domain.Timetable.{Stop, make_stop, departure_min}
use train_seat_booking_syste.Domain.Values.{
  BookingStatus, held, confirmed, cancelled, expired, standing, CoachType, reserved, unreserved,
  TravelClass, first, second, third, status_value, coach_type_value, class_value,
}
use train_seat_booking_syste.Ports.{Coach, Seat, Trip, Hold}

-- psycopg's `Range`: a missing end is unbounded.
pub record Range : Type 0 where
  pub lower : Option ℤ
  pub upper : Option ℤ
  pub bounds : String

pub record BookingRow : Type 0 where
  pub booking_id : String
  pub reference : String
  pub trip_id : String
  pub seat_id : Option String
  pub leg : Range
  pub passenger_id : String
  pub passenger_name : String
  pub travel_class : String
  pub status : String
  pub fare_cents : ℤ
  pub held_until : ℤ
  pub created_at : ℤ

abbrev pub leg_to_range : Leg → Range
leg_to_range leg = record {
  lower = some (pos leg.origin_seq);
  upper = some (pos leg.dest_seq);
  bounds = "[)";
}

abbrev pub leg_of_ends : Option ℤ → Option ℤ → Result Leg
leg_of_ends (some lower) (some upper) = make_leg lower upper
leg_of_ends _ _ = err assertion_error

abbrev pub range_to_leg : Range → Result Leg
range_to_leg value = leg_of_ends value.lower value.upper

-- `BookingStatus(text)`, `CoachType(text)`, `TravelClass(text)`
unfoldable pub parse_status : String → Result BookingStatus
parse_status s =
    if str_eq s "HELD"
    then ok held
    else if str_eq s "CONFIRMED"
    then ok confirmed
    else if str_eq s "CANCELLED"
    then ok cancelled
    else if str_eq s "EXPIRED"
    then ok expired
    else if str_eq s "STANDING"
    then ok standing
    else err value_error

unfoldable pub parse_coach_type : String → Result CoachType
parse_coach_type s =
    if str_eq s "RESERVED"
    then ok reserved
    else if str_eq s "UNRESERVED"
    then ok unreserved
    else err value_error

unfoldable pub parse_class : String → Result TravelClass
parse_class s =
    if str_eq s "FIRST"
    then ok first
    else if str_eq s "SECOND"
    then ok second
    else if str_eq s "THIRD"
    then ok third
    else err value_error

-- `row.seat_id or ""`, `hold.seat_id or None`
abbrev pub seat_or_empty : Option String → String
seat_or_empty none = ""
seat_or_empty (some s) = s

abbrev pub seat_or_null : String → Option String
seat_or_null s = if str_eq s "" then none else some s

-- `_to_hold`
unfoldable pub to_hold : BookingRow → Result Hold
to_hold row = do
  leg ← range_to_leg row.leg
  travel_class ← parse_class row.travel_class
  status ← parse_status row.status
  ok (record {
    booking_id = row.booking_id;
    reference = row.reference;
    trip_id = row.trip_id;
    seat_id = seat_or_empty row.seat_id;
    leg = leg;
    passenger_id = row.passenger_id;
    passenger_name = row.passenger_name;
    travel_class = travel_class;
    status = status;
    fare_cents = row.fare_cents;
    held_until = row.held_until;
    created_at = row.created_at;
  })

-- `_to_row`
unfoldable pub to_row : Hold → BookingRow
to_row hold = record {
  booking_id = hold.booking_id;
  reference = hold.reference;
  trip_id = hold.trip_id;
  seat_id = seat_or_null hold.seat_id;
  leg = leg_to_range hold.leg;
  passenger_id = hold.passenger_id;
  passenger_name = hold.passenger_name;
  travel_class = class_value hold.travel_class;
  status = status_value hold.status;
  fare_cents = hold.fare_cents;
  held_until = hold.held_until;
  created_at = hold.created_at;
}

pub record StationJson (F : Type 0) : Type 0 where
  pub code : String
  pub name : String
  pub seq : ℕ
  pub km : F

pub record StopJson : Type 0 where
  pub station_seq : ℕ
  pub arrive_min : Option ℕ
  pub depart_min : Option ℕ

pub record CoachJson : Type 0 where
  pub code : String
  pub coach_type : String
  pub travel_class : String
  pub rows : ℕ
  pub columns : String
  pub exit_rows : List ℕ

pub record SeatJson : Type 0 where
  pub seat_id : String
  pub coach : String
  pub coach_type : String
  pub travel_class : String
  pub number : ℕ
  pub row : ℕ
  pub column : String

pub record TripRow (F : Type 0) : Type 0 where
  pub trip_id : String
  pub route_code : String
  pub service_date : String
  pub train_no : String
  pub train_name : String
  pub departs_min : ℕ
  pub stations : List (StationJson F)
  pub stops : List StopJson
  pub coaches : List CoachJson
  pub seats : List SeatJson

-- A comprehension over a constructor that may raise.
unfoldable pub each : {A B : Type 0} → (A → Result B) → List A → Result (List B)
each f [] = ok []
each f (x ∷ xs) = do y ← f x; ys ← each f xs; ok (y ∷ ys)

abbrev pub stop_of : StopJson → Result Stop
stop_of s = make_stop (pos s.station_seq) s.arrive_min s.depart_min

abbrev pub coach_of : CoachJson → Result Coach
coach_of c = do
  coach_type ← parse_coach_type c.coach_type
  travel_class ← parse_class c.travel_class
  ok (record {
    code = c.code;
    coach_type = coach_type;
    travel_class = travel_class;
    rows = c.rows;
    columns = c.columns;
    exit_rows = c.exit_rows;
  })

abbrev pub seat_of : SeatJson → Result Seat
seat_of s = do
  coach_type ← parse_coach_type s.coach_type
  travel_class ← parse_class s.travel_class
  ok (record {
    seat_id = s.seat_id;
    coach = s.coach;
    coach_type = coach_type;
    travel_class = travel_class;
    number = s.number;
    row = s.row;
    column = s.column;
  })

abbrev pub stop_json : Stop → StopJson
stop_json s = record {
  station_seq = s.station_seq;
  arrive_min = s.arrive_min;
  depart_min = s.depart_min;
}

abbrev pub coach_json : Coach → CoachJson
coach_json c = record {
  code = c.code;
  coach_type = coach_type_value c.coach_type;
  travel_class = class_value c.travel_class;
  rows = c.rows;
  columns = c.columns;
  exit_rows = c.exit_rows;
}

abbrev pub seat_json : Seat → SeatJson
seat_json s = record {
  seat_id = s.seat_id;
  coach = s.coach;
  coach_type = coach_type_value s.coach_type;
  travel_class = class_value s.travel_class;
  number = s.number;
  row = s.row;
  column = s.column;
}

module _ {F : Type 0} where
  -- `Station(**s)`, which checks nothing
  unfoldable pub station_of : StationJson F → Station F
  station_of s = record { code = s.code; name = s.name; seq = s.seq; km = s.km }

  unfoldable pub station_json : Station F → StationJson F
  station_json s = record { code = s.code; name = s.name; seq = s.seq; km = s.km }

  -- `_to_trip`
  unfoldable pub to_trip : TripRow F → Result (Trip F)
  to_trip row = do
    stops ← each stop_of row.stops
    coaches ← each coach_of row.coaches
    seats ← each seat_of row.seats
    ok (record {
      trip_id = row.trip_id;
      route_code = row.route_code;
      service_date = row.service_date;
      train_no = row.train_no;
      train_name = row.train_name;
      stations = map station_of row.stations;
      stops = stops;
      coaches = coaches;
      seats = seats;
    })

  -- `TripRow(**_trip_values(trip))`
  unfoldable pub trip_row : Trip F → Result (TripRow F)
  trip_row trip = do
    departs_min ← departure_min trip.stops
    ok (record {
      trip_id = trip.trip_id;
      route_code = trip.route_code;
      service_date = trip.service_date;
      train_no = trip.train_no;
      train_name = trip.train_name;
      departs_min = departs_min;
      stations = map station_json trip.stations;
      stops = map stop_json trip.stops;
      coaches = map coach_json trip.coaches;
      seats = map seat_json trip.seats;
    })
