-- ===== src/App/Schemas/Trips.antt =====
-- backend/slr/app/schemas.py: trips, search results and availability as they are sent.
use train_seat_booking_syste.Prelude.{ℕ, Bool, String, ℤ, Option, List, map}
use train_seat_booking_syste.App.Schemas.Bookings.{MoneyOut, money_out}
use train_seat_booking_syste.Domain.Stations.{Station}
use train_seat_booking_syste.Domain.Timetable.{Stop, format_hhmm}
use train_seat_booking_syste.Domain.Values.{CoachType, TravelClass}
use train_seat_booking_syste.Ports.{Coach, Seat, Trip}
use train_seat_booking_syste.UseCases.ImpactReport.{ImpactReport}
use train_seat_booking_syste.UseCases.LegAvailability.{LegAvailability, SeatAvailability}
use train_seat_booking_syste.UseCases.Receipt.{map_option}
use train_seat_booking_syste.UseCases.SearchTrains
use train_seat_booking_syste.UseCases.SearchTrains.{ClassAvailability, TrainOption, free_seats_of}

pub record StationOut (F : Type 0) : Type 0 where
  pub code : String
  pub name : String
  pub seq : ℕ
  pub km : F

abbrev pub station_out : {F : Type 0} → Station F → StationOut F
station_out s = record { code = s.code; name = s.name; seq = s.seq; km = s.km }

pub record StopOut : Type 0 where
  pub station_seq : ℕ
  pub arrive : Option String
  pub depart : Option String

abbrev pub stop_out : Stop → StopOut
stop_out s = record {
  station_seq = s.station_seq;
  arrive = map_option format_hhmm s.arrive_min;
  depart = map_option format_hhmm s.depart_min;
}

pub record CoachOut : Type 0 where
  pub code : String
  pub coach_type : CoachType
  pub travel_class : TravelClass
  pub rows : ℕ
  pub columns : String
  pub exit_rows : List ℕ

abbrev pub coach_out : Coach → CoachOut
coach_out c = record {
  code = c.code;
  coach_type = c.coach_type;
  travel_class = c.travel_class;
  rows = c.rows;
  columns = c.columns;
  exit_rows = c.exit_rows;
}

pub record SeatOut : Type 0 where
  pub seat_id : String
  pub coach : String
  pub coach_type : CoachType
  pub travel_class : TravelClass
  pub number : ℕ
  pub row : ℕ
  pub column : String

abbrev pub seat_out : Seat → SeatOut
seat_out s = record {
  seat_id = s.seat_id;
  coach = s.coach;
  coach_type = s.coach_type;
  travel_class = s.travel_class;
  number = s.number;
  row = s.row;
  column = s.column;
}

pub record TripOut (F : Type 0) : Type 0 where
  pub trip_id : String
  pub route_code : String
  pub service_date : String
  pub train_no : String
  pub train_name : String
  pub stations : List (StationOut F)
  pub stops : List StopOut
  pub coaches : List CoachOut
  pub seats : List SeatOut

unfoldable pub trip_out : {F : Type 0} → Trip F → TripOut F
trip_out t = record {
  trip_id = t.trip_id;
  route_code = t.route_code;
  service_date = t.service_date;
  train_no = t.train_no;
  train_name = t.train_name;
  stations = map station_out t.stations;
  stops = map stop_out t.stops;
  coaches = map coach_out t.coaches;
  seats = map seat_out t.seats;
}

pub record ClassAvailabilityOut : Type 0 where
  pub travel_class : TravelClass
  pub free_seats : ℕ
  pub fare : MoneyOut

abbrev pub class_out : String → ClassAvailability → ClassAvailabilityOut
class_out currency c = record {
  travel_class = c.travel_class;
  free_seats = c.free_seats;
  fare = money_out currency c.fare;
}

pub record TrainOptionOut (F : Type 0) : Type 0 where
  pub trip_id : String
  pub train_no : String
  pub train_name : String
  pub route_code : String
  pub service_date : String
  pub origin_seq : ℕ
  pub dest_seq : ℕ
  pub depart : String
  pub arrive : String
  pub duration_min : ℤ
  pub distance_km : F
  pub free_seats : ℕ
  pub from_fare : MoneyOut
  pub classes : List ClassAvailabilityOut

unfoldable pub option_out : {F : Type 0} → String → TrainOption F → TrainOptionOut F
option_out currency o = record {
  trip_id = o.trip_id;
  train_no = o.train_no;
  train_name = o.train_name;
  route_code = o.route_code;
  service_date = o.service_date;
  origin_seq = o.origin_seq;
  dest_seq = o.dest_seq;
  depart = o.depart;
  arrive = o.arrive;
  duration_min = o.duration;
  distance_km = o.distance;
  free_seats = free_seats_of o;
  from_fare = money_out currency (SearchTrains.from_fare o);
  classes = map (class_out currency) o.classes;
}

pub record SeatAvailabilityOut : Type 0 where
  pub seat_id : String
  pub coach : String
  pub travel_class : TravelClass
  pub available : Bool

abbrev pub seat_availability_out : SeatAvailability → SeatAvailabilityOut
seat_availability_out s = record {
  seat_id = s.seat_id;
  coach = s.coach;
  travel_class = s.travel_class;
  available = s.is_available;
}

pub record LegAvailabilityOut : Type 0 where
  pub trip_id : String
  pub origin_seq : ℕ
  pub dest_seq : ℕ
  pub free_count : ℕ
  pub seats : List SeatAvailabilityOut

unfoldable pub availability_out : LegAvailability → LegAvailabilityOut
availability_out v = record {
  trip_id = v.trip_id;
  origin_seq = v.leg.origin_seq;
  dest_seq = v.leg.dest_seq;
  free_count = v.free_count;
  seats = map seat_availability_out v.seats;
}

pub record ImpactOut (F : Type 0) : Type 0 where
  pub trip_id : String
  pub active_legs : ℕ
  pub seats_used : ℤ
  pub seat_km_reclaimed : F

unfoldable pub impact_out : {F : Type 0} → ImpactReport F → ImpactOut F
impact_out r = record {
  trip_id = r.trip_id;
  active_legs = r.active_legs;
  seats_used = r.seats_used;
  seat_km_reclaimed = r.seat_km_reclaimed;
}
