-- ===== src/Tests/Sample.antt =====
-- A small line with one train, and what surrounds the program, for the tests. Floats are numbers
-- here.
use train_seat_booking_syste.Prelude.{
  ℕ, ◌+◌, ◌-◌, ◌*◌, ◌/◌, bool_not, String, ℤ, pos, Option, none, some, List, [], ◌∷◌, leb, str_eq,
  if◌then◌else◌,
}
use train_seat_booking_syste.Prelude.Dict.{Dict}
use train_seat_booking_syste.Domain.Errors.{Result, ok, err, key_error}
use train_seat_booking_syste.Domain.Stations.{Station, Leg}
use train_seat_booking_syste.Domain.Timetable.{Stop}
use train_seat_booking_syste.Domain.Values.{BookingStatus, reserved, unreserved, second, third}
use train_seat_booking_syste.Ports.{Hold, Seat, Trip, Deps, PaymentResult}
use train_seat_booking_syste.UseCases.HoldSeat.{HoldRequest}
use train_seat_booking_syste.UseCases.SellUnreserved.{SaleRequest}
use train_seat_booking_syste.World.{World}

abbrev pub leg : ℕ → ℕ → Leg
leg o d = record { origin_seq = o; dest_seq = d }

abbrev pub station : String → ℕ → ℕ → Station ℕ
station code seq km = record { code = code; name = code; seq = seq; km = km }

abbrev pub stop : ℕ → Option ℕ → Option ℕ → Stop
stop seq arrive depart = record { station_seq = seq; arrive_min = arrive; depart_min = depart }

-- The train passes station 2 without a stop.
abbrev pub stops : List Stop
stops = stop 0 none (some 480) ∷ stop 1 (some 500) (some 505) ∷ stop 3 (some 600) none ∷ []

abbrev pub window_seat : Seat
window_seat = record {
  seat_id = "R1A";
  coach = "R";
  coach_type = reserved;
  travel_class = second;
  number = 1;
  row = 1;
  column = "A";
}

abbrev pub bench : Seat
bench = record {
  seat_id = "U1A";
  coach = "U";
  coach_type = unreserved;
  travel_class = third;
  number = 1;
  row = 1;
  column = "A";
}

abbrev pub express : Trip ℕ
express = record {
  trip_id = "T:2026-07-01";
  route_code = "MAIN";
  service_date = "2026-07-01";
  train_no = "1005";
  train_name = "Podi Menike";
  stations = station "FOT" 0 0 ∷ station "RGM" 1 15 ∷ station "GPH" 2 35 ∷ station "KDY" 3 121 ∷ [];
  stops = stops;
  coaches = [];
  seats = window_seat ∷ bench ∷ [];
}

abbrev int_keys : String → Result ℤ
int_keys key =
    if str_eq key "hold_ttl_seconds"
    then ok (pos 900)
    else if str_eq key "max_seats_per_passenger"
    then ok (pos 6)
    else if str_eq key "velocity_window_seconds"
    then ok (pos 600)
    else if str_eq key "max_bookings_per_window"
    then ok (pos 10)
    else if str_eq key "standing_capacity_per_coach"
    then ok (pos 250)
    else if str_eq key "booking_window_days"
    then ok (pos 14)
    else if str_eq key "utc_offset_minutes"
    then ok (pos 330)
    else err key_error

abbrev float_keys : String → Result ℕ
float_keys key = if str_eq key "abuse_threshold" then ok 100 else ok 2

-- The gateway declines one reference.
abbrev gateway : String → ℤ → PaymentResult
gateway reference amount = record {
  is_ok = bool_not (str_eq reference "BAD");
  reference = reference;
  detail = "";
}

abbrev pub deps : Deps ℕ
deps = record {
  float_zero = 0;
  float_sub = λ a b. a - b;
  float_div = λ a b. a / b;
  float_leb = leb;
  price = λ km mult occupancy. ok (pos (km * mult + occupancy));
  get_int = int_keys;
  get_float = float_keys;
  score = λ f. f.velocity;
  answer = λ n. gateway;
  nth_id = λ n. if leb n 1 then "id-1" else "id-2";
  nth_reference = λ n. if leb n 1 then "SLR-1" else "SLR-2";
}

abbrev pub world : Dict Hold → World ℕ
world holds = record {
  store = record { holds = holds; trips = ("T:2026-07-01", express) ∷ [] };
  snapshot = none;
  events = [];
  sent = [];
  charges = [];
  issued = 0;
  referenced = 0;
}

abbrev pub request : ℕ → ℕ → HoldRequest
request o d = record {
  trip_id = "T:2026-07-01";
  seat_id = "R1A";
  leg = leg o d;
  passenger_id = "NIC1";
  passenger_name = "Nimal";
  reference = none;
}

abbrev pub sale : SaleRequest
sale = record {
  trip_id = "T:2026-07-01";
  leg = leg 0 1;
  passenger_id = "NIC2";
  passenger_name = "Kamala";
  travel_class = third;
  reference = none;
}

-- the hold that `request` is given at time 0, with a reference and a status
abbrev pub booked : String → String → ℕ → ℕ → ℕ → BookingStatus → Hold
booked id reference o d fare status = record {
  booking_id = id;
  reference = reference;
  trip_id = "T:2026-07-01";
  seat_id = "R1A";
  leg = leg o d;
  passenger_id = "NIC1";
  passenger_name = "Nimal";
  travel_class = second;
  status = status;
  fare_cents = pos fare;
  held_until = pos 900;
  created_at = pos 0;
}
