-- ===== src/App/Timetable.antt =====
-- backend/slr/app/timetable_config.py: the timetable of the configuration file, and the dated trips that
-- it is expanded to. The JSON document is the record of the fields that are read from it, and its
-- numbers are naturals.
pub mod Numbers
pub mod Coaches
pub mod Window
use train_seat_booking_syste.Prelude.{
  ℕ, zero, suc, ◌+◌, ◌-◌, ◌*◌, Bool, String, ℤ, pos, pos_part, ◌+ℤ◌, ltb_ℤ, Option, none, some,
  List, [], ◌∷◌, ◌++◌, map, str_eq, leb, length, take, if◌then◌else◌,
}
use train_seat_booking_syste.Prelude.Dict.{Dict, lookup, insert}
use train_seat_booking_syste.Prelude.Digits.{decimal, concat}
use train_seat_booking_syste.Prelude.Sorting.{sort}
use train_seat_booking_syste.Prelude.Text.{split, int_of, is_empty}
use train_seat_booking_syste.Domain.Calendar.{Dates, service_dates}
use train_seat_booking_syste.Domain.Errors.{
  Result, ok, err, key_error, value_error, raise_if, ◌>>=◌, ◌>>◌,
}
use train_seat_booking_syste.Domain.Stations.{Station}
use train_seat_booking_syste.Domain.Timetable.{Stop, make_stop}
use train_seat_booking_syste.Domain.Timetable.Parse.{parse_days, parse_hhmm, trip_id_for}
use train_seat_booking_syste.Ports.{Coach, Seat, Trip}
use train_seat_booking_syste.SqlRepo.{each, parse_class, parse_coach_type}

-- the parts of the document
pub record Layout : Type 0 where
  pub coach_type : String
  pub travel_class : String
  pub rows : ℕ
  pub columns : String
  pub exit_rows : Option (List ℕ)

pub record CoachEntry : Type 0 where
  pub code : String
  pub layout : String

pub record StopEntry : Type 0 where
  pub station : String
  pub arrive : Option String
  pub depart : Option String

pub record PatternEntry : Type 0 where
  pub code : String
  pub train_no : String
  pub name : String
  pub days_of_week : List String
  pub coaches : List CoachEntry
  pub stops : List StopEntry

pub record StationEntry (F : Type 0) : Type 0 where
  pub code : String
  pub name : String
  pub km : F

pub record Document (F : Type 0) : Type 0 where
  pub route_code : String
  pub route_name : String
  pub stations : List (StationEntry F)
  pub coach_layouts : Dict Layout
  pub service_patterns : List PatternEntry

pub record ServicePattern : Type 0 where
  pub code : String
  pub train_no : String
  pub name : String
  pub days_of_week : List ℕ
  pub stops : List Stop
  pub coaches : List Coach
  pub seats : List Seat

pub record Timetable (F : Type 0) : Type 0 where
  pub route_code : String
  pub route_name : String
  pub stations : List (Station F)
  pub patterns : List ServicePattern

-- `COLUMN_LETTERS`, a letter each
abbrev pub column_letters : List String
column_letters = "A" ∷ "B" ∷ "C" ∷ "D" ∷ "E" ∷ "F" ∷ "G" ∷ "H" ∷ []

abbrev int_or_raise : Option ℤ → Result ℤ
int_or_raise none = err value_error
int_or_raise (some n) = ok n

-- `sum(int(part) for part in parts)`; no part has a minus sign, since they are split at it
unfoldable pub sum_parts : List String → Result ℤ
sum_parts [] = ok (pos 0)
sum_parts (part ∷ parts) = do n ← int_or_raise (int_of part); rest ← sum_parts parts; ok (n +ℤ rest)

unfoldable pub column_labels : String → Result (List String)
unfolding sum_parts
column_labels columns = do
  total ← sum_parts (split b'-' columns)
  raise_if (ltb_ℤ (pos 8) total) value_error
  ok (take (pos_part total) column_letters)

-- The seats of one row from a column on, and of all rows from `row` on.
abbrev pub seat_at : Coach → ℕ → ℕ → ℕ → String → Seat
seat_at coach width row index letter = record {
  seat_id = concat coach.code (concat (decimal row) letter);
  coach = coach.code;
  coach_type = coach.coach_type;
  travel_class = coach.travel_class;
  number = (row - 1) * width + index + 1;
  row = row;
  column = letter;
}

unfoldable pub row_seats : Coach → ℕ → ℕ → ℕ → List String → List Seat
row_seats coach width row index [] = []
row_seats coach width row index (letter ∷ letters) =
    seat_at coach width row index letter ∷ row_seats coach width row (suc index) letters

unfoldable pub seats_from : Coach → List String → ℕ → ℕ → List Seat
seats_from coach letters row zero = []
seats_from coach letters row (suc left) =
    row_seats coach (length letters) row 0 letters ++ seats_from coach letters (suc row) left

abbrev or_empty : Option (List ℕ) → List ℕ
or_empty none = []
or_empty (some rows) = rows

unfoldable pub build_coach : String → Layout → Result (Coach × List Seat)
build_coach code layout = do
  coach_type ← parse_coach_type layout.coach_type
  travel_class ← parse_class layout.travel_class
  let coach : Coach = record {
    code = code;
    coach_type = coach_type;
    travel_class = travel_class;
    rows = layout.rows;
    columns = layout.columns;
    exit_rows = or_empty layout.exit_rows;
  }
  letters ← column_labels layout.columns
  ok (coach, seats_from coach letters 1 layout.rows)

-- `parse_hhmm(text) if text else None`
abbrev pub time_of : Option String → Result (Option ℕ)
time_of none = ok none
time_of (some text) = if is_empty text then ok none else (parse_hhmm text >>= λ m. ok (some m))

abbrev known : Option ℕ → Result ℕ
known none = err value_error
known (some seq) = ok seq

abbrev pub stop_entry : Dict ℕ → StopEntry → Result Stop
stop_entry seq_by_code entry = do
  seq ← known (lookup entry.station seq_by_code)
  arrive ← time_of entry.arrive
  depart ← time_of entry.depart
  make_stop (pos seq) arrive depart

abbrev pub leb_stop : Stop → Stop → Bool
leb_stop s t = leb s.station_seq t.station_seq

-- `_stops`
unfoldable pub stops_of : Dict ℕ → List StopEntry → Result (List Stop)
stops_of seq_by_code raw_stops = do
  stops ← each (stop_entry seq_by_code) raw_stops
  ok (sort leb_stop stops)

abbrev layout_or_raise : Option Layout → Result Layout
layout_or_raise none = err key_error
layout_or_raise (some layout) = ok layout

unfoldable pub coaches_of : Dict Layout → List CoachEntry → Result (List Coach × List Seat)
coaches_of layouts [] = ok ([], [])
coaches_of layouts (spec ∷ specs) = do
  layout ← layout_or_raise (lookup spec.layout layouts)
  (coach, seats) ← build_coach spec.code layout
  (coaches, more) ← coaches_of layouts specs
  ok (coach ∷ coaches, seats ++ more)

unfoldable pub pattern_of : Dict Layout → Dict ℕ → PatternEntry → Result ServicePattern
pattern_of layouts seq_by_code entry = do
  (coaches, seats) ← coaches_of layouts entry.coaches
  days_of_week ← parse_days entry.days_of_week
  stops ← stops_of seq_by_code entry.stops
  ok (record {
    code = entry.code;
    train_no = entry.train_no;
    name = entry.name;
    days_of_week = days_of_week;
    stops = stops;
    coaches = coaches;
    seats = seats;
  })

module _ {F : Type 0} where
  -- `enumerate(route["stations"])`
  unfoldable pub stations_from : ℕ → List (StationEntry F) → List (Station F)
  stations_from seq [] = []
  stations_from seq (s ∷ rest) =
      record { code = s.code; name = s.name; seq = seq; km = s.km } ∷ stations_from (suc seq) rest

  -- `{s.code: s.seq for s in stations}`
  unfoldable pub seqs_onto : Dict ℕ → List (Station F) → Dict ℕ
  seqs_onto seqs [] = seqs
  seqs_onto seqs (s ∷ stations) = seqs_onto (insert s.code s.seq seqs) stations

  unfoldable pub load_timetable : Document F → Result (Timetable F)
  load_timetable raw = do
    let stations = stations_from 0 raw.stations
    patterns ← each (pattern_of raw.coach_layouts (seqs_onto [] stations)) raw.service_patterns
    ok (record {
      route_code = raw.route_code;
      route_name = raw.route_name;
      stations = stations;
      patterns = patterns;
    })

  unfoldable pub materialize : Timetable F → ServicePattern → String → Trip F
  materialize timetable pattern service_date = record {
    trip_id = trip_id_for pattern.code service_date;
    route_code = timetable.route_code;
    service_date = service_date;
    train_no = pattern.train_no;
    train_name = pattern.name;
    stations = timetable.stations;
    stops = pattern.stops;
    coaches = pattern.coaches;
    seats = pattern.seats;
  }

  -- The comprehension of `trips_for_window`, a pattern after another.
  unfoldable pub trips_of_patterns :
      Dates → Timetable F → String → ℤ → List ServicePattern → Result (List (Trip F))
  trips_of_patterns dates timetable start_date window_days [] = ok []
  trips_of_patterns dates timetable start_date window_days (pattern ∷ patterns) = do
    days ← service_dates dates pattern.days_of_week start_date window_days
    rest ← trips_of_patterns dates timetable start_date window_days patterns
    ok (map (materialize timetable pattern) days ++ rest)

  unfoldable pub trips_for_window : Dates → Timetable F → String → ℤ → Result (List (Trip F))
  trips_for_window dates timetable start_date window_days =
      trips_of_patterns dates timetable start_date window_days timetable.patterns
