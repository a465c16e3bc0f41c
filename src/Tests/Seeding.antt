-- ===== src/Tests/Seeding.antt =====
-- A small timetable, and each theorem about the configuration file and the seeder at an input.
use train_seat_booking_syste.Prelude.{
  ℕ, ◌+◌, ◌*◌, ◌/◌, ◌≤◌, ◌<◌, ◌≡◌, refl, true, String, pos, ◌+ℤ◌, none, some, List, [], ◌∷◌, map,
  length, Occurs,
}
use train_seat_booking_syste.Prelude.Dict.{Dict, lookup, insert}
use train_seat_booking_syste.Prelude.Digits.{decimal}
use train_seat_booking_syste.Prelude.Text.{split, split_once, strip, int_of, upper, read_digits}
use train_seat_booking_syste.App.Seed.{upsert_all, seed}
use train_seat_booking_syste.App.Seed.Idempotent.{seed_lem}
use train_seat_booking_syste.App.Seed.Upserts.{IsStored}
use train_seat_booking_syste.App.Timetable.{
  Layout, Document, Timetable, ServicePattern, column_labels, build_coach, row_seats, seats_from,
  coaches_of, pattern_of, stops_of, stations_from, seqs_onto, load_timetable, materialize,
  trips_of_patterns, trips_for_window,
}
use train_seat_booking_syste.App.Timetable.Coaches.{build_coach_lem}
use train_seat_booking_syste.App.Timetable.Numbers.{count_up}
use train_seat_booking_syste.App.Timetable.Window.{IsScheduled}
use train_seat_booking_syste.Domain.Calendar.{parse_date, is_in, weekday, service_dates, dates_from}
use train_seat_booking_syste.Domain.Errors.{ok}
use train_seat_booking_syste.Domain.Timetable.{format_hhmm, make_stop, departure_min}
use train_seat_booking_syste.Domain.Timetable.Parse.{
  day_index, days_from, parse_days, parse_hhmm, trip_id_for,
}
use train_seat_booking_syste.Domain.Timetable.Parse.Clock.{later, parse_hhmm-format_hhmm}
use train_seat_booking_syste.Domain.Timetable.Parse.Days.{Means, parse_days_lem}
use train_seat_booking_syste.Domain.Values.{reserved, second}
use train_seat_booking_syste.Ports.{Coach, Seat, Trip}
use train_seat_booking_syste.SqlRepo.{
  TripRow, SeatJson, each, parse_class, parse_coach_type, trip_row, station_json,
}
use train_seat_booking_syste.SqlRepo.Trips.{upsert_trip}
use train_seat_booking_syste.Tests.Dates.{dates, tally}

parse_hhmm_next_day : parse_hhmm " +02:15 " ≡ ok 1575
unfolding parse_hhmm strip int_of read_digits split_once
parse_hhmm_next_day = refl

parse_days_lem_example :
    ((n : ℕ) → Occurs n (6 ∷ 1 ∷ []) → (c : String) × Occurs c ("tue" ∷ " SUN" ∷ []) × Means c n)
    × ((c : String) → Occurs c ("tue" ∷ " SUN" ∷ []) → (n : ℕ) × Means c n × Occurs n (6 ∷ 1 ∷ []))
    × ((n : ℕ) × Occurs n (6 ∷ 1 ∷ []))
unfolding parse_days days_from day_index upper strip
parse_days_lem_example = parse_days_lem ("tue" ∷ " SUN" ∷ []) (6 ∷ 1 ∷ []) refl

parse_hhmm-format_hhmm_example : parse_hhmm (later (1575 / 1440) (format_hhmm 1575)) ≡ ok 1575
parse_hhmm-format_hhmm_example = parse_hhmm-format_hhmm 1575

abbrev layout : Layout
layout = record {
  coach_type = "RESERVED";
  travel_class = "SECOND";
  rows = 2;
  columns = "1-1";
  exit_rows = none;
}

abbrev coach : Coach
coach = record {
  code = "B";
  coach_type = reserved;
  travel_class = second;
  rows = 2;
  columns = "1-1";
  exit_rows = [];
}

abbrev seat : String → ℕ → ℕ → String → Seat
seat seat_id number row column = record {
  seat_id = seat_id;
  coach = "B";
  coach_type = reserved;
  travel_class = second;
  number = number;
  row = row;
  column = column;
}

abbrev seats : List Seat
seats = seat "B1A" 1 1 "A" ∷ seat "B1B" 2 1 "B" ∷ seat "B2A" 3 2 "A" ∷ seat "B2B" 4 2 "B" ∷ []

build_coach_lem_example :
    (letters : List String) × (column_labels "1-1" ≡ ok letters)
    × (map (λ s. s.number) seats ≡ count_up 1 (2 * length letters))
    × ((s t : Seat) → Occurs s seats → Occurs t seats → s.seat_id ≡ t.seat_id → s ≡ t)
unfolding build_coach column_labels seats_from row_seats parse_coach_type parse_class split int_of
    read_digits strip decimal ◌+ℤ◌
build_coach_lem_example = build_coach_lem "B" layout coach seats refl

-- One train on Tuesdays, with an arrival after midnight.
abbrev document : Document ℕ
document = record {
  route_code = "MAIN";
  route_name = "Main Line";
  stations =
      record { code = "FOT"; name = "Fort"; km = 0 }
      ∷ record { code = "KDY"; name = "Kandy"; km = 121 }
      ∷ [];
  coach_layouts = ("small", layout) ∷ [];
  service_patterns =
      record {
        code = "P";
        train_no = "1005";
        name = "Podi Menike";
        days_of_week = "TUE" ∷ [];
        coaches = record { code = "B"; layout = "small" } ∷ [];
        stops =
            record { station = "FOT"; arrive = none; depart = some "23:30" }
            ∷ record { station = "KDY"; arrive = some "+01:05"; depart = none }
            ∷ [];
      }
      ∷ [];
}

abbrev seat_json : String → ℕ → ℕ → String → SeatJson
seat_json seat_id number row column = record {
  seat_id = seat_id;
  coach = "B";
  coach_type = "RESERVED";
  travel_class = "SECOND";
  number = number;
  row = row;
  column = column;
}

-- the run of day 2, a Tuesday
abbrev seeded : TripRow ℕ
seeded = record {
  trip_id = "P:||";
  route_code = "MAIN";
  service_date = "||";
  train_no = "1005";
  train_name = "Podi Menike";
  departs_min = 1410;
  stations =
      record { code = "FOT"; name = "Fort"; seq = 0; km = 0 }
      ∷ record { code = "KDY"; name = "Kandy"; seq = 1; km = 121 }
      ∷ [];
  stops =
      record { station_seq = 0; arrive_min = none; depart_min = some 1410 }
      ∷ record { station_seq = 1; arrive_min = some 1505; depart_min = none }
      ∷ [];
  coaches =
      record {
        code = "B";
        coach_type = "RESERVED";
        travel_class = "SECOND";
        rows = 2;
        columns = "1-1";
        exit_rows = [];
      }
      ∷ [];
  seats =
      seat_json "B1A" 1 1 "A"
      ∷ seat_json "B1B" 2 1 "B"
      ∷ seat_json "B2A" 3 2 "A"
      ∷ seat_json "B2B" 4 2 "B"
      ∷ [];
}

abbrev table : Dict (TripRow ℕ)
table = ("P:||", seeded) ∷ []

seed_lem_example :
    (seed dates document (pos 3) "|" table ≡ ok (0, table))
    × (1 ≡ 1 + 0)
    × ((k : String) (r : TripRow ℕ)
        → lookup {V = TripRow ℕ} k [] ≡ some r
        → lookup k table ≡ some r)
    × ((timetable : Timetable ℕ) × (load_timetable document ≡ ok timetable)
        × ((p : ServicePattern) (d : ℕ)
            → Occurs p timetable.patterns
            → 1 ≤ d
            → d < 1 + 3
            → is_in (weekday d) p.days_of_week ≡ true
            → IsStored (trip_id_for p.code (tally d)) table)
        × ((k : String) (r : TripRow ℕ)
            → lookup {V = TripRow ℕ} k [] ≡ none
            → lookup k table ≡ some r
            → (t : Trip ℕ) × IsScheduled dates timetable 1 3 timetable.patterns t
              × (t.trip_id ≡ k)
              × (trip_row t ≡ ok r)))
unfolding seed load_timetable stations_from seqs_onto each pattern_of coaches_of build_coach
    column_labels seats_from row_seats parse_coach_type parse_class parse_days days_from day_index
    upper split split_once strip int_of read_digits parse_hhmm stops_of make_stop decimal
    trips_for_window trips_of_patterns service_dates dates_from parse_date materialize trip_id_for
    upsert_all upsert_trip trip_row station_json departure_min lookup insert ◌+ℤ◌
seed_lem_example = seed_lem dates document "|" 1 3 [] 1 table refl refl
