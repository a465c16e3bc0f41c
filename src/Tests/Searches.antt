-- ===== src/Tests/Searches.antt =====
-- A search on the sample, and each theorem about it at an input.
use train_seat_booking_syste.Prelude.{
  ℕ, ◌≡◌, ◌<◌, ◌↔◌, refl, false, pos, ◌+ℤ◌, ◌-ℤ◌, ◌*ℤ◌, none, some, [], ◌∷◌, List, All, Occurs,
}
use train_seat_booking_syste.Prelude.Dict.{Dict, insert}
use train_seat_booking_syste.Ports.{Hold, Trip}
use train_seat_booking_syste.Domain.Calendar.{
  Dates, parse_date, days_between, within_window, date_from_epoch,
}
use train_seat_booking_syste.Domain.Errors.{ok}
use train_seat_booking_syste.Domain.Stations.{Station, distance_km}
use train_seat_booking_syste.Domain.Timetable.{
  serves, leg_times, stop_at, format_hhmm, departure_min,
}
use train_seat_booking_syste.Domain.Values.{held, second}
use train_seat_booking_syste.MemoryRepo.{add_hold, active_holds, expire_due}
use train_seat_booking_syste.Tests.Sample.{deps, express, booked, world}
use train_seat_booking_syste.UseCases.SearchTrains.{
  TrainOption, station_by_code, class_options, option_over, option_for, options_of,
}
use train_seat_booking_syste.UseCases.SearchTrains.Search.Complete.{holds_after, search_trains_lem}
use train_seat_booking_syste.UseCases.SearchTrains.Search.Order.{
  LeavesAt, IsInOrder, find_by_date-IsInOrder,
}
use train_seat_booking_syste.UseCases.SearchTrains.Search.{
  Departure, trips_of, departures_of, trips_on, find_by_date, search_body, check_search,
  search_trains,
}
use train_seat_booking_syste.UseCases.SearchTrains.Served.{
  leg_between, add_hold-free_seat, option_for-eq-none_iff,
}
use train_seat_booking_syste.UseCases.Support.{price_leg, occupancy_over_leg}
use train_seat_booking_syste.World.{with_uow}

-- One booking from station 0 to station 1, so the seat is free from there on.
abbrev taken : Dict Hold
taken = ("id-1", booked "id-1" "SLR-1" 0 1 30 held) ∷ []

abbrev found : TrainOption ℕ
found = record {
  trip_id = "T:2026-07-01";
  train_no = "1005";
  train_name = "Podi Menike";
  route_code = "MAIN";
  service_date = "2026-07-01";
  origin_seq = 1;
  dest_seq = 3;
  depart = "08:25";
  arrive = "10:00";
  duration = pos 95;
  distance = 106;
  classes = record { travel_class = second; free_seats = 1; fare = pos 212 } ∷ [];
}

add_hold-free_seat_example :
    add_hold taken (booked "id-2" "SLR-2" 1 3 212 held)
    ≡ ok (insert "id-2" (booked "id-2" "SLR-2" 1 3 212 held) taken)
unfolding active_holds
add_hold-free_seat_example = add_hold-free_seat taken (booked "id-2" "SLR-2" 1 3 212 held) refl

option_for-eq-none_iff_example : (option_for deps taken express "RGM" "GPH" ≡ ok none) ↔ (
    (o d : Station ℕ)
    → station_by_code express "RGM" ≡ some o
    → station_by_code express "GPH" ≡ some d
    → o.seq < d.seq
    → serves express.stops (leg_between o d) ≡ false)
option_for-eq-none_iff_example = option_for-eq-none_iff deps taken express "RGM" "GPH"

-- A calendar with one day.
abbrev one_day : Dates
one_day = record { from_iso = λ s. some 1; to_iso = λ n. "2026-07-01" }

search_trains_lem_example :
    (check_search deps one_day (pos 0) "RGM" "KDY" "2026-07-01" ≡ ok tt)
    × ((o : TrainOption ℕ)
        → Occurs o (found ∷ [])
        → (t : Trip ℕ) × Occurs t (trips_on (world taken).store.trips "2026-07-01")
          × (option_for deps (holds_after (world taken) (pos 0)) t "RGM" "KDY" ≡ ok (some o)))
    × ((o : TrainOption ℕ) (t : Trip ℕ)
        → Occurs t (trips_on (world taken).store.trips "2026-07-01")
        → option_for deps (holds_after (world taken) (pos 0)) t "RGM" "KDY" ≡ ok (some o)
        → Occurs o (found ∷ []))
    × ((search_trains deps one_day (pos 0) "RGM" "KDY" "2026-07-01" (world taken)).1.store.holds
        ≡ holds_after (world taken) (pos 0))
    × ((search_trains deps one_day (pos 0) "RGM" "KDY" "2026-07-01" (world taken)).1.store.trips
        ≡ (world taken).store.trips)
unfolding search_trains check_search search_body find_by_date departures_of departure_min options_of
    option_for option_over class_options price_leg occupancy_over_leg distance_km serves leg_times
    stop_at format_hhmm active_holds expire_due with_uow parse_date days_between within_window
    date_from_epoch ◌+ℤ◌ ◌-ℤ◌ ◌*ℤ◌
search_trains_lem_example =
    search_trains_lem deps one_day (pos 0) "RGM" "KDY" "2026-07-01" (world taken) (found ∷ []) refl

-- A second train leaves in the same minute, and its identifier comes first.
abbrev relief : Trip ℕ
relief = record express { trip_id = "R:2026-07-01" }

abbrev both : Dict (Trip ℕ)
both = ("T:2026-07-01", express) ∷ ("R:2026-07-01", relief) ∷ []

find_by_date-IsInOrder_example :
    (ds : List (Departure ℕ)) × (trips_of ds ≡ relief ∷ express ∷ [])
    × All LeavesAt ds
    × IsInOrder ds
unfolding find_by_date departures_of departure_min
find_by_date-IsInOrder_example =
    find_by_date-IsInOrder both "2026-07-01" (relief ∷ express ∷ []) refl
