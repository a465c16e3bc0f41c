-- ===== src/App/Seed.antt =====
-- backend/slr/app/seed.py: the booking window is expanded into rows of the trip table. The file and the
-- settings are arguments, and `main` is not modelled.
pub mod Upserts
pub mod Idempotent
use train_seat_booking_syste.Prelude.{ℕ, ◌+◌, Bool, String, ℤ, List, [], ◌∷◌, if◌then◌else◌}
use train_seat_booking_syste.Prelude.Dict.{Dict}
use train_seat_booking_syste.App.Timetable.{Document, load_timetable, trips_for_window}
use train_seat_booking_syste.Domain.Calendar.{Dates}
use train_seat_booking_syste.Domain.Errors.{Result, ok, err, ◌>>=◌}
use train_seat_booking_syste.Ports.{Trip}
use train_seat_booking_syste.SqlRepo.{TripRow}
use train_seat_booking_syste.SqlRepo.Trips.{upsert_trip}

module _ {F : Type 0} where
  -- `sum(1 for trip in trips if upsert_trip(session, trip))`
  unfoldable pub upsert_all : Dict (TripRow F) → List (Trip F) → Result (ℕ × Dict (TripRow F))
  upsert_all table [] = ok (0, table)
  upsert_all table (trip ∷ trips) = do
    (inserted, next) ← upsert_trip table trip
    (count, last) ← upsert_all next trips
    ok ((if inserted then 1 else 0) + count, last)

  unfoldable pub seed :
      Dates → Document F → ℤ → String → Dict (TripRow F) → Result (ℕ × Dict (TripRow F))
  seed dates raw booking_window_days today table = do
    timetable ← load_timetable raw
    trips ← trips_for_window dates timetable today booking_window_days
    upsert_all table trips
