-- ===== src/App/Seed/Idempotent.antt =====
-- The seeder can be run any number of times.
use train_seat_booking_syste.Prelude.{
  ℕ, length, ◌+◌, ◌≤◌, ◌<◌, ◌≡◌, ◌∙◌, true, String, ℤ, pos, none, some, List, Occurs, inl, inr,
  arith,
}
use train_seat_booking_syste.Prelude.Dict.{Dict, lookup}
use train_seat_booking_syste.App.Seed.{upsert_all, seed}
use train_seat_booking_syste.App.Seed.Upserts.{
  IsStored, upsert_all-keeps, upsert_all-stores, upsert_all-again, upsert_all-new,
  length-upsert_all,
}
use train_seat_booking_syste.App.Timetable.{
  Document, Timetable, ServicePattern, load_timetable, materialize, trips_for_window,
}
use train_seat_booking_syste.App.Timetable.Window.{
  trips_of_patterns_sound, trips_of_patterns_complete, IsScheduled,
}
use train_seat_booking_syste.Domain.Calendar.{Dates, parse_date, is_in, weekday}
use train_seat_booking_syste.Domain.Errors.{ok, Result-cases}
use train_seat_booking_syste.Domain.Timetable.Parse.{trip_id_for}
use train_seat_booking_syste.Ports.{Trip}
use train_seat_booking_syste.SqlRepo.{TripRow, trip_row}

module _ {F : Type 0} where
  seed-parts :
      (dates : Dates) (raw : Document F) (window : ℤ) (today : String) (table : Dict (TripRow F))
      (n : ℕ) (last : Dict (TripRow F))
      → seed dates raw window today table ≡ ok (n, last)
      → (timetable : Timetable F) × (trips : List (Trip F)) × (load_timetable raw ≡ ok timetable)
        × (trips_for_window dates timetable today window ≡ ok trips)
        × (upsert_all table trips ≡ ok (n, last))
        × (seed dates raw window today last ≡ upsert_all last trips)
  unfolding seed
  seed-parts dates raw window today table n last e = elim (Result-cases (load_timetable raw)) [
    | inr (x, h) ↦ absurd (ground arith)
    | inl (timetable, h) ↦ elim (Result-cases (trips_for_window dates timetable today window)) [
      | inr (x, k) ↦ absurd (ground arith)
      | inl (trips, k) ↦ (timetable, trips, h, k, ground arith, ground arith)
    ]
  ]

-- Where the seeder succeeds on a window of `window` days from today, it is idempotent: run again it
-- inserts nothing and changes nothing. It answers with the number of rows it added, and keeps each row
-- that was there. Each pattern then has a row for each day of the window on which it runs, and every
-- row that was not there before is that of a trip of a pattern on such a day.
pub seed_lem :
    {F : Type 0} (dates : Dates) (raw : Document F) (today : String) (first window : ℕ)
    (table : Dict (TripRow F)) (n : ℕ) (last : Dict (TripRow F))
    → parse_date dates today ≡ ok first
    → seed dates raw (pos window) today table ≡ ok (n, last)
    → (seed dates raw (pos window) today last ≡ ok (0, last))
      × (length last ≡ n + length table)
      × ((k : String) (r : TripRow F) → lookup k table ≡ some r → lookup k last ≡ some r)
      × ((timetable : Timetable F) × (load_timetable raw ≡ ok timetable)
          × ((p : ServicePattern) (d : ℕ)
              → Occurs p timetable.patterns
              → first ≤ d
              → d < first + window
              → is_in (weekday d) p.days_of_week ≡ true
              → IsStored (trip_id_for p.code (dates.to_iso d)) last)
          × ((k : String) (r : TripRow F)
              → lookup k table ≡ none
              → lookup k last ≡ some r
              → (t : Trip F) × IsScheduled dates timetable first window timetable.patterns t
                × (t.trip_id ≡ k)
                × (trip_row t ≡ ok r)))
unfolding trips_for_window materialize
seed_lem dates raw today first window table n last starts e =
    let (timetable, trips, loaded, listed, done, again) =
      seed-parts dates raw (pos window) today table n last e in
    (
      again ∙ upsert_all-again last trips (λ t m. upsert_all-stores table trips n last t done m),
      length-upsert_all table trips n last done,
      λ k r h. upsert_all-keeps table trips n last k r done h,
      (
        timetable,
        loaded,
        λ p d m h k on.
            upsert_all-stores table trips n last (materialize timetable p (dates.to_iso d)) done (
              trips_of_patterns_complete dates timetable today first window starts
                timetable.patterns trips p d listed m h k on),
        λ k r fresh h.
            let (t, at, id, was) = upsert_all-new table trips n last k r done fresh h in
            (
              t,
              trips_of_patterns_sound dates timetable today first window starts timetable.patterns
                  trips t listed at,
              id,
              was,
            ),
      ),
    )
