-- ===== src/SqlRepo/Trips.antt =====
-- backend/slr/adapters/sqlalchemy_repo.py: the table of trips, by its primary key, as far as it is read
-- by that key and seeded.
use train_seat_booking_syste.Prelude.{Bool, true, false, String, Option, none, some}
use train_seat_booking_syste.Prelude.Dict.{Dict, lookup, insert}
use train_seat_booking_syste.Domain.Errors.{Result, ok, err, key_error, ◌>>=◌}
use train_seat_booking_syste.Ports.{Trip}
use train_seat_booking_syste.SqlRepo.{TripRow, to_trip, trip_row}

module _ {F : Type 0} where
  abbrev row_or_raise : Option (TripRow F) → Result (Trip F)
  row_or_raise none = err key_error
  row_or_raise (some row) = to_trip row

  -- `SqlAlchemyTripRepository.get`
  unfoldable pub stored_trip : Dict (TripRow F) → String → Result (Trip F)
  stored_trip table trip_id = row_or_raise (lookup trip_id table)

  -- The answer tells whether the row was inserted.
  unfoldable pub upsert_trip : Dict (TripRow F) → Trip F → Result (Bool × Dict (TripRow F))
  upsert_trip table trip = elim (lookup trip.trip_id table) [
    | some row ↦ ok (false, table)
    | none ↦ trip_row trip >>= λ row. ok (true, insert trip.trip_id row table)
  ]
