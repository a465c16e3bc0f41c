-- ===== src/SqlRepo/Queries.antt =====
-- backend/slr/adapters/sqlalchemy_repo.py: the booking repository over the table of bookings. The rows
-- that a SELECT gives, in an order that SQL leaves open, are a parameter. A comparison with NULL is not
-- true.
pub mod Agree
pub mod Refine
pub mod Writes
use train_seat_booking_syste.Prelude.{
  ℕ, Bool, false, ◌&&◌, ◌||◌, ◌≡◌, ◌↔◌, true, String, ℤ, leb_ℤ, Option, none, some, List, [], ◌∷◌,
  map, length, select, Occurs, str_eq, if◌then◌else◌,
}
use train_seat_booking_syste.Prelude.Dict.{Dict, lookup, insert, values}
use train_seat_booking_syste.Domain.Errors.{Result, ok, err, key_error, ◌>>=◌}
use train_seat_booking_syste.Domain.Values.{BookingStatus, held, expired, status_value}
use train_seat_booking_syste.Ports.{Hold}
use train_seat_booking_syste.SqlRepo.{BookingRow, to_hold, each}

-- `session.scalars(select(BookingRow).where(...))` over the rows of the table
abbrev pub Scalars : Type 0
Scalars = (BookingRow → Bool) → List BookingRow → List BookingRow

-- What SQL documents: the rows of which the condition is true, each once, in some order.
pub record IsSelection (scalars : Scalars) : Type 0 where
  pub selected :
      (test : BookingRow → Bool) (rows : List BookingRow) (r : BookingRow)
      → Occurs r (scalars test rows) ↔ (Occurs r rows × (test r ≡ true))
  pub counted :
      (test : BookingRow → Bool) (rows : List BookingRow)
      → length (scalars test rows) ≡ length (select test rows)

-- `BookingRow.status.in_(_ACTIVE)`
abbrev pub is_in_active : String → Bool
is_in_active status = str_eq status "HELD" || str_eq status "CONFIRMED"

abbrev pub is_text : Option String → String → Bool
is_text none s = false
is_text (some t) s = str_eq t s

abbrev pub on_seat : String → String → BookingRow → Bool
on_seat trip_id seat_id r =
    str_eq r.trip_id trip_id && is_text r.seat_id seat_id && is_in_active r.status

abbrev pub of_passenger : String → String → BookingRow → Bool
of_passenger trip_id passenger_id r =
    str_eq r.trip_id trip_id && str_eq r.passenger_id passenger_id && is_in_active r.status

abbrev pub on_trip : String → BookingRow → Bool
on_trip trip_id r = str_eq r.trip_id trip_id && is_in_active r.status

abbrev pub in_status : String → BookingStatus → BookingRow → Bool
in_status trip_id status r = str_eq r.trip_id trip_id && str_eq r.status (status_value status)

abbrev pub is_overdue : ℤ → BookingRow → Bool
is_overdue now r = str_eq r.status (status_value held) && leb_ℤ r.held_until now

abbrev pub row_in_status : BookingStatus → BookingRow → BookingRow
row_in_status status r = record r { status = status_value status }

abbrev pub first_of : List BookingRow → Result (Option Hold)
first_of [] = ok none
first_of (r ∷ rows) = to_hold r >>= λ h. ok (some h)

-- `row.status = …` on every row of which the test is true
unfoldable pub mark : (BookingRow → Bool) → BookingStatus → Dict BookingRow → Dict BookingRow
mark test status [] = []
mark test status ((k, r) ∷ table) =
    (k, if test r then row_in_status status r else r) ∷ mark test status table

unfoldable pub get : Dict BookingRow → String → Result Hold
get table booking_id = elim (lookup booking_id table) [ none ↦ err key_error | some r ↦ to_hold r ]

unfoldable pub set_status :
    Dict BookingRow → String → BookingStatus → Result (Hold × Dict BookingRow)
set_status table booking_id status = elim (lookup booking_id table) [
  | none ↦ err key_error
  | some r ↦ to_hold (row_in_status status r) >>= λ h.
      ok (h, insert booking_id (row_in_status status r) table)
]

module _ (scalars : Scalars) (table : Dict BookingRow) where
  unfoldable pub by_reference : String → Result (Option Hold)
  by_reference reference = first_of (scalars (λ r. str_eq r.reference reference) (values table))

  unfoldable pub active_for_seat : String → String → Result (List Hold)
  active_for_seat trip_id seat_id = each to_hold (scalars (on_seat trip_id seat_id) (values table))

  unfoldable pub active_for_passenger : String → String → Result (List Hold)
  active_for_passenger trip_id passenger_id =
      each to_hold (scalars (of_passenger trip_id passenger_id) (values table))

  unfoldable pub active_holds : String → Result (List Hold)
  active_holds trip_id = each to_hold (scalars (on_trip trip_id) (values table))

  unfoldable pub by_status : String → BookingStatus → Result (List Hold)
  by_status trip_id status = each to_hold (scalars (in_status trip_id status) (values table))

  -- The loop of `expire_due`: the rows are those of the table, so the marks are made there.
  unfoldable pub expire_due : ℤ → Result (List Hold × Dict BookingRow)
  expire_due now = do
    holds ← each to_hold (map (row_in_status expired) (scalars (is_overdue now) (values table)))
    ok (holds, mark (is_overdue now) expired table)
