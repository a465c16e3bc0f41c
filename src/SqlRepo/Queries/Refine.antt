-- ===== src/SqlRepo/Queries/Refine.antt =====
-- The queries of the table answer as those of the fake do.
use train_seat_booking_syste.Prelude.{
  Bool, ◌&&◌, ◌≡◌, refl, ap, false, String, ℤ, List, [], ◌∷◌, map, select, str_eq, eq_iff, arith,
}
use train_seat_booking_syste.Prelude.Dict.{Dict, values}
use train_seat_booking_syste.Domain.Errors.{Result, ok}
use train_seat_booking_syste.Domain.Values.{
  BookingStatus, held, confirmed, cancelled, expired, standing, is_active, same_status,
  status_value,
}
use train_seat_booking_syste.MemoryRepo
use train_seat_booking_syste.MemoryRepo.{
  is_active_on_seat, is_active_of_passenger, is_due, expire, with_status,
}
use train_seat_booking_syste.Ports.{Hold}
use train_seat_booking_syste.SqlRepo.{BookingRow, to_hold, to_row, each}
use train_seat_booking_syste.SqlRepo.Queries
use train_seat_booking_syste.SqlRepo.Queries.Agree.{AllForward, HasHolds, query_lem}
use train_seat_booking_syste.SqlRepo.Queries.{
  Scalars, IsSelection, is_in_active, on_seat, of_passenger, on_trip, in_status, is_overdue,
  row_in_status, mark,
}

-- The table that holds the rows of a dictionary of holds.
abbrev pub rows_of : Dict Hold → Dict BookingRow
rows_of [] = []
rows_of ((k, h) ∷ holds) = (k, to_row h) ∷ rows_of holds

pub values-rows_of : (holds : Dict Hold) → values (rows_of holds) ≡ map to_row (values holds)
values-rows_of [] = refl
values-rows_of ((k, h) ∷ holds) = ap (λ t. to_row h ∷ t) (values-rows_of holds)

-- A query of the table that answers with the holds of a query of the dictionary.
abbrev pub Answers : Result (List Hold) → List Hold → Type 0
Answers answer holds = (found : List Hold) × (answer ≡ ok found) × HasHolds found holds

is_in_active-status_value : (s : BookingStatus) → is_in_active (status_value s) ≡ is_active s
is_in_active-status_value held = refl
is_in_active-status_value confirmed = refl
is_in_active-status_value cancelled = refl
is_in_active-status_value expired = refl
is_in_active-status_value standing = refl

status_value-same :
    (s t : BookingStatus) → str_eq (status_value s) (status_value t) ≡ same_status s t
status_value-same held held = refl
status_value-same held _ = refl
status_value-same confirmed confirmed = refl
status_value-same confirmed _ = refl
status_value-same cancelled cancelled = refl
status_value-same cancelled _ = refl
status_value-same expired expired = refl
status_value-same expired _ = refl
status_value-same standing standing = refl
status_value-same standing _ = refl

on_seat-to_row :
    (trip_id seat_id : String)
    → str_eq seat_id "" ≡ false
    → (h : Hold) → on_seat trip_id seat_id (to_row h) ≡ is_active_on_seat trip_id seat_id h
unfolding to_row
on_seat-to_row trip_id seat_id some_seat h =
    rw (is_in_active-status_value h.status)
      (ground (arith, eq_iff h.seat_id "", eq_iff h.seat_id seat_id, eq_iff seat_id ""))

of_passenger-to_row :
    (trip_id passenger_id : String) (h : Hold)
    → of_passenger trip_id passenger_id (to_row h) ≡ is_active_of_passenger trip_id passenger_id h
unfolding to_row
of_passenger-to_row trip_id passenger_id h = rw (is_in_active-status_value h.status) refl

on_trip-to_row :
    (trip_id : String) (h : Hold)
    → on_trip trip_id (to_row h) ≡ (str_eq h.trip_id trip_id && is_active h.status)
unfolding to_row
on_trip-to_row trip_id h = rw (is_in_active-status_value h.status) refl

in_status-to_row :
    (trip_id : String) (status : BookingStatus) (h : Hold)
    → in_status trip_id status (to_row h)
      ≡ (str_eq h.trip_id trip_id && same_status h.status status)
unfolding to_row
in_status-to_row trip_id status h = rw (status_value-same h.status status) refl

pub is_overdue-to_row : (now : ℤ) (h : Hold) → is_overdue now (to_row h) ≡ is_due now h
unfolding to_row
is_overdue-to_row now h = rw (status_value-same h.status held) refl

pub row_in_status-to_row :
    (status : BookingStatus) (h : Hold)
    → row_in_status status (to_row h) ≡ to_row (with_status h status)
unfolding to_row
row_in_status-to_row status h = refl

module _ (scalars : Scalars) (law : IsSelection scalars) (holds : Dict Hold)
    (forward : AllForward (values holds)) where
  answers :
      (p : Hold → Bool) (q : BookingRow → Bool)
      → ((h : Hold) → q (to_row h) ≡ p h)
      → Answers (each to_hold (scalars q (values (rows_of holds)))) (select p (values holds))
  answers p q agree =
      rw (values-rows_of holds) (query_lem scalars law p q agree (values holds) forward)

  Answers-seat :
      (trip_id seat_id : String)
      → str_eq seat_id "" ≡ false
      → Answers
          (Queries.active_for_seat scalars (rows_of holds) trip_id seat_id)
          (MemoryRepo.active_for_seat holds trip_id seat_id)
  unfolding Queries.active_for_seat MemoryRepo.active_for_seat
  Answers-seat trip_id seat_id seated =
      answers (is_active_on_seat trip_id seat_id) (on_seat trip_id seat_id)
        (on_seat-to_row trip_id seat_id seated)

  Answers-passenger :
      (trip_id passenger_id : String)
      → Answers
          (Queries.active_for_passenger scalars (rows_of holds) trip_id passenger_id)
          (MemoryRepo.active_for_passenger holds trip_id passenger_id)
  unfolding Queries.active_for_passenger MemoryRepo.active_for_passenger
  Answers-passenger trip_id passenger_id =
      answers (is_active_of_passenger trip_id passenger_id) (of_passenger trip_id passenger_id)
        (of_passenger-to_row trip_id passenger_id)

  Answers-trip :
      (trip_id : String)
      → Answers
          (Queries.active_holds scalars (rows_of holds) trip_id)
          (MemoryRepo.active_holds holds trip_id)
  unfolding Queries.active_holds MemoryRepo.active_holds
  Answers-trip trip_id = answers _ (on_trip trip_id) (on_trip-to_row trip_id)

  Answers-status :
      (trip_id : String) (status : BookingStatus)
      → Answers
          (Queries.by_status scalars (rows_of holds) trip_id status)
          (MemoryRepo.by_status holds trip_id status)
  unfolding Queries.by_status MemoryRepo.by_status
  Answers-status trip_id status =
      answers _ (in_status trip_id status) (in_status-to_row trip_id status)

-- Over a SELECT that gives the rows of which its condition is true, each once and in any order, the
-- queries of the table that holds the rows of the fake's bookings answer with the same bookings as the
-- queries of the fake: those of a seat that has a name, of a passenger, of a trip, and those in a
-- status. The legs are taken to run forward.
pub queries_lem :
    (scalars : Scalars) (holds : Dict Hold) (trip_id seat_id passenger_id : String)
    (status : BookingStatus)
    → IsSelection scalars
    → AllForward (values holds)
    → str_eq seat_id "" ≡ false
    → Answers
        (Queries.active_for_seat scalars (rows_of holds) trip_id seat_id)
        (MemoryRepo.active_for_seat holds trip_id seat_id)
      × Answers
          (Queries.active_for_passenger scalars (rows_of holds) trip_id passenger_id)
          (MemoryRepo.active_for_passenger holds trip_id passenger_id)
      × Answers
          (Queries.active_holds scalars (rows_of holds) trip_id)
          (MemoryRepo.active_holds holds trip_id)
      × Answers
          (Queries.by_status scalars (rows_of holds) trip_id status)
          (MemoryRepo.by_status holds trip_id status)
queries_lem scalars holds trip_id seat_id passenger_id status law forward seated = (
  Answers-seat scalars law holds forward trip_id seat_id seated,
  Answers-passenger scalars law holds forward trip_id passenger_id,
  Answers-trip scalars law holds forward trip_id,
  Answers-status scalars law holds forward trip_id status,
)
