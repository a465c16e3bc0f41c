-- ===== src/SqlRepo/Queries/Writes.antt =====
-- The writes of the table are those of the fake: a change of status, and expiry.
use train_seat_booking_syste.Prelude.{
  suc, ◌≡◌, refl, sym, ap, ◌∙◌, subst, String, ℤ, none, some, List, [], ◌∷◌, map, length, select,
  Occurs, map-Occurs, map-Occurs_inv, str_eq, arith, Bool-cases, Option-cases, inl, inr,
}
use train_seat_booking_syste.Prelude.Dict.{Dict, lookup, insert, values, lookup-Occurs}
use train_seat_booking_syste.Domain.Errors.{Result, ok, err}
use train_seat_booking_syste.Domain.Values.{BookingStatus, expired}
use train_seat_booking_syste.MemoryRepo
use train_seat_booking_syste.MemoryRepo.{
  is_active_on_seat, is_active_of_passenger, is_due, expire, with_status,
}
use train_seat_booking_syste.Ports.{Hold}
use train_seat_booking_syste.SqlRepo.{BookingRow, to_hold, to_row, each}
use train_seat_booking_syste.SqlRepo.RoundTrip.{to_hold-to_row}
use train_seat_booking_syste.SqlRepo.Queries
use train_seat_booking_syste.SqlRepo.Queries.Agree.{
  AllForward, AllForward-Occurs, HasHolds, read_back, selected_from, selected_all,
  length-select_rows, select-AllForward,
}
use train_seat_booking_syste.SqlRepo.Queries.Refine.{
  rows_of, values-rows_of, is_overdue-to_row, row_in_status-to_row,
}
use train_seat_booking_syste.SqlRepo.Queries.{
  Scalars, IsSelection, is_in_active, on_seat, of_passenger, on_trip, in_status, is_overdue,
  row_in_status, mark,
}

-- What the fake collects and writes as it expires holds.
due-eq :
    (holds : Dict Hold) (now : ℤ)
    → (MemoryRepo.expire_due holds now).0 ≡ map expire (select (is_due now) (values holds))
unfolding MemoryRepo.expire_due
due-eq [] now = refl
due-eq ((k, h) ∷ holds) now = elim (Bool-cases (is_due now h)) [
  | inl e ↦ rw e (ap (λ t. expire h ∷ t) (due-eq holds now))
  | inr e ↦ rw e (due-eq holds now)
]

mark-rows_of :
    (holds : Dict Hold) (now : ℤ)
    → mark (is_overdue now) expired (rows_of holds) ≡ rows_of (MemoryRepo.expire_due holds now).1
unfolding mark MemoryRepo.expire_due to_row
mark-rows_of [] now = refl
mark-rows_of ((k, h) ∷ holds) now = elim (Bool-cases (is_due now h)) [
  | inl e ↦
      rw (is_overdue-to_row now h, e)
        (ap (λ t. (k, to_row (expire h)) ∷ t) (mark-rows_of holds now))
  | inr e ↦ rw (is_overdue-to_row now h, e) (ap (λ t. (k, to_row h) ∷ t) (mark-rows_of holds now))
]

map-AllForward : (hs : List Hold) → AllForward hs → AllForward (map expire hs)
map-AllForward [] f = tt
map-AllForward (h ∷ hs) (p, f) = (p, map-AllForward hs f)

length-map : {A B : Type 0} (f : A → B) (xs : List A) → length (map f xs) ≡ length xs
length-map f [] = refl
length-map f (x ∷ xs) = ap (λ n. suc n) (length-map f xs)

module _ (scalars : Scalars) (law : IsSelection scalars) (now : ℤ) (hs : List Hold)
    (forward : AllForward hs) where
  agree : (h : Hold) → is_overdue now (to_row h) ≡ is_due now h
  agree = is_overdue-to_row now

  abbrev expired_rows : List BookingRow
  expired_rows = map (row_in_status expired) (scalars (is_overdue now) (map to_row hs))

  expired_from :
      (r : BookingRow)
      → Occurs r expired_rows
      → (h : Hold) × Occurs h (map expire (select (is_due now) hs)) × (r ≡ to_row h)
  expired_from r m =
      let (s, at, e) = map-Occurs_inv (row_in_status expired) r _ m in
      let (h, due, made) = selected_from scalars law (is_due now) (is_overdue now) agree hs s at in
      (
        expire h,
        map-Occurs expire h _ due,
        e ∙ ap (row_in_status expired) made ∙ row_in_status-to_row expired h,
      )

  expired_all :
      (h : Hold) → Occurs h (map expire (select (is_due now) hs)) → Occurs (to_row h) expired_rows
  expired_all h m =
      let (g, due, e) = map-Occurs_inv expire h _ m in
      subst (λ x. Occurs x expired_rows) (row_in_status-to_row expired g ∙ ap to_row (sym e))
        (map-Occurs (row_in_status expired) (to_row g) _
          (selected_all scalars law (is_due now) (is_overdue now) agree hs g due))

  expired_read :
      (found : List Hold) × (each to_hold expired_rows ≡ ok found)
      × HasHolds found (map expire (select (is_due now) hs))
  expired_read =
      read_back (map expire (select (is_due now) hs)) expired_rows
        (map-AllForward _
          (select-AllForward scalars law (is_due now) (is_overdue now) agree hs forward))
        expired_from expired_all
        (length-map (row_in_status expired) _
          ∙ law.counted (is_overdue now) (map to_row hs)
          ∙ length-select_rows scalars law (is_due now) (is_overdue now) agree hs
          ∙ sym (length-map expire (select (is_due now) hs)))

lookup-rows_of :
    (k : String) (holds : Dict Hold)
    → lookup k (rows_of holds) ≡ elim (lookup k holds) [ none ↦ none | some h ↦ some (to_row h) ]
unfolding lookup
lookup-rows_of k [] = refl
lookup-rows_of k ((j, h) ∷ holds) = ground (arith, lookup-rows_of k holds)

insert-rows_of :
    (k : String) (h : Hold) (holds : Dict Hold)
    → insert k (to_row h) (rows_of holds) ≡ rows_of (insert k h holds)
unfolding insert
insert-rows_of k h [] = refl
insert-rows_of k h ((j, g) ∷ holds) = elim (Bool-cases (str_eq j k)) [
  | inl e ↦ rw e refl
  | inr e ↦ rw e (ap (λ t. (j, to_row g) ∷ t) (insert-rows_of k h holds))
]

-- What the table answers where the fake gives a hold and a new dictionary.
abbrev pub stored : Result (Hold × Dict Hold) → Result (Hold × Dict BookingRow)
stored (err e) = err e
stored (ok (h, holds)) = ok (h, rows_of holds)

module _ (holds : Dict Hold) (forward : AllForward (values holds)) (k : String) where
  read_row : (h : Hold) → lookup k holds ≡ some h → to_hold (to_row h) ≡ ok h
  read_row h e =
      to_hold-to_row h (AllForward-Occurs h (values holds) forward (lookup-Occurs k h holds e))

  get-eq : Queries.get (rows_of holds) k ≡ MemoryRepo.get holds k
  unfolding Queries.get MemoryRepo.get
  get-eq = elim (Option-cases (lookup k holds)) [
    | inl e ↦ ground (arith, lookup-rows_of k holds)
    | inr (h, e) ↦ ground (arith, lookup-rows_of k holds, read_row h e)
  ]

  set_status-eq :
      (status : BookingStatus)
      → Queries.set_status (rows_of holds) k status ≡ stored (MemoryRepo.set_status holds k status)
  unfolding Queries.set_status MemoryRepo.set_status
  set_status-eq status = elim (Option-cases (lookup k holds)) [
    | inl e ↦ ground (arith, lookup-rows_of k holds)
    | inr (h, e) ↦
        let row : lookup k (rows_of holds) ≡ some (to_row h) =
          ground (arith, lookup-rows_of k holds) in
        let f = AllForward-Occurs h (values holds) forward (lookup-Occurs k h holds e) in
        let kept : to_hold (row_in_status status (to_row h)) ≡ ok (with_status h status) =
          ap to_hold (row_in_status-to_row status h) ∙ to_hold-to_row (with_status h status) f in
        let put : insert k (row_in_status status (to_row h)) (rows_of holds)
            ≡ rows_of (insert k (with_status h status) holds) =
          ap (λ r. insert k r (rows_of holds)) (row_in_status-to_row status h)
          ∙ insert-rows_of k (with_status h status) holds in
        ground (arith, row, kept, put)
  ]

expire_due-eq :
    (scalars : Scalars) (holds : Dict Hold) (now : ℤ)
    → IsSelection scalars
    → AllForward (values holds)
    → (found : List Hold) × (Queries.expire_due scalars (rows_of holds) now
        ≡ ok (found, rows_of (MemoryRepo.expire_due holds now).1))
      × HasHolds found (MemoryRepo.expire_due holds now).0
unfolding Queries.expire_due
expire_due-eq scalars holds now law forward =
    let (found, read, same) = expired_read scalars law now (values holds) forward in
    (
      found,
      rw (values-rows_of holds, read, mark-rows_of holds now) refl,
      rw (due-eq holds now) same,
    )

-- Over a SELECT that gives the rows of which its condition is true, each once and in any order, and for
-- legs that run forward: on the table that holds the rows of the fake's bookings, `get` and
-- `set_status` answer as those of the fake, errors included, and `expire_due` returns the same
-- bookings; and each leaves the rows of what the fake is left with.
pub writes_lem :
    (scalars : Scalars) (holds : Dict Hold) (booking_id : String) (status : BookingStatus) (now : ℤ)
    → IsSelection scalars
    → AllForward (values holds)
    → (Queries.get (rows_of holds) booking_id ≡ MemoryRepo.get holds booking_id)
      × (Queries.set_status (rows_of holds) booking_id status
          ≡ stored (MemoryRepo.set_status holds booking_id status))
      × ((found : List Hold) × (Queries.expire_due scalars (rows_of holds) now
            ≡ ok (found, rows_of (MemoryRepo.expire_due holds now).1))
          × HasHolds found (MemoryRepo.expire_due holds now).0)
writes_lem scalars holds booking_id status now law forward = (
  get-eq holds forward booking_id,
  set_status-eq holds forward booking_id status,
  expire_due-eq scalars holds now law forward,
)
