-- ===== src/Tests/Queries.antt =====
-- The queries of the booking table on two bookings, and each theorem about them there. The rows come in
-- the order of the table.
use train_seat_booking_syste.Prelude.{
  ◌≡◌, refl, pos, List, [], ◌∷◌, select, select-Occurs, select-Occurs_inv, arith,
}
use train_seat_booking_syste.Prelude.Dict.{Dict}
use train_seat_booking_syste.Domain.Errors.{ok}
use train_seat_booking_syste.Domain.Values.{held, confirmed, cancelled}
use train_seat_booking_syste.MemoryRepo
use train_seat_booking_syste.Ports.{Hold}
use train_seat_booking_syste.SqlRepo.Queries
use train_seat_booking_syste.SqlRepo.Queries.Agree.{HasHolds}
use train_seat_booking_syste.SqlRepo.Queries.Refine.{rows_of, Answers, queries_lem}
use train_seat_booking_syste.SqlRepo.Queries.Writes.{stored, writes_lem}
use train_seat_booking_syste.SqlRepo.Queries.{IsSelection}
use train_seat_booking_syste.Tests.Sample.{booked}

select-IsSelection : IsSelection select
select-IsSelection = record {
  selected = λ test rows r.
      (λ m. select-Occurs_inv test r rows m, λ (at, t). select-Occurs test r rows t at);
  counted = λ test rows. refl;
}

-- The first is confirmed and the second overdue at 900.
abbrev two : Dict Hold
two =
    ("id-1", booked "id-1" "SLR-1" 0 2 30 confirmed)
    ∷ ("id-2", booked "id-2" "SLR-2" 2 3 30 held)
    ∷ []

queries_lem_example :
    Answers
      (Queries.active_for_seat select (rows_of two) "T:2026-07-01" "R1A")
      (MemoryRepo.active_for_seat two "T:2026-07-01" "R1A")
    × Answers
        (Queries.active_for_passenger select (rows_of two) "T:2026-07-01" "NIC1")
        (MemoryRepo.active_for_passenger two "T:2026-07-01" "NIC1")
    × Answers
        (Queries.active_holds select (rows_of two) "T:2026-07-01")
        (MemoryRepo.active_holds two "T:2026-07-01")
    × Answers
        (Queries.by_status select (rows_of two) "T:2026-07-01" held)
        (MemoryRepo.by_status two "T:2026-07-01" held)
queries_lem_example =
    queries_lem select two "T:2026-07-01" "R1A" "NIC1" held select-IsSelection
      (omega arith, (omega arith, tt)) refl

writes_lem_example :
    (Queries.get (rows_of two) "id-1" ≡ MemoryRepo.get two "id-1")
    × (Queries.set_status (rows_of two) "id-1" cancelled
        ≡ stored (MemoryRepo.set_status two "id-1" cancelled))
    × ((found : List Hold) × (Queries.expire_due select (rows_of two) (pos 900)
          ≡ ok (found, rows_of (MemoryRepo.expire_due two (pos 900)).1))
        × HasHolds found (MemoryRepo.expire_due two (pos 900)).0)
writes_lem_example =
    writes_lem select two "id-1" cancelled (pos 900) select-IsSelection
      (omega arith, (omega arith, tt))
