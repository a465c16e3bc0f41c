-- ===== src/UseCases/SellUnreserved/Assigned.antt =====
-- The seat that a counter sale is given.
use train_seat_booking_syste.Prelude.{
  ℕ, zero, suc, ◌≡◌, refl, false, String, ℤ, some, List, [], ◌∷◌, map, any, get_elem?, arith,
}
use train_seat_booking_syste.Prelude.Dict.{Dict, insert}
use train_seat_booking_syste.Domain.Errors.{ok}
use train_seat_booking_syste.Domain.Packing.Choose.{choose_seat-best}
use train_seat_booking_syste.Domain.Packing.{choose_seat, is_taken}
use train_seat_booking_syste.Domain.Stations.{Leg}
use train_seat_booking_syste.MemoryRepo
use train_seat_booking_syste.MemoryRepo.{active_for_seat, blocks}
use train_seat_booking_syste.Ports.{Hold, Seat}
use train_seat_booking_syste.UseCases.SellUnreserved.{SaleRequest, sold_hold, legs_by_seat}

abbrev legs_of : List Hold → List Leg
legs_of = map (λ h. h.leg)

-- The seat behind a position of `legs_by_seat`.
legs_by_seat-seat :
    (holds : Dict Hold) (trip_id : String) (pool : List Seat) (i : ℕ) (legs : List Leg)
    → get_elem? (legs_by_seat holds trip_id pool) i ≡ some legs
    → (seat : Seat) × (get_elem? pool i ≡ some seat)
      × (legs_of (active_for_seat holds trip_id seat.seat_id) ≡ legs)
legs_by_seat-seat holds trip_id [] i legs e = ground arith
legs_by_seat-seat holds trip_id (s ∷ pool) zero legs e = (s, refl, ground arith)
legs_by_seat-seat holds trip_id (s ∷ pool) (suc i) legs e =
    legs_by_seat-seat holds trip_id pool i legs e

-- A leg that no stored leg overlaps is blocked by none of the bookings.
free-unblocked :
    (hold : Hold) (active : List Hold)
    → is_taken hold.leg (legs_of active) ≡ false
    → any (blocks hold) active ≡ false
free-unblocked hold [] e = refl
free-unblocked hold (h ∷ active) e = ground (arith, free-unblocked hold active)

-- The repository never refuses the seat that the optimizer has chosen: it is a seat of the pool, and
-- a CONFIRMED booking of it over the leg is stored.
pub chosen_seat-accepted :
    (holds : Dict Hold) (r : SaleRequest) (pool : List Seat) (i : ℕ)
    → choose_seat (legs_by_seat holds r.trip_id pool) r.leg ≡ some i
    → (seat : Seat) × (get_elem? pool i ≡ some seat)
      × ((booking_id reference : String) (fare now : ℤ)
          → let sold = sold_hold r booking_id reference (some seat) fare now in
            MemoryRepo.add_hold holds sold ≡ ok (insert booking_id sold holds))
unfolding MemoryRepo.add_hold
chosen_seat-accepted holds r pool i e =
    let (legs, g, f, best) = choose_seat-best (legs_by_seat holds r.trip_id pool) r.leg i e in
    let (seat, gs, el) = legs_by_seat-seat holds r.trip_id pool i legs g in
    (
      seat,
      gs,
      λ booking_id reference fare now. ground (
        arith,
        free-unblocked (sold_hold r booking_id reference (some seat) fare now)
            (active_for_seat holds r.trip_id seat.seat_id),
      ),
    )
