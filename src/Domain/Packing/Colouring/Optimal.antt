-- ===== src/Domain/Packing/Colouring/Optimal.antt =====
-- `pack` needs no more than `min_seats` seats.
use train_seat_booking_syste.Prelude.{
  ℕ, suc, ◌≤◌, ◌<◌, ◌≡◌, refl, some, pos, List, [], ◌∷◌, All, get_elem?, arith,
}
use train_seat_booking_syste.Prelude.Sorting.{IsSorted, count_if, count_if-sort, sort-IsSorted}
use train_seat_booking_syste.Domain.Stations.{Leg, IsForward}
use train_seat_booking_syste.Domain.Packing.Colouring.{Entry, enumerate, leb_key, pack}
use train_seat_booking_syste.Domain.Packing.Colouring.Disjoint.{All-Occurs, order_of-RunsForward}
use train_seat_booking_syste.Domain.Packing.Colouring.Fewest.{
  over, StartsFrom, IsTight, IsSeatBelow, trace-IsSeatBelow,
}
use train_seat_booking_syste.Domain.Packing.Colouring.Seats.{order_of, pack-seated}
use train_seat_booking_syste.Domain.Packing.Colouring.Trace.{trace}
use train_seat_booking_syste.Domain.Packing.Depth.Greatest.{depth_at, min_seats-greatest}
use train_seat_booking_syste.Domain.Packing.Depth.{min_seats}

over-enumerate :
    (x i : ℕ) (legs : List Leg) → count_if (over x) (enumerate i legs) ≡ depth_at x legs
over-enumerate x i [] = refl
over-enumerate x i (l ∷ legs) = ground (arith, over-enumerate x (suc i) legs)

StartsFrom-zero : (order : List Entry) → All (StartsFrom 0) order
StartsFrom-zero [] = tt
StartsFrom-zero (e ∷ order) = (omega arith, StartsFrom-zero order)

order_of-IsSorted : (legs : List Leg) → IsSorted leb_key (order_of legs)
order_of-IsSorted legs =
    sort-IsSorted leb_key (λ a b h. ground arith) (λ a b c h k. ground arith) (enumerate 0 legs)

start-IsTight :
    (legs : List Leg) (m : ℕ) (bound : (x : ℕ) → depth_at x legs ≤ m)
    → IsTight (λ x. depth_at x legs) m bound 0 (order_of legs) [] 0
start-IsTight legs m bound = record {
  sorted = tt;
  counted = refl;
  below = tt;
  within = λ x h.
      omega (arith, count_if-sort (over x) leb_key (enumerate 0 legs), over-enumerate x 0 legs);
  enough = omega arith;
}

-- For legs that run forward, `pack` gives every leg a seat numbered below `min_seats legs`. Since as
-- many legs lie over some one position, this is the least number of seats.
pub pack-lt-min_seats :
    (legs : List Leg) (i : ℕ) (l : Leg)
    → All IsForward legs
    → get_elem? legs i ≡ some l
    → (s : ℕ) × (m : ℕ) × (get_elem? (pack legs) i ≡ some s)
      × (min_seats legs ≡ pos m)
      × (s < m)
      × ((x : ℕ) × (depth_at x legs ≡ m))
pack-lt-min_seats legs i l f e =
    let (m, same, bound, position) = min_seats-greatest legs f in
    let (x, at, _, found) = pack-seated legs i l e in
    let below =
      trace-IsSeatBelow (λ x. depth_at x legs) m bound 0 (order_of legs) [] 0
        (order_of-IsSorted legs) (StartsFrom-zero (order_of legs)) (order_of-RunsForward legs f)
        (start-IsTight legs m bound) in
    (
      x.seat,
      m,
      found,
      same,
      All-Occurs (IsSeatBelow m) x (trace (order_of legs) [] 0) below at,
      position,
    )
