-- ===== src/Domain/Packing/Colouring.antt =====
-- backend/slr/domain/packing.py: `pack`. The heap `free` is kept as a sorted list, whose head is what
-- `heappop` takes and `free[0]` reads.
pub mod Trace
pub mod Seats
pub mod Apart
pub mod Disjoint
pub mod Fewest
pub mod Optimal
use train_seat_booking_syste.Prelude.{
  ℕ, zero, suc, ◌+◌, Bool, ◌&&◌, ◌||◌, List, [], ◌∷◌, length, ltb, leb, ◌==◌, if◌then◌else◌,
}
use train_seat_booking_syste.Prelude.Sorting.{place, sort}
use train_seat_booking_syste.Domain.Stations.{Leg}

abbrev pub set : List ℕ → ℕ → ℕ → List ℕ
set [] i v = []
set (x ∷ xs) zero v = v ∷ xs
set (x ∷ xs) (suc i) v = x ∷ set xs i v

-- `[0] * len(legs)`
abbrev pub zeros : ℕ → List ℕ
zeros zero = []
zeros (suc n) = 0 ∷ zeros n

-- An index into the legs, with its leg.
pub record Entry : Type 0 where
  pub index : ℕ
  pub leg : Leg

abbrev pub enumerate : ℕ → List Leg → List Entry
enumerate i [] = []
enumerate i (l ∷ legs) = record { index = i; leg = l } ∷ enumerate (suc i) legs

-- the order of the keys `(legs[i].origin_seq, legs[i].dest_seq)`
abbrev pub leb_key : Entry → Entry → Bool
leb_key a b =
    ltb a.leg.origin_seq b.leg.origin_seq
    || a.leg.origin_seq == b.leg.origin_seq && leb a.leg.dest_seq b.leg.dest_seq

-- A pair of the heap: a seat and the position that frees it.
pub record Freed : Type 0 where
  pub at : ℕ
  pub seat : ℕ

abbrev pub leb_freed : Freed → Freed → Bool
leb_freed a b = ltb a.at b.at || a.at == b.at && leb a.seat b.seat

-- The seat for a leg, with the heap and the number of seats after it is taken.
pub record Taken : Type 0 where
  pub seat : ℕ
  pub free : List Freed
  pub seat_count : ℕ

unfoldable pub take_seat : Leg → List Freed → ℕ → Taken
take_seat leg [] n = record { seat = n; free = []; seat_count = suc n }
take_seat leg (f ∷ free) n =
    if leb f.at leg.origin_seq
    then record { seat = f.seat; free = free; seat_count = n }
    else record { seat = n; free = f ∷ free; seat_count = suc n }

-- `heapq.heappush(free, (leg.dest_seq, seat))`
abbrev pub give_back : Leg → Taken → List Freed
give_back leg t = place leb_freed (record { at = leg.dest_seq; seat = t.seat }) t.free

-- The loop of `pack`.
unfoldable pub pack_from : List Entry → List Freed → ℕ → List ℕ → List ℕ
pack_from [] free n assignment = assignment
pack_from (e ∷ order) free n assignment =
    let t = take_seat e.leg free n in
    pack_from order (give_back e.leg t) t.seat_count (set assignment e.index t.seat)

unfoldable pub pack : List Leg → List ℕ
pack legs = pack_from (sort leb_key (enumerate 0 legs)) [] 0 (zeros (length legs))
