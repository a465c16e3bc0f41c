-- ===== src/Tests/Packing.antt =====
-- Packing legs onto seats on a small input, and each theorem about it there.
use train_seat_booking_syste.Prelude.{
  ℕ, ◌≡◌, ◌≤◌, ◌<◌, refl, false, pos, ◌+ℤ◌, some, List, [], ◌∷◌, All, arith, get_elem?,
}
use train_seat_booking_syste.Domain.Packing.Colouring.Disjoint.{not-overlaps_of_pack}
use train_seat_booking_syste.Domain.Packing.Colouring.Optimal.{pack-lt-min_seats}
use train_seat_booking_syste.Domain.Packing.Colouring.{take_seat, pack_from, pack}
use train_seat_booking_syste.Domain.Packing.Depth.Greatest.{depth_at, min_seats-greatest}
use train_seat_booking_syste.Domain.Packing.Depth.{events, sweep, min_seats}
use train_seat_booking_syste.Domain.Stations.{Leg, IsForward, overlaps}
use train_seat_booking_syste.Tests.Sample.{leg}

abbrev requests : List Leg
requests = leg 2 4 ∷ leg 0 2 ∷ leg 1 3 ∷ leg 3 5 ∷ leg 0 1 ∷ []

requests-IsForward : All IsForward requests
requests-IsForward = omega arith

two_seats : min_seats requests ≡ pos 2
unfolding min_seats sweep events ◌+ℤ◌
two_seats = refl

packed : pack requests ≡ 1 ∷ 1 ∷ 0 ∷ 0 ∷ 0 ∷ []
unfolding pack pack_from take_seat
packed = refl

min_seats-greatest_example :
    (m : ℕ) × (min_seats requests ≡ pos m)
    × ((x : ℕ) → depth_at x requests ≤ m)
    × ((x : ℕ) × (depth_at x requests ≡ m))
min_seats-greatest_example = min_seats-greatest requests requests-IsForward

not-overlaps_of_pack_example : overlaps (leg 2 4) (leg 0 2) ≡ false
unfolding pack pack_from take_seat
not-overlaps_of_pack_example =
    not-overlaps_of_pack requests 0 1 1 (leg 2 4) (leg 0 2) requests-IsForward refl refl
      (λ e. omega arith) refl refl

pack-lt-min_seats_example :
    (s : ℕ) × (m : ℕ) × (get_elem? (pack requests) 2 ≡ some s)
    × (min_seats requests ≡ pos m)
    × (s < m)
    × ((x : ℕ) × (depth_at x requests ≡ m))
pack-lt-min_seats_example = pack-lt-min_seats requests 2 (leg 1 3) requests-IsForward refl
