-- ===== src/Domain/Packing/Depth/Greatest.antt =====
-- `min_seats` is the largest number of legs over one position.
use train_seat_booking_syste.Prelude.{
  ℕ, ◌+◌, ◌≤◌, ◌≡◌, refl, inl, inr, ℤ, pos, negsuc, pos_part, ◌≤ℤ◌, List, [], ◌∷◌, All, arith,
}
use train_seat_booking_syste.Prelude.Sorting.{
  sort, IsSorted, count_if, sort-IsSorted, count_if-sort,
}
use train_seat_booking_syste.Domain.Stations.{Leg, contains, IsForward}
use train_seat_booking_syste.Domain.Packing.Depth.{Event, leb_event, events, sweep, min_seats}
use train_seat_booking_syste.Domain.Packing.Depth.Sweep.{
  IsFrom, IsReached, up_by, down_by, ups, downs, peak-le-sweep, sweep-ge, sweep-IsReached,
}

-- the number of legs over a position
abbrev pub depth_at : ℕ → List Leg → ℕ
depth_at x legs = count_if (λ l. contains l x) legs

ups-events :
    (x : ℕ) (legs : List Leg)
    → All IsForward legs
    → ups x (events legs) ≡ downs x (events legs) + depth_at x legs
unfolding events
ups-events x [] f = refl
ups-events x (l ∷ legs) (h, f) = ground (arith, ups-events x legs f)

sorted_ups :
    (x : ℕ) (legs : List Leg)
    → All IsForward legs
    → ups x (sort leb_event (events legs))
      ≡ downs x (sort leb_event (events legs)) + depth_at x legs
sorted_ups x legs f = omega (
  arith,
  count_if-sort (up_by x) leb_event (events legs),
  count_if-sort (down_by x) leb_event (events legs),
  ups-events x legs f,
)

events-IsSorted : (legs : List Leg) → IsSorted leb_event (sort leb_event (events legs))
events-IsSorted legs =
    sort-IsSorted leb_event (λ a b h. ground arith) (λ a b c h k. ground arith) (events legs)

IsFrom-zero : (es : List Event) → All (IsFrom 0) es
IsFrom-zero [] = tt
IsFrom-zero (e ∷ es) = (omega arith, IsFrom-zero es)

at_least : (z : ℤ) → pos 0 ≤ℤ z → z ≡ pos (pos_part z)
at_least (pos n) h = refl
at_least (negsuc n) h = ground arith

some_position :
    (legs : List Leg)
    → All IsForward legs
    → (result : ℤ) → result ≡ pos (pos_part result)
    → ((x : ℕ) → depth_at x legs ≤ pos_part result)
    → IsReached 0 (pos 0) (pos 0) (sort leb_event (events legs)) result
    → (x : ℕ) × (depth_at x legs ≡ pos_part result)
some_position legs f result e bound (inl zero) = (0, ground (arith, bound 0))
some_position legs f result e bound (inr (x, h, reached)) =
    (x, ground (arith, bound x, sorted_ups x legs f))

-- For legs that run forward, `min_seats` is the largest number of legs over one position: no position
-- has more legs over it, and some position has as many.
pub min_seats-greatest :
    (legs : List Leg)
    → All IsForward legs
    → (m : ℕ) × (min_seats legs ≡ pos m)
      × ((x : ℕ) → depth_at x legs ≤ m)
      × ((x : ℕ) × (depth_at x legs ≡ m))
unfolding min_seats
min_seats-greatest legs f =
    let es = sort leb_event (events legs) in
    let result = sweep (pos 0) (pos 0) es in
    let e : result ≡ pos (pos_part result) = at_least result (peak-le-sweep (pos 0) (pos 0) es) in
    let bound : (x : ℕ) → depth_at x legs ≤ pos_part result = λ x.
      let ge = sweep-ge x (pos 0) (pos 0) es (events-IsSorted legs) (omega arith) in
      ground (arith, sorted_ups x legs f, ge) in
    (
      pos_part result,
      e,
      bound,
      some_position legs f result e bound (
          sweep-IsReached 0 (pos 0) (pos 0) es (events-IsSorted legs) (IsFrom-zero es)
            (omega arith)),
    )
