-- ===== src/Domain/Packing/Depth.antt =====
-- backend/slr/domain/packing.py: `min_seats`, the sweep over the ends of the legs.
pub mod Sweep
pub mod Greatest
use train_seat_booking_syste.Prelude.{
  ℕ, Bool, true, false, ◌&&◌, ◌||◌, ℤ, pos, negsuc, ◌+ℤ◌, ltb_ℤ, List, [], ◌∷◌, ltb, ◌==◌,
  if◌then◌else◌,
}
use train_seat_booking_syste.Prelude.Sorting.{sort}
use train_seat_booking_syste.Domain.Stations.{Leg}

-- the two deltas, -1 and +1, in their order
pub data Delta : Type 0 where
  down up : Delta

abbrev pub delta_value : Delta → ℤ
delta_value down = negsuc 0
delta_value up = pos 1

pub record Event : Type 0 where
  pub position : ℕ
  pub delta : Delta

abbrev pub leb_delta : Delta → Delta → Bool
leb_delta up down = false
leb_delta _ _ = true

-- the order of the keys `(e[0], e[1])`
abbrev pub leb_event : Event → Event → Bool
leb_event a b = ltb a.position b.position || a.position == b.position && leb_delta a.delta b.delta

unfoldable pub events : List Leg → List Event
events [] = []
events (l ∷ legs) =
    record { position = l.origin_seq; delta = up }
    ∷ record { position = l.dest_seq; delta = down }
    ∷ events legs

abbrev pub max_ℤ : ℤ → ℤ → ℤ
max_ℤ a b = if ltb_ℤ a b then b else a

-- The loop over the sorted events.
unfoldable pub sweep : ℤ → ℤ → List Event → ℤ
sweep depth peak [] = peak
sweep depth peak (e ∷ es) =
    let depth' = depth +ℤ delta_value e.delta in sweep depth' (max_ℤ peak depth') es

unfoldable pub min_seats : List Leg → ℤ
min_seats legs = sweep (pos 0) (pos 0) (sort leb_event (events legs))
