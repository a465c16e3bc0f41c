-- ===== src/Domain/Packing.antt =====
-- backend/slr/domain/packing.py: the choice of a seat, and the offers for standing passengers.
pub mod Choose
pub mod Colouring
pub mod Depth
pub mod Remainder
pub mod Standing
use train_seat_booking_syste.Prelude.{
  ℕ, zero, suc, ◌+◌, ◌≡◌, Bool, true, false, ◌&&◌, Option, none, some, List, [], ◌∷◌, ◌++◌, select,
  any, ltb, if◌then◌else◌,
}
use train_seat_booking_syste.Domain.Stations.{Leg, leg_length, overlaps}

-- `_occupied_span(seat_legs)`
unfoldable pub occupied_span : List Leg → ℕ
occupied_span [] = 0
occupied_span (l ∷ ls) = leg_length l + occupied_span ls

-- `any(leg.overlaps(existing) for existing in seat_legs)`
abbrev pub is_taken : Leg → List Leg → Bool
is_taken leg seat_legs = any (overlaps leg) seat_legs

-- The best seat so far with its span; `none` is `best = None`, `best_span = -1`.
abbrev pub better : ℕ → ℕ → Option (ℕ × ℕ) → Option (ℕ × ℕ)
better idx span none = some (idx, span)
better idx span (some (best, best_span)) =
    if ltb best_span span then some (idx, span) else some (best, best_span)

-- The loop of `choose_seat`, from seat number `idx` on.
unfoldable pub choose_from : ℕ → Option (ℕ × ℕ) → List (List Leg) → Leg → Option (ℕ × ℕ)
choose_from idx best [] leg = best
choose_from idx best (seat_legs ∷ seats) leg =
    choose_from (suc idx)
      (if is_taken leg seat_legs then best else better idx (occupied_span seat_legs) best) seats leg

abbrev pub chosen_index : Option (ℕ × ℕ) → Option ℕ
chosen_index none = none
chosen_index (some (idx, span)) = some idx

unfoldable pub choose_seat : List (List Leg) → Leg → Option ℕ
choose_seat seats leg = chosen_index (choose_from 0 none seats leg)

pub record SeatOffer : Type 0 where
  pub board_seq : ℕ
  pub seat_index : ℕ

-- the legs on the seat that lie in the way of [origin, dest)
abbrev pub blocks_remainder : ℕ → ℕ → Leg → Bool
blocks_remainder origin dest b = ltb b.origin_seq dest && ltb origin b.dest_seq

unfoldable pub last_dest : ℕ → List Leg → ℕ
last_dest m [] = m
last_dest m (b ∷ bs) = last_dest (if ltb m b.dest_seq then b.dest_seq else m) bs

-- `origin if not blocking else ...` of `_frees_for_remainder`
abbrev pub board_after : ℕ → ℕ → List Leg → Option ℕ
board_after origin dest [] = some origin
board_after origin dest (b ∷ bs) =
    if ltb (last_dest b.dest_seq bs) dest then some (last_dest b.dest_seq bs) else none

unfoldable pub frees_for_remainder : List Leg → ℕ → ℕ → Option ℕ
frees_for_remainder seat_legs origin dest =
    board_after origin dest (select (blocks_remainder origin dest) seat_legs)

abbrev pub better_offer : ℕ → Option ℕ → Option SeatOffer → Option SeatOffer
better_offer idx none best = best
better_offer idx (some board) none = some (record { board_seq = board; seat_index = idx })
better_offer idx (some board) (some best) =
    if ltb board best.board_seq
    then some (record { board_seq = board; seat_index = idx })
    else some best

-- The inner loop of `predict_standing_seats`, from seat number `idx` on.
unfoldable pub offer_from : ℕ → Option SeatOffer → List (List Leg) → Leg → Option SeatOffer
offer_from idx best [] leg = best
offer_from idx best (seat_legs ∷ seats) leg =
    offer_from (suc idx)
      (better_offer idx (frees_for_remainder seat_legs leg.origin_seq leg.dest_seq) best) seats leg

-- `occupancy[seat_index].append(Leg(board_seq, dest_seq))`
unfoldable pub occupy : ℕ → Leg → List (List Leg) → List (List Leg)
occupy idx leg [] = []
occupy zero leg (seat_legs ∷ seats) = (seat_legs ++ leg ∷ []) ∷ seats
occupy (suc idx) leg (seat_legs ∷ seats) = seat_legs ∷ occupy idx leg seats

abbrev pub occupy_offer : Option SeatOffer → Leg → List (List Leg) → List (List Leg)
occupy_offer none leg seats = seats
occupy_offer (some o) leg seats =
    occupy o.seat_index (record { origin_seq = o.board_seq; dest_seq = leg.dest_seq }) seats

unfoldable pub predict_standing_seats : List (List Leg) → List Leg → List (Option SeatOffer)
predict_standing_seats seats [] = []
predict_standing_seats seats (leg ∷ queue) =
    let best = offer_from 0 none seats leg in
    best ∷ predict_standing_seats (occupy_offer best leg seats) queue
