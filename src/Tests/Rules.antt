-- ===== src/Tests/Rules.antt =====
-- The rules of the domain on small inputs, and each of their theorems at an input.
use train_seat_booking_syste.Prelude.{
  ℕ, ◌≡◌, ◌≤◌, ◌↔◌, refl, true, false, none, some, List, [], ◌∷◌, arith, get_elem?,
}
use train_seat_booking_syste.Domain.BookingSm.{Reach, leads_to, Reach-iff}
use train_seat_booking_syste.Domain.Packing.Choose.{choose_seat-eq-none_iff, choose_seat-best}
use train_seat_booking_syste.Domain.Packing.Standing.{
  IsAllocation, predict_standing_seats-IsAllocation,
}
use train_seat_booking_syste.Domain.Packing.{
  occupied_span, is_taken, choose_from, choose_seat, offer_from, frees_for_remainder, last_dest,
  occupy, predict_standing_seats,
}
use train_seat_booking_syste.Domain.Stations.{Leg}
use train_seat_booking_syste.Domain.Values.{held, cancelled}
use train_seat_booking_syste.Tests.Sample.{leg}

Reach-iff_example : Reach held cancelled ↔ (leads_to held cancelled ≡ true)
Reach-iff_example = Reach-iff held cancelled

abbrev coach : List (List Leg)
coach = (leg 0 2 ∷ []) ∷ [] ∷ (leg 0 1 ∷ leg 3 4 ∷ []) ∷ (leg 2 4 ∷ []) ∷ []

choose_seat-eq-none_iff_example :
    (choose_seat coach (leg 0 4) ≡ none)
    ↔ ((i : ℕ) (s : List Leg) → get_elem? coach i ≡ some s → is_taken (leg 0 4) s ≡ true)
choose_seat-eq-none_iff_example = choose_seat-eq-none_iff coach (leg 0 4)

-- Seats 1 and 2 are free over [1, 2), and seat 2 is the fuller; so is seat 3, which comes later.
choose_seat-best_example :
    (s : List Leg) × (get_elem? coach 2 ≡ some s)
    × (is_taken (leg 1 2) s ≡ false)
    × ((i : ℕ) (t : List Leg)
        → get_elem? coach i ≡ some t
        → is_taken (leg 1 2) t ≡ false
        → (occupied_span t ≤ occupied_span s) × (occupied_span t ≡ occupied_span s → 2 ≤ i))
unfolding choose_seat choose_from occupied_span
choose_seat-best_example = choose_seat-best coach (leg 1 2) 2 refl

-- Seat 0 is free from station 2 on and seat 1 from station 3 on; the second passenger gets seat 1,
-- since seat 0 is taken by then.
predict_standing_seats-IsAllocation_example :
    IsAllocation ((leg 0 2 ∷ []) ∷ (leg 0 3 ∷ []) ∷ []) (leg 0 4 ∷ leg 1 4 ∷ []) (
      some (record { board_seq = 2; seat_index = 0 })
      ∷ some (record { board_seq = 3; seat_index = 1 })
      ∷ [])
unfolding predict_standing_seats offer_from frees_for_remainder last_dest occupy
predict_standing_seats-IsAllocation_example =
    predict_standing_seats-IsAllocation ((leg 0 2 ∷ []) ∷ (leg 0 3 ∷ []) ∷ [])
      (leg 0 4 ∷ leg 1 4 ∷ []) (ground arith, (ground arith, tt))
