-- ===== src/Domain/Packing/Standing.antt =====
-- The offers to standing passengers: sound, earliest, and made in the order of the queue.
use train_seat_booking_syste.Prelude.{
  ℕ, zero, suc, ◌+◌, ◌≤◌, ◌<◌, ◌≡◌, refl, subst, ◌⊎◌, inl, inr, false, Option, none, some, List, [],
  ◌∷◌, arith, All, get_elem?,
}
use train_seat_booking_syste.Domain.Stations.{Leg}
use train_seat_booking_syste.Domain.Packing.{
  is_taken, SeatOffer, frees_for_remainder, better_offer, offer_from, occupy_offer,
  predict_standing_seats,
}
use train_seat_booking_syste.Domain.Packing.Remainder.{
  remainder, IsFirstFree, frees_for_remainder-IsFirstFree,
}

-- An offer that is no later than station `board` on seat `i`, with the lower seat where it is equal.
abbrev Beats : Option SeatOffer → ℕ → ℕ → Type 0
Beats none board i = ⊥
Beats (some o) board i = (o.board_seq ≤ board) × (o.board_seq ≡ board → o.seat_index ≤ i)

abbrev IsOfSeatBefore : Option SeatOffer → ℕ → Type 0
IsOfSeatBefore none idx = Unit
IsOfSeatBefore (some o) idx = o.seat_index < idx

module _ (leg : Leg) where
  abbrev frees : List Leg → Option ℕ
  frees seat = frees_for_remainder seat leg.origin_seq leg.dest_seq

  better-IsOfSeatBefore :
      (idx : ℕ) (free : Option ℕ) (best : Option SeatOffer)
      → IsOfSeatBefore best idx
      → IsOfSeatBefore (better_offer idx free best) (suc idx)
  better-IsOfSeatBefore idx free best h = ground arith

  better-Beats :
      (idx : ℕ) (free : Option ℕ) (best : Option SeatOffer) (board i : ℕ)
      → i < idx
      → Beats best board i
      → Beats (better_offer idx free best) board i
  better-Beats idx free best board i lt h = ground arith

  better-Beats_self :
      (idx board : ℕ) (best : Option SeatOffer)
      → IsOfSeatBefore best idx
      → Beats (better_offer idx (some board) best) board idx
  better-Beats_self idx board best h = ground arith

  offer_from-keeps :
      (idx : ℕ) (best : Option SeatOffer) (seats : List (List Leg)) (board i : ℕ)
      → i < idx
      → Beats best board i
      → Beats (offer_from idx best seats leg) board i
  unfolding offer_from
  offer_from-keeps idx best [] board i lt h = h
  offer_from-keeps idx best (s ∷ seats) board i lt h =
      offer_from-keeps (suc idx) (better_offer idx (frees s) best) seats board i (omega arith)
        (better-Beats idx (frees s) best board i lt h)

  offer_from-Beats :
      (idx : ℕ) (best : Option SeatOffer) (seats : List (List Leg)) (i board : ℕ) (s : List Leg)
      → IsOfSeatBefore best idx
      → get_elem? seats i ≡ some s
      → frees s ≡ some board
      → Beats (offer_from idx best seats leg) board (idx + i)
  unfolding offer_from
  offer_from-Beats idx best [] i board s b e f = ground arith
  offer_from-Beats idx best (t ∷ seats) zero board s b e f =
      offer_from-keeps (suc idx) (better_offer idx (frees t) best) seats board (idx + 0)
        (omega arith) (ground (arith, better-Beats_self idx board best))
  offer_from-Beats idx best (t ∷ seats) (suc i) board s b e f =
      subst (Beats (offer_from (suc idx) (better_offer idx (frees t) best) seats leg) board)
        (omega arith)
        (offer_from-Beats (suc idx) (better_offer idx (frees t) best) seats i board s
          (better-IsOfSeatBefore idx (frees t) best b) e f)

  better_sound :
      (idx : ℕ) (free : Option ℕ) (best : Option SeatOffer) (o : SeatOffer)
      → better_offer idx free best ≡ some o
      → (best ≡ some o) ⊎ ((o.seat_index ≡ idx) × (free ≡ some o.board_seq))
  better_sound idx free best o e = ground arith

  offer_from_sound :
      (idx : ℕ) (best : Option SeatOffer) (seats : List (List Leg)) (o : SeatOffer)
      → offer_from idx best seats leg ≡ some o
      → (best ≡ some o)
        ⊎ ((i : ℕ) × (s : List Leg) × (o.seat_index ≡ idx + i)
            × (get_elem? seats i ≡ some s)
            × (frees s ≡ some o.board_seq))
  unfolding offer_from
  offer_from_sound idx best [] o e = inl e
  offer_from_sound idx best (s ∷ seats) o e =
      elim (offer_from_sound (suc idx) (better_offer idx (frees s) best) seats o e) [
        | inl h ↦ elim (better_sound idx (frees s) best o h) [
          | inl k ↦ inl k
          | inr (k, f) ↦ inr (0, s, omega arith, refl, f)
        ]
        | inr (i, t, ei, et, ft) ↦ inr (suc i, t, omega arith, et, ft)
      ]

-- The seat is free to the end of the leg from a station of the leg.
abbrev IsFreeFrom : Leg → List Leg → ℕ → Type 0
IsFreeFrom leg seat x =
    (leg.origin_seq ≤ x) × (x < leg.dest_seq) × (is_taken (remainder x leg.dest_seq) seat ≡ false)

-- The best offer over the seats as they stand: no offer where no seat becomes free before the leg's
-- end, else a seat of the list from the earliest station at all, the lower seat among equals.
abbrev IsBestOffer : List (List Leg) → Leg → Option SeatOffer → Type 0
IsBestOffer seats leg none =
    (i : ℕ) (t : List Leg) (x : ℕ) → get_elem? seats i ≡ some t → IsFreeFrom leg t x → ⊥
IsBestOffer seats leg (some o) =
    (s : List Leg) × (get_elem? seats o.seat_index ≡ some s)
    × IsFreeFrom leg s o.board_seq
    × ((i : ℕ) (t : List Leg) (x : ℕ)
        → get_elem? seats i ≡ some t
        → IsFreeFrom leg t x
        → (o.board_seq ≤ x) × (o.board_seq ≡ x → o.seat_index ≤ i))

-- The offers in the order of the queue, each the best once the earlier ones are taken up.
abbrev pub IsAllocation : List (List Leg) → List Leg → List (Option SeatOffer) → Type 0
IsAllocation seats [] [] = Unit
IsAllocation seats [] (o ∷ offers) = ⊥
IsAllocation seats (leg ∷ queue) [] = ⊥
IsAllocation seats (leg ∷ queue) (o ∷ offers) =
    IsBestOffer seats leg o × IsAllocation (occupy_offer o leg seats) queue offers

abbrev IsProper : Leg → Type 0
IsProper leg = leg.origin_seq < leg.dest_seq

module _ (seats : List (List Leg)) (leg : Leg) (lt : IsProper leg) where
  earlier :
      (t : List Leg) (x : ℕ)
      → IsFreeFrom leg t x
      → (board : ℕ) × (frees leg t ≡ some board) × (board ≤ x)
  earlier t x (h, k, f) = go (frees leg t) refl (frees_for_remainder-IsFirstFree leg t lt)
    where
      go :
          (free : Option ℕ)
          → frees leg t ≡ free
          → IsFirstFree leg t free
          → (board : ℕ) × (frees leg t ≡ some board) × (board ≤ x)
      go none e first = ground (arith, first x h k)
      go (some board) e (_, _, _, first) = (board, e, first x h k f)

  beaten :
      (best : Option SeatOffer) (i board : ℕ) (t : List Leg)
      → offer_from 0 none seats leg ≡ best
      → get_elem? seats i ≡ some t
      → frees leg t ≡ some board
      → Beats best board i
  beaten best i board t e g f =
      let zeroth : 0 + i ≡ i = omega arith in
      subst (λ best. Beats best board i) e
        (subst (Beats (offer_from 0 none seats leg) board) zeroth
          (offer_from-Beats leg 0 none seats i board t tt g f))

  offer_from-IsBestOffer :
      (best : Option SeatOffer) → offer_from 0 none seats leg ≡ best → IsBestOffer seats leg best
  offer_from-IsBestOffer none e =
      λ i t x g free. let (board, ef, le) = earlier t x free in beaten none i board t e g ef
  offer_from-IsBestOffer (some o) e = elim (offer_from_sound leg 0 none seats o e) [
    | inl n ↦ ground arith
    | inr (j, s, ej, es, fs) ↦
        let (h, k, f, _) =
          subst (IsFirstFree leg s) fs (frees_for_remainder-IsFirstFree leg s lt) in
        let eq : o.seat_index ≡ j = omega arith in
        (
          s,
          rw eq es,
          (h, k, f),
          λ i t x g free.
              let (board, ef, le) = earlier t x free in
              ground (arith, beaten (some o) i board t e g ef),
        )
  ]

-- For a queue of legs that run forward, `predict_standing_seats` answers every passenger in turn:
-- with the earliest station of the leg from which some seat is free to the leg's end, on the lowest
-- such seat, where the offers made before count as taken; with no offer where there is none.
pub predict_standing_seats-IsAllocation :
    (seats : List (List Leg)) (queue : List Leg)
    → All IsProper queue
    → IsAllocation seats queue (predict_standing_seats seats queue)
unfolding predict_standing_seats
predict_standing_seats-IsAllocation seats [] h = tt
predict_standing_seats-IsAllocation seats (leg ∷ queue) (lt, h) = (
  offer_from-IsBestOffer seats leg lt (offer_from 0 none seats leg) refl,
  predict_standing_seats-IsAllocation (occupy_offer (offer_from 0 none seats leg) leg seats) queue
      h,
)
