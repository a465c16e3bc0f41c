-- ===== src/Domain/Packing/Remainder.antt =====
-- The station from which a seat is free to the end of a leg.
use train_seat_booking_syste.Prelude.{
  ℕ, ◌≤◌, ◌<◌, ◌≡◌, refl, Bool, true, false, Option, none, some, List, [], ◌∷◌, arith, any, select,
  ltb, if◌then◌else◌,
}
use train_seat_booking_syste.Domain.Stations.{Leg}
use train_seat_booking_syste.Domain.Packing.{
  is_taken, blocks_remainder, last_dest, board_after, frees_for_remainder,
}

-- the leg from `board` to `dest`
abbrev pub remainder : ℕ → ℕ → Leg
remainder board dest = record { origin_seq = board; dest_seq = dest }

abbrev ends_after : ℕ → Leg → Bool
ends_after x b = ltb x b.dest_seq

-- Only legs in the way of the whole leg are in the way of what remains of it.
is_taken-select :
    (o d x : ℕ) (seat : List Leg)
    → o ≤ x
    → is_taken (remainder x d) seat ≡ any (ends_after x) (select (blocks_remainder o d) seat)
is_taken-select o d x [] h = refl
is_taken-select o d x (b ∷ bs) h = ground (arith, is_taken-select o d x bs h)

any-last_dest :
    (x m : ℕ) (bs : List Leg)
    → (if ltb x m then true else any (ends_after x) bs) ≡ ltb x (last_dest m bs)
unfolding last_dest
any-last_dest x m [] = ground arith
any-last_dest x m (b ∷ bs) =
    ground (arith, any-last_dest x (if ltb m b.dest_seq then b.dest_seq else m) bs)

select-head :
    (p : Leg → Bool) (seat : List Leg) (b : Leg) (bs : List Leg)
    → select p seat ≡ b ∷ bs
    → p b ≡ true
select-head p [] b bs e = ground arith
select-head p (a ∷ seat) b bs e = ground (arith, select-head p seat b bs)

-- A station is the first of the leg from which the seat is free to the end of the leg.
abbrev pub IsFirstFree : Leg → List Leg → Option ℕ → Type 0
IsFirstFree leg seat none =
    (x : ℕ)
    → leg.origin_seq ≤ x
    → x < leg.dest_seq
    → is_taken (remainder x leg.dest_seq) seat ≡ true
IsFirstFree leg seat (some board) =
    (leg.origin_seq ≤ board)
    × (board < leg.dest_seq)
    × (is_taken (remainder board leg.dest_seq) seat ≡ false)
    × ((x : ℕ)
        → leg.origin_seq ≤ x
        → x < leg.dest_seq
        → is_taken (remainder x leg.dest_seq) seat ≡ false
        → board ≤ x)

blocked :
    (leg : Leg) (seat : List Leg) (b : Leg) (bs : List Leg)
    → select (blocks_remainder leg.origin_seq leg.dest_seq) seat ≡ b ∷ bs
    → (x : ℕ) → leg.origin_seq ≤ x
    → is_taken (remainder x leg.dest_seq) seat ≡ ltb x (last_dest b.dest_seq bs)
blocked leg seat b bs e x h =
    ground
      (arith, is_taken-select leg.origin_seq leg.dest_seq x seat h, any-last_dest x b.dest_seq bs)

origin-le-last_dest :
    (leg : Leg) (seat : List Leg) (b : Leg) (bs : List Leg)
    → select (blocks_remainder leg.origin_seq leg.dest_seq) seat ≡ b ∷ bs
    → leg.origin_seq ≤ last_dest b.dest_seq bs
origin-le-last_dest leg seat b bs e =
    let blocks = select-head (blocks_remainder leg.origin_seq leg.dest_seq) seat b bs e in
    ground (arith, any-last_dest leg.origin_seq b.dest_seq bs)

-- A seat that is free exactly from the station `m` on.
at_last-IsFirstFree :
    (leg : Leg) (seat : List Leg) (m : ℕ) (t : Bool)
    → ltb m leg.dest_seq ≡ t
    → leg.origin_seq ≤ m
    → ((x : ℕ) → leg.origin_seq ≤ x → is_taken (remainder x leg.dest_seq) seat ≡ ltb x m)
    → IsFirstFree leg seat (if t then some m else none)
at_last-IsFirstFree leg seat m true k h taken =
    (h, ground arith, ground (arith, taken m h), λ x h' k' f. ground (arith, taken x h'))
at_last-IsFirstFree leg seat m false k h taken = λ x h' k'. ground (arith, taken x h')

board_after-IsFirstFree :
    (leg : Leg) (seat blocking : List Leg)
    → leg.origin_seq < leg.dest_seq
    → select (blocks_remainder leg.origin_seq leg.dest_seq) seat ≡ blocking
    → IsFirstFree leg seat (board_after leg.origin_seq leg.dest_seq blocking)
board_after-IsFirstFree leg seat [] lt e =
    let free : is_taken (remainder leg.origin_seq leg.dest_seq) seat ≡ false =
      ground (arith, is_taken-select leg.origin_seq leg.dest_seq leg.origin_seq seat) in
    (omega arith, lt, free, λ x h k f. h)
board_after-IsFirstFree leg seat (b ∷ bs) lt e =
    at_last-IsFirstFree leg seat (last_dest b.dest_seq bs)
      (ltb (last_dest b.dest_seq bs) leg.dest_seq) refl (origin-le-last_dest leg seat b bs e)
      (blocked leg seat b bs e)

pub frees_for_remainder-IsFirstFree :
    (leg : Leg) (seat : List Leg)
    → leg.origin_seq < leg.dest_seq
    → IsFirstFree leg seat (frees_for_remainder seat leg.origin_seq leg.dest_seq)
unfolding frees_for_remainder
frees_for_remainder-IsFirstFree leg seat lt =
    board_after-IsFirstFree leg seat (select (blocks_remainder leg.origin_seq leg.dest_seq) seat) lt
      refl
