-- ===== src/Domain/Packing/Colouring/Apart.antt =====
-- Legs with the same seat follow one another.
use train_seat_booking_syste.Prelude.{
  ℕ, suc, ◌≤◌, ◌<◌, ◌≡◌, ◌≢◌, sym, inl, inr, List, [], ◌∷◌, All, arith, leb, Bool-cases,
}
use train_seat_booking_syste.Prelude.Sorting.{place, All-place}
use train_seat_booking_syste.Domain.Stations.{Leg, IsForward}
use train_seat_booking_syste.Domain.Packing.Colouring.{
  Entry, Freed, leb_freed, take_seat, give_back,
}
use train_seat_booking_syste.Domain.Packing.Colouring.Trace.{Seated, trace}

abbrev pub RunsForward : Entry → Type 0
RunsForward e = IsForward e.leg

module _ (dest s : ℕ) where
  -- The seat is not free before `dest`.
  abbrev KeepsFrom : Freed → Type 0
  KeepsFrom f = f.seat ≡ s → dest ≤ f.at

  abbrev Past : List Freed → ℕ → Type 0
  Past free n = (s < n) × All KeepsFrom free

  abbrev pub Follows : Seated → Type 0
  Follows y = y.seat ≡ s → dest ≤ y.entry.leg.origin_seq

  take-Past :
      (leg : Leg) (free : List Freed) (n : ℕ)
      → IsForward leg
      → Past free n
      → ((take_seat leg free n).seat ≡ s → dest ≤ leg.origin_seq)
        × Past (give_back leg (take_seat leg free n)) (take_seat leg free n).seat_count
  unfolding take_seat
  take-Past leg [] n fw (lt, h) =
      (λ e. absurd (omega arith), (omega arith, (λ e. absurd (omega arith), tt)))
  take-Past leg (f ∷ free) n fw (lt, (k, h)) = elim (Bool-cases (leb f.at leg.origin_seq)) [
    | inl t ↦ rw t (
      λ e. ground (arith, k e),
      (lt, All-place KeepsFrom leb_freed _ free (λ e. ground (arith, k e)) h),
    )
    | inr t ↦ rw t (
      λ e. absurd (omega arith),
      (omega arith, All-place KeepsFrom leb_freed _ (f ∷ free) (λ e. absurd (omega arith)) (k, h)),
    )
  ]

  trace-Follows :
      (order : List Entry) (free : List Freed) (n : ℕ)
      → All RunsForward order
      → Past free n
      → All Follows (trace order free n)
  unfolding trace
  trace-Follows [] free n fs p = tt
  trace-Follows (e ∷ order) free n (f, fs) p =
      let t = take_seat e.leg free n in
      let (now, p') = take-Past e.leg free n f p in
      (now, trace-Follows order (give_back e.leg t) t.seat_count fs p')

abbrev pub IsBelow : ℕ → Freed → Type 0
IsBelow n f = f.seat < n

abbrev pub IsOtherSeat : ℕ → Freed → Type 0
IsOtherSeat s f = f.seat ≢ s

abbrev pub HasOwnSeats : List Freed → Type 0
HasOwnSeats [] = Unit
HasOwnSeats (f ∷ free) = All (IsOtherSeat f.seat) free × HasOwnSeats free

pub place-HasOwnSeats :
    (f : Freed) (free : List Freed)
    → All (IsOtherSeat f.seat) free
    → HasOwnSeats free
    → HasOwnSeats (place leb_freed f free)
place-HasOwnSeats f [] h own = (tt, tt)
place-HasOwnSeats f (g ∷ free) (k, h) (others, own) = elim (Bool-cases (leb_freed f g)) [
  | inl t ↦ rw t ((k, h), (others, own))
  | inr t ↦ rw t (
    All-place (IsOtherSeat g.seat) leb_freed f free (λ e. k (sym e)) others,
    place-HasOwnSeats f free h own,
  )
]

All-below-other : (n : ℕ) (free : List Freed) → All (IsBelow n) free → All (IsOtherSeat n) free
All-below-other n [] h = tt
All-below-other n (f ∷ free) (k, h) = (λ e. omega arith, All-below-other n free h)

All-IsBelow-suc : (n : ℕ) (free : List Freed) → All (IsBelow n) free → All (IsBelow (suc n)) free
All-IsBelow-suc n [] h = tt
All-IsBelow-suc n (f ∷ free) (k, h) = (omega arith, All-IsBelow-suc n free h)

All-other-keeps :
    (dest s : ℕ) (free : List Freed) → All (IsOtherSeat s) free → All (KeepsFrom dest s) free
All-other-keeps dest s [] h = tt
All-other-keeps dest s (f ∷ free) (k, h) = (λ e. absurd (k e), All-other-keeps dest s free h)

-- The seats of the heap are those given so far, each once, and the seat that is taken is not in what
-- remains.
abbrev pub IsHeap : List Freed → ℕ → Type 0
IsHeap free n = All (IsBelow n) free × HasOwnSeats free

pub take-IsHeap :
    (leg : Leg) (free : List Freed) (n : ℕ)
    → IsHeap free n
    → ((take_seat leg free n).seat < (take_seat leg free n).seat_count)
      × All (IsOtherSeat (take_seat leg free n).seat) (take_seat leg free n).free
      × IsHeap (take_seat leg free n).free (take_seat leg free n).seat_count
unfolding take_seat
take-IsHeap leg [] n h = (omega arith, tt, (tt, tt))
take-IsHeap leg (f ∷ free) n ((k, h), (others, own)) = elim (Bool-cases (leb f.at leg.origin_seq)) [
  | inl t ↦ rw t (k, others, (h, own))
  | inr t ↦ rw t (
    omega arith,
    All-below-other n (f ∷ free) (k, h),
    (All-IsBelow-suc n (f ∷ free) (k, h), (others, own)),
  )
]

abbrev pub IsApart : List Seated → Type 0
IsApart [] = Unit
IsApart (x ∷ xs) = All (Follows x.entry.leg.dest_seq x.seat) xs × IsApart xs

pub trace-IsApart :
    (order : List Entry) (free : List Freed) (n : ℕ)
    → All RunsForward order
    → IsHeap free n
    → IsApart (trace order free n)
unfolding trace
trace-IsApart [] free n fs h = tt
trace-IsApart (e ∷ order) free n (f, fs) h =
    let t = take_seat e.leg free n in
    let back : Freed = record { at = e.leg.dest_seq; seat = t.seat } in
    let (lt, others, (below, own)) = take-IsHeap e.leg free n h in
    let kept =
      All-place (KeepsFrom e.leg.dest_seq t.seat) leb_freed back t.free (λ s. omega arith)
        (All-other-keeps e.leg.dest_seq t.seat t.free others) in
    (
      trace-Follows e.leg.dest_seq t.seat order (give_back e.leg t) t.seat_count fs (lt, kept),
      trace-IsApart order (give_back e.leg t) t.seat_count fs (
        All-place (IsBelow t.seat_count) leb_freed back t.free lt below,
        place-HasOwnSeats back t.free others own,
      ),
    )
