-- ===== src/Domain/Packing/Colouring/Seats.antt =====
-- Every leg has an entry in the order, and so a seat in the result.
use train_seat_booking_syste.Prelude.{
  ℕ, zero, suc, ◌+◌, ◌<◌, ◌≡◌, refl, sym, subst, inl, inr, some, List, [], ◌∷◌, All, Occurs, length,
  get_elem?, arith, Bool-cases,
}
use train_seat_booking_syste.Prelude.Sorting.{place, sort, sort-Occurs, All-place, All-sort}
use train_seat_booking_syste.Domain.Stations.{Leg}
use train_seat_booking_syste.Domain.Packing.Colouring.{zeros, Entry, enumerate, leb_key, pack}
use train_seat_booking_syste.Domain.Packing.Colouring.Trace.{
  Seated, trace, IsOther, HasOwnIndices, pack_from-seated,
}

abbrev pub entry : ℕ → Leg → Entry
entry i l = record { index = i; leg = l }

abbrev pub order_of : List Leg → List Entry
order_of legs = sort leb_key (enumerate 0 legs)

enumerate-Occurs :
    (i k : ℕ) (legs : List Leg) (l : Leg)
    → get_elem? legs k ≡ some l
    → Occurs (entry (i + k) l) (enumerate i legs)
enumerate-Occurs i k [] l e = ground arith
enumerate-Occurs i zero (a ∷ legs) l e = inl (ground arith)
enumerate-Occurs i (suc k) (a ∷ legs) l e =
    let shift : suc i + k ≡ i + suc k = omega arith in
    inr (
      subst (λ n. Occurs (entry n l) (enumerate (suc i) legs)) shift
        (enumerate-Occurs (suc i) k legs l e))

enumerate-IsOther : (i j : ℕ) (legs : List Leg) → i < j → All (IsOther i) (enumerate j legs)
enumerate-IsOther i j [] h = tt
enumerate-IsOther i j (l ∷ legs) h =
    (λ e. omega arith, enumerate-IsOther i (suc j) legs (omega arith))

enumerate-HasOwnIndices : (i : ℕ) (legs : List Leg) → HasOwnIndices (enumerate i legs)
enumerate-HasOwnIndices i [] = tt
enumerate-HasOwnIndices i (l ∷ legs) =
    (enumerate-IsOther i (suc i) legs (omega arith), enumerate-HasOwnIndices (suc i) legs)

place-HasOwnIndices :
    (e : Entry) (es : List Entry)
    → All (IsOther e.index) es
    → HasOwnIndices es
    → HasOwnIndices (place leb_key e es)
place-HasOwnIndices e [] h own = (tt, tt)
place-HasOwnIndices e (a ∷ es) (k, h) (others, own) = elim (Bool-cases (leb_key e a)) [
  | inl t ↦ rw t ((k, h), (others, own))
  | inr t ↦ rw t (
    All-place (IsOther a.index) leb_key e es (λ s. k (sym s)) others,
    place-HasOwnIndices e es h own,
  )
]

sort-HasOwnIndices : (es : List Entry) → HasOwnIndices es → HasOwnIndices (sort leb_key es)
sort-HasOwnIndices [] own = tt
sort-HasOwnIndices (e ∷ es) (h, own) =
    place-HasOwnIndices e (sort leb_key es) (All-sort (IsOther e.index) leb_key es h)
      (sort-HasOwnIndices es own)

length-zeros : (n : ℕ) → length (zeros n) ≡ n
length-zeros zero = refl
length-zeros (suc n) = omega (arith, length-zeros n)

lt_of_get_elem : (legs : List Leg) (i : ℕ) (l : Leg) → get_elem? legs i ≡ some l → i < length legs
lt_of_get_elem [] i l e = ground arith
lt_of_get_elem (a ∷ legs) zero l e = omega arith
lt_of_get_elem (a ∷ legs) (suc i) l e = omega (arith, lt_of_get_elem legs i l e)

-- The leg at index `i` has its own place in the trace, and the result has its seat at `i`.
pub pack-seated :
    (legs : List Leg) (i : ℕ) (l : Leg)
    → get_elem? legs i ≡ some l
    → (s : Seated) × Occurs s (trace (order_of legs) [] 0)
      × (s.entry ≡ entry i l)
      × (get_elem? (pack legs) i ≡ some s.seat)
unfolding pack
pack-seated legs i l e =
    let zeroth : 0 + i ≡ i = omega arith in
    let listed : Occurs (entry i l) (enumerate 0 legs) =
      subst (λ n. Occurs (entry n l) (enumerate 0 legs)) zeroth (enumerate-Occurs 0 i legs l e) in
    pack_from-seated (entry i l) (order_of legs) [] 0 (zeros (length legs))
      (sort-HasOwnIndices (enumerate 0 legs) (enumerate-HasOwnIndices 0 legs))
      (sort-Occurs leb_key (entry i l) (enumerate 0 legs) listed)
      (omega (arith, length-zeros (length legs), lt_of_get_elem legs i l e))
