-- ===== src/Domain/Packing/Colouring/Trace.antt =====
-- Which entry of the order gets which seat, and that the result has it at the entry's index.
use train_seat_booking_syste.Prelude.{
  ℕ, zero, suc, ◌<◌, ◌≡◌, ◌≢◌, refl, sym, ◌∙◌, inl, inr, some, List, [], ◌∷◌, All, Occurs, length,
  get_elem?, arith,
}
use train_seat_booking_syste.Domain.Packing.Colouring.{
  set, Entry, Freed, take_seat, give_back, pack_from,
}

-- An entry with the seat that it is given.
pub record Seated : Type 0 where
  pub entry : Entry
  pub seat : ℕ

unfoldable pub trace : List Entry → List Freed → ℕ → List Seated
trace [] free n = []
trace (e ∷ order) free n =
    let t = take_seat e.leg free n in
    record { entry = e; seat = t.seat } ∷ trace order (give_back e.leg t) t.seat_count

get-set : (xs : List ℕ) (i v : ℕ) → i < length xs → get_elem? (set xs i v) i ≡ some v
get-set [] i v h = elim h [ ]
get-set (x ∷ xs) zero v h = refl
get-set (x ∷ xs) (suc i) v h = get-set xs i v (omega arith)

get-set_other : (xs : List ℕ) (i j v : ℕ) → i ≢ j → get_elem? (set xs i v) j ≡ get_elem? xs j
get-set_other [] i j v h = refl
get-set_other (x ∷ xs) zero zero v h = absurd (h refl)
get-set_other (x ∷ xs) zero (suc j) v h = refl
get-set_other (x ∷ xs) (suc i) zero v h = refl
get-set_other (x ∷ xs) (suc i) (suc j) v h = get-set_other xs i j v (λ e. h (omega arith))

length-set : (xs : List ℕ) (i v : ℕ) → length (set xs i v) ≡ length xs
length-set [] i v = refl
length-set (x ∷ xs) zero v = refl
length-set (x ∷ xs) (suc i) v = omega (arith, length-set xs i v)

abbrev pub IsOther : ℕ → Entry → Type 0
IsOther i e = e.index ≢ i

abbrev pub HasOwnIndices : List Entry → Type 0
HasOwnIndices [] = Unit
HasOwnIndices (e ∷ es) = All (IsOther e.index) es × HasOwnIndices es

-- An index that is not in the rest of the order keeps its seat.
pack_from-keeps :
    (i : ℕ) (order : List Entry) (free : List Freed) (n : ℕ) (assignment : List ℕ)
    → All (IsOther i) order
    → get_elem? (pack_from order free n assignment) i ≡ get_elem? assignment i
unfolding pack_from
pack_from-keeps i [] free n assignment h = refl
pack_from-keeps i (e ∷ order) free n assignment (k, h) =
    let t = take_seat e.leg free n in
    pack_from-keeps i order (give_back e.leg t) t.seat_count (set assignment e.index t.seat) h
    ∙ get-set_other assignment e.index i t.seat k

-- Every entry of the order is given a seat, and the result has it.
pub pack_from-seated :
    (e : Entry) (order : List Entry) (free : List Freed) (n : ℕ) (assignment : List ℕ)
    → HasOwnIndices order
    → Occurs e order
    → e.index < length assignment
    → (s : Seated) × Occurs s (trace order free n)
      × (s.entry ≡ e)
      × (get_elem? (pack_from order free n assignment) e.index ≡ some s.seat)
unfolding pack_from trace
pack_from-seated e [] free n assignment own m lt = absurd m
pack_from-seated e (a ∷ order) free n assignment (others, own) (inl same) lt =
    let t = take_seat a.leg free n in
    (
      record { entry = a; seat = t.seat },
      inl refl,
      sym same,
      rw same (
          pack_from-keeps a.index order (give_back a.leg t) t.seat_count
            (set assignment a.index t.seat) others
          ∙ get-set assignment a.index t.seat (ground arith)),
    )
pack_from-seated e (a ∷ order) free n assignment (others, own) (inr m) lt =
    let t = take_seat a.leg free n in
    let (s, at, entry, found) =
      pack_from-seated e order (give_back a.leg t) t.seat_count (set assignment a.index t.seat) own
        m (omega (arith, length-set assignment a.index t.seat)) in
    (s, inr at, entry, found)
