-- ===== src/Domain/Packing/Colouring/Fewest.antt =====
-- `pack` opens a new seat only where every seat so far is in use.
use train_seat_booking_syste.Prelude.{
  ℕ, suc, ◌+◌, ◌≤◌, ◌<◌, ◌≡◌, refl, ◌⊎◌, inl, inr, Bool, true, List, [], ◌∷◌, All, length, arith,
  ltb, leb, Bool-cases,
}
use train_seat_booking_syste.Prelude.Sorting.{
  place, IsSorted, count_if, All-place, count_if-place, place-IsSorted,
}
use train_seat_booking_syste.Domain.Stations.{Leg, contains}
use train_seat_booking_syste.Domain.Packing.Colouring.{
  Entry, leb_key, Freed, leb_freed, Taken, take_seat, give_back,
}
use train_seat_booking_syste.Domain.Packing.Colouring.Apart.{RunsForward, IsBelow}
use train_seat_booking_syste.Domain.Packing.Colouring.Trace.{Seated, trace}

-- still in use at `x`
abbrev pub late : ℕ → Freed → Bool
late x f = ltb x f.at

abbrev pub over : ℕ → Entry → Bool
over x e = contains e.leg x

late-All :
    (x : ℕ) (f : Freed) (free : List Freed)
    → ltb x f.at ≡ true
    → All (λ g. leb_freed f g ≡ true) free
    → count_if (late x) free ≡ length free
late-All x f [] t h = refl
late-All x f (g ∷ free) t (k, h) = ground (arith, late-All x f free t h)

place-IsSorted_freed :
    (f : Freed) (free : List Freed)
    → IsSorted leb_freed free
    → IsSorted leb_freed (place leb_freed f free)
place-IsSorted_freed f free s =
    place-IsSorted leb_freed (λ a b h. ground arith) (λ a b c h k. ground arith) f free s

length-place : (f : Freed) (free : List Freed) → length (place leb_freed f free) ≡ suc (length free)
length-place f [] = refl
length-place f (g ∷ free) = ground (arith, length-place f free)

-- What taking a seat leaves.
record IsTaken (leg : Leg) (free : List Freed) (n : ℕ) (t : Taken) : Type 0 where
  sorted : IsSorted leb_freed t.free
  counted : suc (length t.free) ≡ t.seat_count
  fewer : (x : ℕ) → count_if (late x) t.free ≤ count_if (late x) free
  seat_below : t.seat < t.seat_count
  grows : n ≤ t.seat_count
  opened : (t.seat_count ≡ n) ⊎ ((t.seat_count ≡ suc n) × (count_if (late leg.origin_seq) free ≡ n))
  below : All (IsBelow t.seat_count) t.free

raise-IsBelow : (n m : ℕ) (free : List Freed) → n ≤ m → All (IsBelow n) free → All (IsBelow m) free
raise-IsBelow n m [] le h = tt
raise-IsBelow n m (f ∷ free) le (k, h) = (omega arith, raise-IsBelow n m free le h)

take-IsTaken :
    (leg : Leg) (free : List Freed) (n : ℕ)
    → IsSorted leb_freed free
    → length free ≡ n
    → All (IsBelow n) free
    → IsTaken leg free n (take_seat leg free n)
unfolding take_seat
take-IsTaken leg [] n s e h = record {
  sorted = tt;
  counted = ground arith;
  fewer = λ x. omega arith;
  seat_below = omega arith;
  grows = omega arith;
  opened = inr (refl, e);
  below = tt;
}
take-IsTaken leg (f ∷ free) n (fs, s) e (k, h) = elim (Bool-cases (leb f.at leg.origin_seq)) [
  | inl t ↦ rw t (record {
    sorted = s;
    counted = e;
    fewer = λ x. omega arith;
    seat_below = k;
    grows = omega arith;
    opened = inl refl;
    below = h;
  })
  | inr t ↦ rw t (record {
    sorted = (fs, s);
    counted = ground arith;
    fewer = λ x. omega arith;
    seat_below = omega arith;
    grows = omega arith;
    opened = inr (refl, ground (arith, late-All leg.origin_seq f free));
    below = raise-IsBelow n (suc n) (f ∷ free) (omega arith) (k, h);
  })
]

abbrev pub StartsFrom : ℕ → Entry → Type 0
StartsFrom b e = b ≤ e.leg.origin_seq

starts_after :
    (e : Entry) (order : List Entry)
    → All (λ a. leb_key e a ≡ true) order
    → All (StartsFrom e.leg.origin_seq) order
starts_after e [] h = tt
starts_after e (a ∷ order) (k, h) = (ground arith, starts_after e order h)

abbrev pub IsSeatBelow : ℕ → Seated → Type 0
IsSeatBelow m y = y.seat < m

module _ (depth : ℕ → ℕ) (m : ℕ) (bound : (x : ℕ) → depth x ≤ m) where
  -- From position `b` on, the seats in use and the legs to come are no more than the depth.
  pub record IsTight (b : ℕ) (order : List Entry) (free : List Freed) (n : ℕ) : Type 0 where
    pub sorted : IsSorted leb_freed free
    pub counted : length free ≡ n
    pub below : All (IsBelow n) free
    pub within : (x : ℕ) → b ≤ x → count_if (late x) free + count_if (over x) order ≤ depth x
    pub enough : n ≤ m

  within-step :
      (e : Entry) (order : List Entry) (free : List Freed) (t : Taken) (x : ℕ)
      → e.leg.origin_seq ≤ x
      → count_if (late x) t.free ≤ count_if (late x) free
      → count_if (late x) free + count_if (over x) (e ∷ order) ≤ depth x
      → count_if (late x) (give_back e.leg t) + count_if (over x) order ≤ depth x
  within-step e order free t x h fewer w = ground (
    arith,
    count_if-place (late x) leb_freed (record { at = e.leg.dest_seq; seat = t.seat }) t.free,
  )

  enough-step :
      (e : Entry) (order : List Entry) (free : List Freed) (n : ℕ) (t : Taken)
      → RunsForward e
      → IsTaken e.leg free n t
      → n ≤ m
      → count_if (late e.leg.origin_seq) free + count_if (over e.leg.origin_seq) (e ∷ order)
        ≤ depth e.leg.origin_seq
      → t.seat_count ≤ m
  enough-step e order free n t f taken le w = go taken.opened
    where
      go :
          (t.seat_count ≡ n)
            ⊎ ((t.seat_count ≡ suc n) × (count_if (late e.leg.origin_seq) free ≡ n))
          → t.seat_count ≤ m
      go (inl same) = omega arith
      go (inr (more, all)) = ground (arith, bound e.leg.origin_seq)

  IsTight-step :
      (b : ℕ) (e : Entry) (order : List Entry) (free : List Freed) (n : ℕ)
      → RunsForward e
      → b ≤ e.leg.origin_seq
      → IsTight b (e ∷ order) free n
      → IsTight e.leg.origin_seq order
          (give_back e.leg (take_seat e.leg free n))
          (take_seat e.leg free n).seat_count
  IsTight-step b e order free n f h tight =
      let t = take_seat e.leg free n in
      let back : Freed = record { at = e.leg.dest_seq; seat = t.seat } in
      let taken = take-IsTaken e.leg free n tight.sorted tight.counted tight.below in
      record {
        sorted = place-IsSorted_freed back t.free taken.sorted;
        counted = omega (arith, length-place back t.free, taken.counted);
        below = All-place (IsBelow t.seat_count) leb_freed back t.free taken.seat_below taken.below;
        within =
            λ x hx. within-step e order free t x hx (taken.fewer x) (tight.within x (omega arith));
        enough =
            enough-step e order free n t f taken tight.enough (tight.within e.leg.origin_seq h);
      }

  pub trace-IsSeatBelow :
      (b : ℕ) (order : List Entry) (free : List Freed) (n : ℕ)
      → IsSorted leb_key order
      → All (StartsFrom b) order
      → All RunsForward order
      → IsTight b order free n
      → All (IsSeatBelow m) (trace order free n)
  unfolding trace
  trace-IsSeatBelow b [] free n s st f tight = tt
  trace-IsSeatBelow b (e ∷ order) free n (after, s) (h, st) (f, fs) tight =
      let t = take_seat e.leg free n in
      let tight' = IsTight-step b e order free n f h tight in
      let taken = take-IsTaken e.leg free n tight.sorted tight.counted tight.below in
      (
        omega (arith, taken.seat_below, tight'.enough),
        trace-IsSeatBelow e.leg.origin_seq order (give_back e.leg t) t.seat_count s
            (starts_after e order after) fs tight',
      )
