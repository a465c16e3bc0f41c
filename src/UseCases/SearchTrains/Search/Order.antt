-- ===== src/UseCases/SearchTrains/Search/Order.antt =====
-- The departures of a day are listed in the order of the key that `find_by_date` of
-- backend/slr/adapters/memory_repo.py sorts by.
use Prim.Native.Char.{code}
use train_seat_booking_syste.Prelude.{
  ℕ, ◌≡◌, ◌<◌, ◌⊎◌, Bool-cases, refl, true, false, ◌&&◌, ◌||◌, Bool, String, inl, inr, List, [],
  ◌∷◌, ltb, ◌==◌, All, subst, arith,
}
use train_seat_booking_syste.Prelude.Dict.{Dict}
use train_seat_booking_syste.Prelude.Sorting.{IsSorted, sort, sort-IsSorted, All-sort}
use train_seat_booking_syste.Domain.Errors.{ok, Result-cases}
use train_seat_booking_syste.Domain.Timetable.{departure_min}
use train_seat_booking_syste.Ports.{Trip}
use train_seat_booking_syste.UseCases.SearchTrains.Search.{
  leb_text, Departure, leb_departure, departures_of, trips_on, trips_of, find_by_date,
}

-- the order of pairs, from a test on the second parts
abbrev lex : ℕ → ℕ → Bool → Bool
lex a b p = ltb a b || a == b && p

lex_total : (a b : ℕ) (p q : Bool) → (p ≡ false → q ≡ true) → lex a b p ≡ false → lex b a q ≡ true
lex_total a b p q h e = ground arith

lex_trans :
    (a b c : ℕ) (p q r : Bool)
    → (p ≡ true → q ≡ true → r ≡ true)
    → lex a b p ≡ true
    → lex b c q ≡ true
    → lex a c r ≡ true
lex_trans a b c p q r h e f = ground arith

leb_text_total : (s t : String) → leb_text s t ≡ false → leb_text t s ≡ true
leb_text_total String.[] t e = absurd (ground arith)
leb_text_total (String.◌∷◌ c s) String.[] e = refl
leb_text_total (String.◌∷◌ c s) (String.◌∷◌ d t) e =
    lex_total (code c) (code d) (leb_text s t) (leb_text t s) (leb_text_total s t) e

leb_text_trans : (s t u : String) → leb_text s t ≡ true → leb_text t u ≡ true → leb_text s u ≡ true
leb_text_trans String.[] t u e f = refl
leb_text_trans (String.◌∷◌ c s) String.[] u e f = absurd (ground arith)
leb_text_trans (String.◌∷◌ c s) (String.◌∷◌ d t) String.[] e f = absurd (ground arith)
leb_text_trans (String.◌∷◌ c s) (String.◌∷◌ d t) (String.◌∷◌ k u) e f =
    lex_trans (code c) (code d) (code k) (leb_text s t) (leb_text t u) (leb_text s u)
      (leb_text_trans s t u) e f

module _ {F : Type 0} where
  abbrev pub LeavesAt : Departure F → Type 0
  LeavesAt d = departure_min d.trip.stops ≡ ok d.minute

  -- One departure may stand before another.
  abbrev pub IsBefore : Departure F → Departure F → Type 0
  IsBefore a b =
      (a.minute < b.minute)
      ⊎ ((a.minute ≡ b.minute) × (leb_text a.trip.trip_id b.trip.trip_id ≡ true))

  abbrev pub IsInOrder : List (Departure F) → Type 0
  IsInOrder [] = Unit
  IsInOrder (d ∷ ds) = All (IsBefore d) ds × IsInOrder ds

  leb_departure-IsBefore : (a b : Departure F) → leb_departure a b ≡ true → IsBefore a b
  leb_departure-IsBefore a b e = elim (Bool-cases (ltb a.minute b.minute)) [
    | inl h ↦ inl (ground arith)
    | inr h ↦ inr (ground arith, ground arith)
  ]

  All-IsBefore :
      (a : Departure F) (ds : List (Departure F))
      → All (λ d. leb_departure a d ≡ true) ds
      → All (IsBefore a) ds
  All-IsBefore a [] h = tt
  All-IsBefore a (d ∷ ds) (e, h) = (leb_departure-IsBefore a d e, All-IsBefore a ds h)

  IsSorted-IsInOrder : (ds : List (Departure F)) → IsSorted leb_departure ds → IsInOrder ds
  IsSorted-IsInOrder [] h = tt
  IsSorted-IsInOrder (d ∷ ds) (h, s) = (All-IsBefore d ds h, IsSorted-IsInOrder ds s)

  departures_of-LeavesAt :
      (trips : List (Trip F)) (ds : List (Departure F))
      → departures_of trips ≡ ok ds
      → All LeavesAt ds
  unfolding departures_of
  departures_of-LeavesAt [] ds e = let s : [] ≡ ds = ground arith in subst (All LeavesAt) s tt
  departures_of-LeavesAt (t ∷ trips) ds e = elim (Result-cases (departure_min t.stops)) [
    | inr (x, h) ↦ absurd (ground arith)
    | inl (minute, h) ↦ elim (Result-cases (departures_of trips)) [
      | inr (x, k) ↦ absurd (ground arith)
      | inl (rest, k) ↦
          let s : record { minute = minute; trip = t } ∷ rest ≡ ds = ground arith in
          subst (All LeavesAt) s (h, departures_of-LeavesAt trips rest k)
    ]
  ]

  sort-IsSorted_departures :
      (ds : List (Departure F)) → IsSorted leb_departure (sort leb_departure ds)
  sort-IsSorted_departures ds =
      sort-IsSorted leb_departure
        (λ a b.
          lex_total a.minute b.minute (leb_text a.trip.trip_id b.trip.trip_id)
            (leb_text b.trip.trip_id a.trip.trip_id) (leb_text_total a.trip.trip_id b.trip.trip_id))
        (λ a b c.
          lex_trans a.minute b.minute c.minute (leb_text a.trip.trip_id b.trip.trip_id)
            (leb_text b.trip.trip_id c.trip.trip_id) (leb_text a.trip.trip_id c.trip.trip_id)
            (leb_text_trans a.trip.trip_id b.trip.trip_id c.trip.trip_id))
        ds

-- The trips that find_by_date returns stand in the order of the minute in which each leaves its
-- origin, and trips that leave in the same minute in the order of their identifiers.
pub find_by_date-IsInOrder :
    {F : Type 0} (trips : Dict (Trip F)) (date : String) (found : List (Trip F))
    → find_by_date trips date ≡ ok found
    → (ds : List (Departure F)) × (trips_of ds ≡ found) × All LeavesAt ds × IsInOrder ds
unfolding find_by_date
find_by_date-IsInOrder trips date found e =
    elim (Result-cases (departures_of (trips_on trips date))) [
      | inr (x, h) ↦ absurd (ground arith)
      | inl (ds, h) ↦ (
        sort leb_departure ds,
        ground arith,
        All-sort LeavesAt leb_departure ds (departures_of-LeavesAt (trips_on trips date) ds h),
        IsSorted-IsInOrder (sort leb_departure ds) (sort-IsSorted_departures ds),
      )
    ]
