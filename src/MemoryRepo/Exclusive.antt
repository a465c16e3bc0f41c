-- ===== src/MemoryRepo/Exclusive.antt =====
-- The overlap invariant of the booking repository, and what keeps it.
use train_seat_booking_syste.Prelude.{
  ◌≡◌, refl, ◌≢◌, ◌∙◌, sym, ◌⊎◌, inl, inr, Bool, true, false, ◌&&◌, String, ℤ, none, some, [], ◌∷◌,
  arith, str_eq, eq_iff, Bool-cases, Option-cases, select-Occurs, any, any-false, if◌then◌else◌,
}
use train_seat_booking_syste.Prelude.Dict.{
  Dict, lookup, insert, values, lookup-insert, lookup-Occurs, lookup-nil,
}
use train_seat_booking_syste.Domain.Errors.{ok}
use train_seat_booking_syste.Domain.Stations.{Leg, overlaps}
use train_seat_booking_syste.Domain.Values.{BookingStatus, held, confirmed, cancelled, is_active}
use train_seat_booking_syste.Ports.{Hold}
use train_seat_booking_syste.MemoryRepo.{
  get, is_active_on_seat, active_for_seat, blocks, add_hold, set_status, is_due, expire, expire_due,
  with_status,
}

-- Both bookings hold the same seat of the same trip.
abbrev pub share_seat : Hold → Hold → Bool
share_seat h g =
    str_eq h.trip_id g.trip_id
    && str_eq h.seat_id g.seat_id
    && is_active h.status
    && is_active g.status

-- Every booking is stored under its own id, and no two active bookings of one trip and seat
-- overlap.
pub record IsExclusive (holds : Dict Hold) : Type 0 where
  pub keyed : (k : String) (h : Hold) → lookup k holds ≡ some h → h.booking_id ≡ k
  pub disjoint :
      (j k : String) (h g : Hold)
      → lookup j holds ≡ some h
      → lookup k holds ≡ some g
      → j ≢ k
      → share_seat h g ≡ true
      → overlaps h.leg g.leg ≡ false

pub IsExclusive-nil : IsExclusive []
IsExclusive-nil = record {
  keyed = λ k h e. cc (lookup-nil {V = Hold} k);
  disjoint = λ j k h g e. cc (lookup-nil {V = Hold} j);
}

-- `h` occupies no more than `g`: the same booking, seat and leg, and active only if `g` is.
pub record OccupiesLess (h g : Hold) : Type 0 where
  pub same_id : h.booking_id ≡ g.booking_id
  pub same_trip : h.trip_id ≡ g.trip_id
  pub same_seat : h.seat_id ≡ g.seat_id
  pub same_leg : h.leg ≡ g.leg
  pub only_active : is_active h.status ≡ true → is_active g.status ≡ true

OccupiesLess-disjoint :
    (h g h' g' : Hold)
    → OccupiesLess h h'
    → OccupiesLess g g'
    → (share_seat h' g' ≡ true → overlaps h'.leg g'.leg ≡ false)
    → share_seat h g ≡ true
    → overlaps h.leg g.leg ≡ false
OccupiesLess-disjoint h g h' g' o p x s = ground arith

-- A store each of whose bookings occupies no more than one of an exclusive store is exclusive.
pub IsExclusive-OccupiesLess :
    (d e : Dict Hold)
    → ((k : String) (h : Hold)
        → lookup k d ≡ some h
        → (g : Hold) × (lookup k e ≡ some g) × OccupiesLess h g)
    → IsExclusive e
    → IsExclusive d
IsExclusive-OccupiesLess d e less x = record {
  keyed = λ k h l. let (g, m, o) = less k h l in o.same_id ∙ x.keyed k g m;
  disjoint = λ j k h g lj lk ne.
      let (h', mh, oh) = less j h lj in
      let (g', mg, og) = less k g lk in
      OccupiesLess-disjoint h g h' g' oh og (x.disjoint j k h' g' mh mg ne);
}

OccupiesLess-refl : (h : Hold) → OccupiesLess h h
OccupiesLess-refl h = record {
  same_id = refl;
  same_trip = refl;
  same_seat = refl;
  same_leg = refl;
  only_active = λ a. a;
}

-- After `expire_due` a key holds what it held, expired where that was due.
pub lookup-expire_due :
    (k : String) (holds : Dict Hold) (now : ℤ)
    → lookup k (expire_due holds now).1
      ≡ elim (lookup k holds) [ none ↦ none | some h ↦ some (if is_due now h then expire h else h) ]
unfolding lookup expire_due
lookup-expire_due k [] now = refl
lookup-expire_due k ((j, h) ∷ holds) now = ground (arith, lookup-expire_due k holds now)

-- A booking after `expire_due` was there before, and is as it was or was due and is expired.
expire_due-origin :
    (k : String) (holds : Dict Hold) (now : ℤ) (h : Hold)
    → lookup k (expire_due holds now).1 ≡ some h
    → (g : Hold) × (lookup k holds ≡ some g) × ((h ≡ g) ⊎ ((is_due now g ≡ true) × (h ≡ expire g)))
expire_due-origin k holds now h l = elim (Option-cases (lookup k holds)) [
  | inl e ↦ ground (arith, lookup-expire_due k holds now)
  | inr (g, e) ↦ (g, e, ground (arith, lookup-expire_due k holds now))
]

expired-OccupiesLess :
    (now : ℤ) (h g : Hold) → (h ≡ g) ⊎ ((is_due now g ≡ true) × (h ≡ expire g)) → OccupiesLess h g
expired-OccupiesLess now h g (inl e) = rw e (OccupiesLess-refl g)
expired-OccupiesLess now h g (inr (d, e)) = ground arith

-- Expiring what is due keeps the store exclusive.
pub expire_due-IsExclusive :
    (holds : Dict Hold) (now : ℤ) → IsExclusive holds → IsExclusive (expire_due holds now).1
expire_due-IsExclusive holds now x =
    IsExclusive-OccupiesLess (expire_due holds now).1 holds
      (λ k h l.
        let (g, m, o) = expire_due-origin k holds now h l in (g, m, expired-OccupiesLess now h g o))
      x

-- A change of status keeps the store exclusive, unless it makes an inactive booking active.
pub set_status-IsExclusive :
    (holds : Dict Hold) (k : String) (s : BookingStatus) (old new : Hold) (d : Dict Hold)
    → IsExclusive holds
    → lookup k holds ≡ some old
    → (is_active s ≡ true → is_active old.status ≡ true)
    → set_status holds k s ≡ ok (new, d)
    → IsExclusive d
unfolding set_status
set_status-IsExclusive holds k s old new d x l only e =
    IsExclusive-OccupiesLess d holds
      (λ j h m. elim (Bool-cases (str_eq k j)) [
        | inl same ↦ (
          old,
          ground (arith, eq_iff k j),
          ground (arith, lookup-insert k j (with_status old s) holds),
        )
        | inr other ↦
            (h, ground (arith, lookup-insert k j (with_status old s) holds), OccupiesLess-refl h)
      ])
      x

on_seat :
    (hold g : Hold)
    → share_seat hold g ≡ true
    → is_active_on_seat hold.trip_id hold.seat_id g ≡ true
on_seat hold g share = ground (
  arith,
  eq_iff hold.trip_id g.trip_id,
  eq_iff g.trip_id hold.trip_id,
  eq_iff hold.seat_id g.seat_id,
  eq_iff g.seat_id hold.seat_id,
)

free_seat :
    (holds : Dict Hold) (hold g : Hold) (k : String)
    → any (blocks hold) (active_for_seat holds hold.trip_id hold.seat_id) ≡ false
    → lookup k holds ≡ some g
    → share_seat hold g ≡ true
    → g.booking_id ≢ hold.booking_id
    → overlaps g.leg hold.leg ≡ false
unfolding active_for_seat
free_seat holds hold g k free l share ne = ground (
  arith,
  eq_iff g.booking_id hold.booking_id,
  any-false (blocks hold) g (active_for_seat holds hold.trip_id hold.seat_id) free (
      select-Occurs (is_active_on_seat hold.trip_id hold.seat_id) g (values holds)
        (on_seat hold g share) (lookup-Occurs k g holds l)),
)

overlaps_comm : (a b : Leg) → overlaps a b ≡ overlaps b a
overlaps_comm a b = ground arith

share_seat_comm : (h g : Hold) → share_seat h g ≡ share_seat g h
share_seat_comm h g = ground (
  arith,
  eq_iff h.trip_id g.trip_id,
  eq_iff g.trip_id h.trip_id,
  eq_iff h.seat_id g.seat_id,
  eq_iff g.seat_id h.seat_id,
)

-- What `add_hold` needs, and what it does.
pub add_hold-ok :
    (holds d : Dict Hold) (hold : Hold)
    → add_hold holds hold ≡ ok d
    → (any (blocks hold) (active_for_seat holds hold.trip_id hold.seat_id) ≡ false)
      × (d ≡ insert hold.booking_id hold holds)
unfolding add_hold
add_hold-ok holds d hold e = ground arith

module _ (holds : Dict Hold) (hold : Hold) (x : IsExclusive holds) where
  abbrev added : Dict Hold
  added = insert hold.booking_id hold holds

  added_keyed : (k : String) (h : Hold) → lookup k added ≡ some h → h.booking_id ≡ k
  added_keyed k h l =
      ground
        (arith, lookup-insert hold.booking_id k hold holds, eq_iff hold.booking_id k, x.keyed k h)

  module _
      (free : any (blocks hold) (active_for_seat holds hold.trip_id hold.seat_id) ≡ false) where
    new_disjoint :
        (k : String) (g : Hold)
        → hold.booking_id ≢ k
        → lookup k holds ≡ some g
        → share_seat hold g ≡ true
        → overlaps hold.leg g.leg ≡ false
    new_disjoint k g ne l s =
        overlaps_comm hold.leg g.leg
        ∙ free_seat holds hold g k free l s (λ e. ne (sym e ∙ x.keyed k g l))

    added_disjoint :
        (j k : String) (h g : Hold)
        → lookup j added ≡ some h
        → lookup k added ≡ some g
        → j ≢ k
        → share_seat h g ≡ true
        → overlaps h.leg g.leg ≡ false
    added_disjoint j k h g lj lk ne s = ground (
      arith,
      lookup-insert hold.booking_id j hold holds,
      lookup-insert hold.booking_id k hold holds,
      eq_iff hold.booking_id j,
      eq_iff hold.booking_id k,
      x.disjoint j k h g,
      new_disjoint k g,
      new_disjoint j h,
      overlaps_comm h.leg g.leg,
      share_seat_comm h g,
    )

-- Adding a hold that the repository accepts keeps the store exclusive.
pub add_hold-IsExclusive :
    (holds d : Dict Hold) (hold : Hold)
    → IsExclusive holds
    → add_hold holds hold ≡ ok d
    → IsExclusive d
add_hold-IsExclusive holds d hold x e =
    let (free, eq) = add_hold-ok holds d hold e in
    rw eq (record { keyed = added_keyed holds hold x; disjoint = added_disjoint holds hold x free })

get-lookup :
    (holds : Dict Hold) (k : String) (h : Hold) → get holds k ≡ ok h → lookup k holds ≡ some h
unfolding get
get-lookup holds k h e = ground arith

-- Confirming a booking that is HELD keeps the store exclusive.
pub confirm-IsExclusive :
    (holds : Dict Hold) (k : String) (old : Hold) (p : Hold × Dict Hold)
    → IsExclusive holds
    → get holds k ≡ ok old
    → old.status ≡ held
    → set_status holds k confirmed ≡ ok p
    → IsExclusive p.1
confirm-IsExclusive holds k old p x g s st =
    set_status-IsExclusive holds k confirmed old p.0 p.1 x (get-lookup holds k old g) (λ _. rw s) st

-- Cancelling any booking keeps the store exclusive.
pub cancel-IsExclusive :
    (holds : Dict Hold) (k : String) (old : Hold) (p : Hold × Dict Hold)
    → IsExclusive holds
    → get holds k ≡ ok old
    → set_status holds k cancelled ≡ ok p
    → IsExclusive p.1
cancel-IsExclusive holds k old p x g st =
    set_status-IsExclusive holds k cancelled old p.0 p.1 x (get-lookup holds k old g) (λ h. cc) st
