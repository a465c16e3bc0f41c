-- ===== src/Domain/Packing/Colouring/Disjoint.antt =====
-- Legs with the same seat do not overlap.
use train_seat_booking_syste.Prelude.{
  ℕ, suc, ◌≤◌, ◌≡◌, ◌≢◌, sym, ap, ◌∙◌, subst, inl, inr, false, some, List, [], ◌∷◌, All, Occurs,
  get_elem?, arith,
}
use train_seat_booking_syste.Prelude.Sorting.{All-sort}
use train_seat_booking_syste.Domain.Stations.{Leg, IsForward, overlaps}
use train_seat_booking_syste.Domain.Packing.Colouring.{Entry, enumerate, leb_key, pack}
use train_seat_booking_syste.Domain.Packing.Colouring.Apart.{
  RunsForward, Follows, IsApart, trace-IsApart,
}
use train_seat_booking_syste.Domain.Packing.Colouring.Seats.{order_of, pack-seated}
use train_seat_booking_syste.Domain.Packing.Colouring.Trace.{Seated, trace}

pub All-Occurs : {A : Type 0} (P : A → Type 0) (x : A) (xs : List A) → All P xs → Occurs x xs → P x
All-Occurs P x [] h m = absurd m
All-Occurs P x (y ∷ ys) (p, h) (inl e) = subst P (sym e) p
All-Occurs P x (y ∷ ys) (p, h) (inr m) = All-Occurs P x ys h m

not-overlaps_of_le : (a b : Leg) → a.dest_seq ≤ b.origin_seq → overlaps a b ≡ false
not-overlaps_of_le a b h = ground arith

not-overlaps_of_ge : (a b : Leg) → b.dest_seq ≤ a.origin_seq → overlaps a b ≡ false
not-overlaps_of_ge a b h = ground arith

apart :
    (x y : Seated) (xs : List Seated)
    → IsApart xs
    → Occurs x xs
    → Occurs y xs
    → x.entry ≢ y.entry
    → x.seat ≡ y.seat
    → overlaps x.entry.leg y.entry.leg ≡ false
apart x y [] h m k ne s = absurd m
apart x y (z ∷ xs) (h, hs) (inl m) (inl k) ne s =
    absurd (ne (ap (λ (u : Seated). u.entry) (m ∙ sym k)))
apart x y (z ∷ xs) (h, hs) (inl m) (inr k) ne s =
    let follows = All-Occurs (Follows z.entry.leg.dest_seq z.seat) y xs h k in
    not-overlaps_of_le x.entry.leg y.entry.leg
      (rw m (follows (sym s ∙ ap (λ (u : Seated). u.seat) m)))
apart x y (z ∷ xs) (h, hs) (inr m) (inl k) ne s =
    let follows = All-Occurs (Follows z.entry.leg.dest_seq z.seat) x xs h m in
    not-overlaps_of_ge x.entry.leg y.entry.leg (rw k (follows (s ∙ ap (λ (u : Seated). u.seat) k)))
apart x y (z ∷ xs) (h, hs) (inr m) (inr k) ne s = apart x y xs hs m k ne s

enumerate-RunsForward :
    (i : ℕ) (legs : List Leg) → All IsForward legs → All RunsForward (enumerate i legs)
enumerate-RunsForward i [] f = tt
enumerate-RunsForward i (l ∷ legs) (h, f) = (h, enumerate-RunsForward (suc i) legs f)

pub order_of-RunsForward : (legs : List Leg) → All IsForward legs → All RunsForward (order_of legs)
order_of-RunsForward legs f =
    All-sort RunsForward leb_key (enumerate 0 legs) (enumerate-RunsForward 0 legs f)

-- `pack` never puts two overlapping legs on one seat: two legs of the input, at different places,
-- that get the same seat do not overlap.
pub not-overlaps_of_pack :
    (legs : List Leg) (i j s : ℕ) (a b : Leg)
    → All IsForward legs
    → get_elem? legs i ≡ some a
    → get_elem? legs j ≡ some b
    → i ≢ j
    → get_elem? (pack legs) i ≡ some s
    → get_elem? (pack legs) j ≡ some s
    → overlaps a b ≡ false
not-overlaps_of_pack legs i j s a b f la lb ne pa pb =
    let (x, mx, ex, px) = pack-seated legs i a la in
    let (y, my, ey, py) = pack-seated legs j b lb in
    let same : x.seat ≡ y.seat = ground arith in
    let differ : x.entry ≢ y.entry = λ e. ne (ap (λ (u : Entry). u.index) (sym ex ∙ e ∙ ey)) in
    let free =
      apart x y (trace (order_of legs) [] 0)
        (trace-IsApart (order_of legs) [] 0 (order_of-RunsForward legs f) (tt, tt)) mx my differ
        same in
    rw (ex, ey) at free
