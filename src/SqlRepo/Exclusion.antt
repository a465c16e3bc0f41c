-- ===== src/SqlRepo/Exclusion.antt =====
-- backend/slr/adapters/orm.py: the EXCLUDE constraint `booking_no_overlap`, over PostgreSQL's `&&` on
-- ranges, which is a parameter. `NULL = NULL` is not true in a constraint.
use train_seat_booking_syste.Prelude.{
  ℕ, ◌≡◌, refl, sym, ◌∙◌, leb, ◌↔◌, inl, inr, Bool, true, false, ◌&&◌, ◌||◌, String, ℤ, pos, ◌≤ℤ◌,
  ◌<ℤ◌, Option, some, List, [], ◌∷◌, All, any, select, arith, eq_iff, str_eq, bool_not, Bool-cases,
  if◌then◌else◌,
}
use train_seat_booking_syste.Prelude.Dict.{Dict, values, insert}
use train_seat_booking_syste.Domain.Errors.{ok, err, overlap_error}
use train_seat_booking_syste.Domain.Stations.{Leg, IsForward, overlaps}
use train_seat_booking_syste.Domain.Values.{
  BookingStatus, held, confirmed, cancelled, expired, standing, is_active, status_value,
}
use train_seat_booking_syste.MemoryRepo.{is_active_on_seat, active_for_seat, blocks, add_hold}
use train_seat_booking_syste.Ports.{Hold}
use train_seat_booking_syste.SqlRepo.{Range, BookingRow, leg_to_range, to_row}

abbrev same_seat : Option String → Option String → Bool
same_seat (some s) (some t) = str_eq s t
same_seat _ _ = false

-- `status IN ('HELD','CONFIRMED')`
abbrev is_live : String → Bool
is_live status = str_eq status "HELD" || str_eq status "CONFIRMED"

-- the range [l, u)
abbrev pub half_open : ℤ → ℤ → Range
half_open l u = record { lower = some l; upper = some u; bounds = "[)" }

-- What PostgreSQL documents of `&&`: two ranges overlap where they have a point in common.
abbrev pub Meets : (Range → Range → Bool) → Type 0
Meets meets =
    (a b c d : ℤ)
    → (meets (half_open a b) (half_open c d) ≡ true)
      ↔ ((p : ℤ) × (a ≤ℤ p) × (p <ℤ b) × (c ≤ℤ p) × (p <ℤ d))

-- Two rows that the constraint does not let stand together.
unfoldable pub excludes : (Range → Range → Bool) → BookingRow → BookingRow → Bool
excludes meets r s =
    str_eq r.trip_id s.trip_id
    && same_seat r.seat_id s.seat_id
    && meets r.leg s.leg
    && is_live r.status
    && is_live s.status

-- a stored row of another booking that the constraint excludes beside the new one
abbrev pub stands_against : (Range → Range → Bool) → Hold → Hold → Bool
stands_against meets hold g =
    bool_not (str_eq g.booking_id hold.booking_id) && excludes meets (to_row hold) (to_row g)

is_live-status_value : (s : BookingStatus) → is_live (status_value s) ≡ is_active s
is_live-status_value held = refl
is_live-status_value confirmed = refl
is_live-status_value cancelled = refl
is_live-status_value expired = refl
is_live-status_value standing = refl

module _ (meets : Range → Range → Bool) (law : Meets meets) where
  no_point :
      (a b : Leg) (p : ℤ)
      → overlaps a b ≡ false
      → pos a.origin_seq ≤ℤ p
      → p <ℤ pos a.dest_seq
      → pos b.origin_seq ≤ℤ p
      → p <ℤ pos b.dest_seq
      → ⊥
  no_point a b p e h i j k = ground arith

  meets-overlaps :
      (a b : Leg)
      → IsForward a
      → IsForward b
      → meets (leg_to_range a) (leg_to_range b) ≡ overlaps a b
  meets-overlaps a b fa fb =
      let (shared, meet) =
        law (pos a.origin_seq) (pos a.dest_seq) (pos b.origin_seq) (pos b.dest_seq) in
      elim (Bool-cases (overlaps a b)) [
        | inl e ↦
            let m : ℕ = if leb a.origin_seq b.origin_seq then b.origin_seq else a.origin_seq in
            meet (pos m, ground arith, ground arith, ground arith, ground arith) ∙ sym e
        | inr e ↦ elim (Bool-cases (meets (leg_to_range a) (leg_to_range b))) [
          | inr f ↦ f ∙ sym e
          | inl t ↦ let (p, h, i, j, k) = shared t in absurd (no_point a b p e h i j k)
        ]
      ]

  excludes-to_row :
      (hold g : Hold)
      → IsForward hold.leg
      → IsForward g.leg
      → is_active hold.status ≡ true
      → str_eq hold.seat_id "" ≡ false
      → excludes meets (to_row hold) (to_row g)
        ≡ (is_active_on_seat hold.trip_id hold.seat_id g && overlaps g.leg hold.leg)
  unfolding excludes to_row
  excludes-to_row hold g fh fg active seated =
      rw
        (
          meets-overlaps hold.leg g.leg fh fg,
          is_live-status_value hold.status,
          is_live-status_value g.status,
        )
        (ground (
          arith,
          eq_iff hold.trip_id g.trip_id,
          eq_iff g.trip_id hold.trip_id,
          eq_iff hold.seat_id g.seat_id,
          eq_iff g.seat_id hold.seat_id,
          eq_iff g.seat_id "",
          eq_iff hold.seat_id "",
        ))

  any-stands_against :
      (hold : Hold) (gs : List Hold)
      → IsForward hold.leg
      → All (λ g. IsForward g.leg) gs
      → is_active hold.status ≡ true
      → str_eq hold.seat_id "" ≡ false
      → any (blocks hold) (select (is_active_on_seat hold.trip_id hold.seat_id) gs)
        ≡ any (stands_against meets hold) gs
  any-stands_against hold [] fh fs active seated = refl
  any-stands_against hold (g ∷ gs) fh (fg, fs) active seated = ground (
    arith,
    excludes-to_row hold g fh fg active seated,
    any-stands_against hold gs fh fs active seated,
  )

-- The fake repository and the schema agree. Over a range operator that is what PostgreSQL documents
-- of `&&`, and for legs that run forward: a HELD or CONFIRMED booking with a seat is refused by
-- `add_hold` of the fake exactly where the row of some other stored booking cannot stand beside its
-- row by the constraint of the schema; it is stored otherwise.
pub add_hold-eq-excludes :
    (meets : Range → Range → Bool) (holds : Dict Hold) (hold : Hold)
    → Meets meets
    → IsForward hold.leg
    → All (λ g. IsForward g.leg) (values holds)
    → is_active hold.status ≡ true
    → str_eq hold.seat_id "" ≡ false
    → add_hold holds hold ≡ (
        if any (stands_against meets hold) (values holds)
        then err overlap_error
        else ok (insert hold.booking_id hold holds))
unfolding add_hold active_for_seat
add_hold-eq-excludes meets holds hold law fh fs active seated =
    rw (any-stands_against meets law hold (values holds) fh fs active seated)
