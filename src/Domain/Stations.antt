-- ===== src/Domain/Stations.antt =====
-- backend/slr/domain/stations.py: stations, and legs as half-open intervals of the line's
-- sequence positions. A position is a natural number: `Leg` refuses a negative one, and the
-- timetable numbers its stations from 0. `F` is Python's float, which is not modelled: its
-- operations come with `Deps`.
use train_seat_booking_syste.Prelude.{
  ℕ, ◌-◌, ◌<◌, ◌≡◌, ◌↔◌, Bool, true, false, ◌&&◌, ◌||◌, String, ℤ, pos, pos_part, ltb_ℤ, leb_ℤ,
  Option, none, some, List, [], ◌∷◌, arith, ltb, leb, ◌==◌, if◌then◌else◌,
}
use train_seat_booking_syste.Domain.Errors.{Result, ok, err, invalid_leg, key_error, ◌>>=◌}

pub record Station (F : Type 0) : Type 0 where
  pub code : String
  pub name : String
  pub seq : ℕ
  pub km : F

pub record Leg : Type 0 where
  pub origin_seq : ℕ
  pub dest_seq : ℕ

-- `Leg(origin, dest)` with the checks of `__post_init__`.
unfoldable pub make_leg : ℤ → ℤ → Result Leg
make_leg origin dest =
    if ltb_ℤ origin (pos 0)
    then err invalid_leg
    else if leb_ℤ dest origin
    then err invalid_leg
    else ok (record { origin_seq = pos_part origin; dest_seq = pos_part dest })

-- `leg.length`
abbrev pub leg_length : Leg → ℕ
leg_length l = l.dest_seq - l.origin_seq

abbrev pub overlaps : Leg → Leg → Bool
overlaps a b = ltb a.origin_seq b.dest_seq && ltb b.origin_seq a.dest_seq

abbrev pub is_adjacent : Leg → Leg → Bool
is_adjacent a b = a.dest_seq == b.origin_seq || b.dest_seq == a.origin_seq

abbrev pub contains : Leg → ℕ → Bool
contains l seq = leb l.origin_seq seq && ltb seq l.dest_seq

module _ {F : Type 0} where
  -- `km_by_seq[seq]` of `km_index(stations)`: the last station with the position.
  unfoldable pub km_at : List (Station F) → ℕ → Option F
  km_at [] seq = none
  km_at (s ∷ rest) seq = elim (km_at rest seq) [
    | some km ↦ some km
    | none ↦ if s.seq == seq then some s.km else none
  ]

  abbrev pub lookup_km : Option F → Result F
  lookup_km (some km) = ok km
  lookup_km none = err key_error

  -- `leg.distance_km(km_index(stations))`, over the float subtraction.
  unfoldable pub distance_km : (F → F → F) → List (Station F) → Leg → Result F
  unfolding km_at
  distance_km sub stations l = do
    dest ← lookup_km (km_at stations l.dest_seq)
    origin ← lookup_km (km_at stations l.origin_seq)
    ok (sub dest origin)

-- The leg moves forward, which `__post_init__` guarantees of every `Leg` of the program.
abbrev pub IsForward : Leg → Type 0
IsForward l = l.origin_seq < l.dest_seq

-- `Leg(o, d)` is the leg `l` exactly where `l` moves forward and has the ends `o` and `d`; so it
-- raises exactly where `o` is negative or `d` is not beyond `o`.
make_leg-eq-ok_iff :
    (o d : ℤ) (l : Leg)
    → (make_leg o d ≡ ok l) ↔ (IsForward l × (pos l.origin_seq ≡ o) × (pos l.dest_seq ≡ d))
unfolding make_leg
make_leg-eq-ok_iff o d l = (λ e. ground arith, λ h. ground arith)

-- Two legs that move forward overlap exactly where some position lies in both.
overlaps_iff :
    (a b : Leg)
    → IsForward a
    → IsForward b
    → (overlaps a b ≡ true) ↔ ((p : ℕ) × (contains a p ≡ true) × (contains b p ≡ true))
overlaps_iff a b fa fb = (
  λ h.
      let m : ℕ = if leb a.origin_seq b.origin_seq then b.origin_seq else a.origin_seq in
      (m, ground arith, ground arith),
  λ h. ground arith,
)

-- Segment resale: two legs that move forward and meet end to end do not overlap.
not-overlaps_of_adjacent :
    (a b : Leg) → IsForward a → IsForward b → is_adjacent a b ≡ true → overlaps a b ≡ false
not-overlaps_of_adjacent a b fa fb h = ground arith
