-- ===== src/App/Seed/Upserts.antt =====
-- What a run of `upsert_trip` over a list of trips does to the table.
use train_seat_booking_syste.Prelude.{
  ℕ, Bool, length, ◌+◌, ◌≡◌, refl, sym, ap, suc, true, false, String, none, some, List, [], ◌∷◌,
  Occurs, inl, inr, arith, eq_iff, str_eq, ◌⊎◌, Bool-cases, Option-cases, if◌then◌else◌,
}
use train_seat_booking_syste.Prelude.Dict.{Dict, lookup, insert, lookup-insert}
use train_seat_booking_syste.App.Seed.{upsert_all}
use train_seat_booking_syste.Domain.Errors.{ok, Result-cases}
use train_seat_booking_syste.Ports.{Trip}
use train_seat_booking_syste.SqlRepo.{TripRow, trip_row}
use train_seat_booking_syste.SqlRepo.Trips.{upsert_trip}

module _ {F : Type 0} where
  -- A row that stands in the table.
  abbrev pub IsStored : String → Dict (TripRow F) → Type 0
  IsStored k table = (row : TripRow F) × (lookup k table ≡ some row)

  -- Where a row that was not there comes from.
  abbrev pub IsNewRow : List (Trip F) → String → TripRow F → Type 0
  IsNewRow trips k row = (t : Trip F) × Occurs t trips × (t.trip_id ≡ k) × (trip_row t ≡ ok row)

  upsert_trip-cases :
      (table : Dict (TripRow F)) (t : Trip F) (b : Bool) (next : Dict (TripRow F))
      → upsert_trip table t ≡ ok (b, next)
      → ((b ≡ false) × (next ≡ table) × IsStored t.trip_id table)
        ⊎ ((row : TripRow F) × (b ≡ true)
            × (lookup t.trip_id table ≡ none)
            × (trip_row t ≡ ok row)
            × (next ≡ insert t.trip_id row table))
  unfolding upsert_trip
  upsert_trip-cases table t b next e = elim (Option-cases (lookup t.trip_id table)) [
    | inr (row, h) ↦ inl (ground arith, ground arith, (row, h))
    | inl h ↦ elim (Result-cases (trip_row t)) [
      | inr (x, k) ↦ absurd (ground arith)
      | inl (row, k) ↦ inr (row, ground arith, h, k, ground arith)
    ]
  ]

  upsert_all-cons :
      (table : Dict (TripRow F)) (t : Trip F) (trips : List (Trip F)) (n : ℕ)
      (last : Dict (TripRow F))
      → upsert_all table (t ∷ trips) ≡ ok (n, last)
      → (b : Bool) × (next : Dict (TripRow F)) × (m : ℕ) × (upsert_trip table t ≡ ok (b, next))
        × (upsert_all next trips ≡ ok (m, last))
        × (n ≡ (if b then 1 else 0) + m)
  unfolding upsert_all
  upsert_all-cons table t trips n last e = elim (Result-cases (upsert_trip table t)) [
    | inr (x, h) ↦ absurd (ground arith)
    | inl ((b, next), h) ↦ elim (Result-cases (upsert_all next trips)) [
      | inr (x, k) ↦ absurd (ground arith)
      | inl ((m, end), k) ↦ (b, next, m, h, ground arith, ground arith)
    ]
  ]

  upsert_trip-keeps :
      (table : Dict (TripRow F)) (t : Trip F) (b : Bool) (next : Dict (TripRow F)) (k : String)
      (r : TripRow F)
      → upsert_trip table t ≡ ok (b, next)
      → lookup k table ≡ some r
      → lookup k next ≡ some r
  upsert_trip-keeps table t b next k r e h = elim (upsert_trip-cases table t b next e) [
    | inl (_, same, _) ↦ rw same h
    | inr (row, _, fresh, _, made) ↦
        rw (made, lookup-insert t.trip_id k row table) (ground (arith, eq_iff t.trip_id k))
  ]

  pub upsert_all-keeps :
      (table : Dict (TripRow F)) (trips : List (Trip F)) (n : ℕ) (last : Dict (TripRow F))
      (k : String) (r : TripRow F)
      → upsert_all table trips ≡ ok (n, last)
      → lookup k table ≡ some r
      → lookup k last ≡ some r
  unfolding upsert_all
  upsert_all-keeps table [] n last k r e h = let s : table ≡ last = ground arith in rw (sym s) h
  upsert_all-keeps table (t ∷ trips) n last k r e h =
      let (b, next, m, one, more, _) = upsert_all-cons table t trips n last e in
      upsert_all-keeps next trips m last k r more (upsert_trip-keeps table t b next k r one h)

  upsert_trip-stores :
      (table : Dict (TripRow F)) (t : Trip F) (b : Bool) (next : Dict (TripRow F))
      → upsert_trip table t ≡ ok (b, next)
      → IsStored t.trip_id next
  upsert_trip-stores table t b next e = elim (upsert_trip-cases table t b next e) [
    | inl (_, same, (row, h)) ↦ (row, rw same h)
    | inr (row, _, fresh, _, made) ↦ (
      row,
      rw (made, lookup-insert t.trip_id t.trip_id row table)
          (ground (arith, eq_iff t.trip_id t.trip_id)),
    )
  ]

  pub upsert_all-stores :
      (table : Dict (TripRow F)) (trips : List (Trip F)) (n : ℕ) (last : Dict (TripRow F))
      (t : Trip F)
      → upsert_all table trips ≡ ok (n, last)
      → Occurs t trips
      → IsStored t.trip_id last
  upsert_all-stores table [] n last t e m = absurd m
  upsert_all-stores table (u ∷ trips) n last t e m =
      let (b, next, count, one, more, _) = upsert_all-cons table u trips n last e in
      elim m [
        | inr j ↦ upsert_all-stores next trips count last t more j
        | inl same ↦
            let (row, h) = upsert_trip-stores table u b next one in
            (row, rw same (upsert_all-keeps next trips count last u.trip_id row more h))
      ]

  upsert_trip-again :
      (table : Dict (TripRow F)) (t : Trip F)
      → IsStored t.trip_id table
      → upsert_trip table t ≡ ok (false, table)
  unfolding upsert_trip
  upsert_trip-again table t (row, stored) = ground arith

  pub upsert_all-again :
      (table : Dict (TripRow F)) (trips : List (Trip F))
      → ((t : Trip F) → Occurs t trips → IsStored t.trip_id table)
      → upsert_all table trips ≡ ok (0, table)
  unfolding upsert_all
  upsert_all-again table [] h = refl
  upsert_all-again table (t ∷ trips) h =
      rw
        (
          upsert_trip-again table t (h t (inl refl)),
          upsert_all-again table trips (λ u m. h u (inr m)),
        )
        refl

  pub upsert_all-new :
      (table : Dict (TripRow F)) (trips : List (Trip F)) (n : ℕ) (last : Dict (TripRow F))
      (k : String) (r : TripRow F)
      → upsert_all table trips ≡ ok (n, last)
      → lookup k table ≡ none
      → lookup k last ≡ some r
      → IsNewRow trips k r
  unfolding upsert_all
  upsert_all-new table [] n last k r e fresh h =
      let s : last ≡ table = ground arith in absurd (ground (arith, s))
  upsert_all-new table (t ∷ trips) n last k r e fresh h =
      let (b, next, count, one, more, _) = upsert_all-cons table t trips n last e in
      elim (upsert_trip-cases table t b next one) [
        | inl (_, same, _) ↦
            let (u, at, id, made) =
              upsert_all-new next trips count last k r more (rw same fresh) h in
            (u, inr at, id, made)
        | inr (row, _, _, made, put) ↦ elim (Bool-cases (str_eq t.trip_id k)) [
          | inl q ↦
              let there : lookup k next ≡ some row =
                rw (put, lookup-insert t.trip_id k row table) (ground (arith, q)) in
              let kept = upsert_all-keeps next trips count last k row more there in
              let one_row : row ≡ r = ground (arith, kept, h) in
              (t, inl refl, (eq_iff t.trip_id k).0 q, rw (sym one_row) made)
          | inr q ↦
              let still : lookup k next ≡ none =
                rw (put, lookup-insert t.trip_id k row table) (ground (arith, q, fresh)) in
              let (u, at, id, was) = upsert_all-new next trips count last k r more still h in
              (u, inr at, id, was)
        ]
      ]

  length-insert_fresh :
      (k : String) (r : TripRow F) (table : Dict (TripRow F))
      → lookup k table ≡ none
      → length (insert k r table) ≡ suc (length table)
  unfolding insert lookup
  length-insert_fresh k r [] h = refl
  length-insert_fresh k r ((j, q) ∷ table) h = elim (Bool-cases (str_eq j k)) [
    | inl e ↦ absurd (ground arith)
    | inr e ↦ rw e (omega (arith, length-insert_fresh k r table (ground arith)))
  ]

  pub length-upsert_all :
      (table : Dict (TripRow F)) (trips : List (Trip F)) (n : ℕ) (last : Dict (TripRow F))
      → upsert_all table trips ≡ ok (n, last)
      → length last ≡ n + length table
  unfolding upsert_all
  length-upsert_all table [] n last e = ground arith
  length-upsert_all table (t ∷ trips) n last e =
      let (b, next, count, one, more, total) = upsert_all-cons table t trips n last e in
      let ih = length-upsert_all next trips count last more in
      elim (upsert_trip-cases table t b next one) [
        | inl (idle, same, _) ↦ ground (arith, ap length same)
        | inr (row, added, fresh, _, put) ↦
            ground (arith, ap length put, length-insert_fresh t.trip_id row table fresh)
      ]
