-- ===== src/UseCases/AntiTout/Policy.antt =====
-- The gate against the predicates of backend/slr/domain/policy.py.
use train_seat_booking_syste.Prelude.{
  ℕ, ◌≡◌, refl, Bool, true, false, String, ℤ, pos, ◌+ℤ◌, ◌-ℤ◌, ◌≤ℤ◌, ◌<ℤ◌, leb_ℤ, List, [], ◌∷◌,
  map, length, All, arith, if◌then◌else◌,
}
use train_seat_booking_syste.Prelude.Dict.{Dict}
use train_seat_booking_syste.Domain.Errors.{
  ok, err, seat_cap_exceeded, velocity_exceeded, abuse_suspected,
}
use train_seat_booking_syste.Domain.Policy.{recent_count, within_seat_cap, within_velocity}
use train_seat_booking_syste.Ports.{Hold, Deps}
use train_seat_booking_syste.MemoryRepo.{active_for_passenger}
use train_seat_booking_syste.UseCases.AntiTout.{recent_of, features_of, enforce_anti_tout}
use train_seat_booking_syste.UseCases.Support.{
  max_seats_per_passenger, velocity_window, max_bookings_per_window, abuse_threshold,
}

abbrev times_of : List Hold → List ℤ
times_of = map (λ h. h.created_at)

-- Bookings that were not made in the future are counted alike by both.
recent-eq :
    (active : List Hold) (now window : ℤ)
    → All (λ h. h.created_at ≤ℤ now) active
    → length (recent_of active now window) ≡ recent_count (times_of active) (now -ℤ window) now
recent-eq [] now window past = refl
recent-eq (h ∷ active) now window past = ground (arith, recent-eq active now window past.1)

seat_cap-eq :
    (n : ℕ) (cap : ℤ)
    → pos 0 ≤ℤ cap
    → within_seat_cap (pos n) (pos 1) cap ≡ ok (if leb_ℤ cap (pos n) then false else true)
unfolding within_seat_cap ◌+ℤ◌
seat_cap-eq n cap h = ground arith

velocity-eq :
    (active : List Hold) (now window limit : ℤ)
    → pos 0 <ℤ window
    → pos 0 ≤ℤ limit
    → All (λ h. h.created_at ≤ℤ now) active
    → within_velocity (times_of active) now window limit
      ≡ ok (if leb_ℤ limit (pos (length (recent_of active now window))) then false else true)
unfolding within_velocity
velocity-eq active now window limit hw hl past = ground (arith, recent-eq active now window past)

module _ {F : Type 0} (deps : Deps F) (holds : Dict Hold) (trip_id passenger_id : String)
    (now cap window limit : ℤ) (threshold : F) where
  abbrev pub held_by : List Hold
  held_by = active_for_passenger holds trip_id passenger_id

  -- What the predicates say of the passenger's bookings.
  abbrev pub Verdicts : Bool → Bool → Type 0
  Verdicts few slow =
      (within_seat_cap (pos (length held_by)) (pos 1) cap ≡ ok few)
      × (within_velocity (times_of held_by) now window limit ≡ ok slow)

  abbrev pub suspected : Bool
  suspected =
      deps.float_leb threshold
        (deps.score (features_of deps held_by (recent_of held_by now window)))

  -- Under a sensible configuration, and if no booking of the passenger was made in the future, the
  -- gate is the predicates of the domain in turn: it raises SeatCapExceeded where one more seat is
  -- not within the cap, else VelocityExceeded where one more booking is not within the velocity
  -- limit, else AbuseSuspected where the score has reached the threshold, and passes otherwise.
  pub enforce_anti_tout_lem :
      deps.get_int max_seats_per_passenger ≡ ok cap
      → deps.get_int velocity_window ≡ ok window
      → deps.get_int max_bookings_per_window ≡ ok limit
      → deps.get_float abuse_threshold ≡ ok threshold
      → pos 0 ≤ℤ cap
      → pos 0 <ℤ window
      → pos 0 ≤ℤ limit
      → All (λ h. h.created_at ≤ℤ now) held_by
      → (few : Bool) × (slow : Bool) × Verdicts few slow
        × (enforce_anti_tout deps holds trip_id passenger_id now ≡ (
            if few
            then if slow
              then if suspected then err abuse_suspected else ok tt
              else err velocity_exceeded
            else err seat_cap_exceeded))
  unfolding enforce_anti_tout
  enforce_anti_tout_lem gc gw gl gt hc hw hl past = (
    (if leb_ℤ cap (pos (length held_by)) then false else true),
    (if leb_ℤ limit (pos (length (recent_of held_by now window))) then false else true),
    (seat_cap-eq (length held_by) cap hc, velocity-eq held_by now window limit hw hl past),
    ground arith,
  )
