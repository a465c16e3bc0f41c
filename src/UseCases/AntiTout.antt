-- ===== src/UseCases/AntiTout.antt =====
-- backend/slr/usecases/_policy.py: the anti-tout gate, read from the store as it stands.
pub mod Policy
use train_seat_booking_syste.Prelude.{
  ℕ, ◌≡◌, Bool, true, false, String, ℤ, pos, ◌-ℤ◌, ltb_ℤ, leb_ℤ, List, [], ◌∷◌, map, length, select,
  str_eq, bool_not, if◌then◌else◌,
}
use train_seat_booking_syste.Prelude.Dict.{Dict}
use train_seat_booking_syste.Domain.Errors.{
  Result, ok, err, seat_cap_exceeded, velocity_exceeded, abuse_suspected, ◌>>=◌, ◌>>◌, raise_if,
}
use train_seat_booking_syste.Ports.{Hold, Deps, AbuseFeatures}
use train_seat_booking_syste.MemoryRepo.{active_for_passenger}
use train_seat_booking_syste.UseCases.Support.{
  max_seats_per_passenger, velocity_window, max_bookings_per_window, abuse_threshold, distinct,
}

-- `[h for h in active if h.created_at > now - window]`
abbrev pub recent_of : List Hold → ℤ → ℤ → List Hold
recent_of active now window = select (λ h. ltb_ℤ (now -ℤ window) h.created_at) active

-- `{h.seat_id for h in active if h.seat_id}`
abbrev pub seats_of : List Hold → List String
seats_of active = distinct (select (λ s. bool_not (str_eq s "")) (map (λ h. h.seat_id) active))

module _ {F : Type 0} where
  abbrev pub features_of : Deps F → List Hold → List Hold → AbuseFeatures F
  features_of deps active recent = record {
    velocity = length recent;
    passenger_fanout = 1;
    seat_fanout = length (seats_of active);
    cancel_ratio = deps.float_zero;
  }

  unfoldable pub enforce_anti_tout : Deps F → Dict Hold → String → String → ℤ → Result (Unit {0})
  enforce_anti_tout deps holds trip_id passenger_id now = do
    let active = active_for_passenger holds trip_id passenger_id
    cap ← deps.get_int max_seats_per_passenger
    raise_if (leb_ℤ cap (pos (length active))) seat_cap_exceeded
    window ← deps.get_int velocity_window
    limit ← deps.get_int max_bookings_per_window
    let recent = recent_of active now window
    raise_if (leb_ℤ limit (pos (length recent))) velocity_exceeded
    let score = deps.score (features_of deps active recent)
    threshold ← deps.get_float abuse_threshold
    raise_if (deps.float_leb threshold score) abuse_suspected
