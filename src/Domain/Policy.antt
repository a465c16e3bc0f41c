-- ===== src/Domain/Policy.antt =====
-- backend/slr/domain/policy.py: the anti-tout predicates. A nonsensical argument raises ValueError.
use train_seat_booking_syste.Prelude.{
  ℕ, Bool, bool_not, String, str_eq, ◌&&◌, ◌||◌, ℤ, pos, ◌+ℤ◌, ◌-ℤ◌, ltb_ℤ, leb_ℤ, List, length,
  select, if◌then◌else◌,
}
use train_seat_booking_syste.Prelude.Text.{strip, is_empty}
use train_seat_booking_syste.Domain.Errors.{Result, ok, err, value_error}

unfoldable pub within_seat_cap : ℤ → ℤ → ℤ → Result Bool
within_seat_cap active_count requested cap =
    if ltb_ℤ requested (pos 1)
    then err value_error
    else if ltb_ℤ cap (pos 0) || ltb_ℤ active_count (pos 0)
    then err value_error
    else ok (leb_ℤ (active_count +ℤ requested) cap)

-- `sum(1 for t in booking_times if cutoff < t <= now)`
abbrev pub recent_count : List ℤ → ℤ → ℤ → ℕ
recent_count times cutoff now = length (select (λ t. ltb_ℤ cutoff t && leb_ℤ t now) times)

unfoldable pub within_velocity : List ℤ → ℤ → ℤ → ℤ → Result Bool
within_velocity times now window limit =
    if leb_ℤ window (pos 0)
    then err value_error
    else if ltb_ℤ limit (pos 0)
    then err value_error
    else ok (ltb_ℤ (pos (recent_count times (now -ℤ window) now)) limit)

-- `str.casefold` of the library is a parameter.
unfoldable pub named_passenger_ok : (String → String) → String → String → Bool
named_passenger_ok casefold ticket_id boarding_id =
    let a = casefold (strip ticket_id) in
    let b = casefold (strip boarding_id) in bool_not (is_empty a) && str_eq a b
