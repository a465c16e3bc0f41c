-- ===== src/MemoryRepo.antt =====
-- backend/slr/adapters/memory_repo.py: the booking repository over the dictionary of holds, as
-- functions of that dictionary. The unit of work is in `World`.
pub mod Exclusive
use train_seat_booking_syste.Prelude.{
  ◌≡◌, Bool, true, false, ◌&&◌, String, ℤ, leb_ℤ, Option, none, some, List, [], ◌∷◌, str_eq, select,
  find, any, if◌then◌else◌,
}
use train_seat_booking_syste.Prelude.Dict.{Dict, lookup, insert, values}
use train_seat_booking_syste.Domain.Errors.{Result, ok, err, overlap_error, key_error}
use train_seat_booking_syste.Domain.Stations.{overlaps}
use train_seat_booking_syste.Domain.Values.{
  BookingStatus, held, confirmed, cancelled, expired, standing, is_active, same_status,
}
use train_seat_booking_syste.Ports.{Hold}

abbrev pub is_active_on_seat : String → String → Hold → Bool
is_active_on_seat trip_id seat_id h =
    str_eq h.trip_id trip_id && str_eq h.seat_id seat_id && is_active h.status

abbrev pub is_active_of_passenger : String → String → Hold → Bool
is_active_of_passenger trip_id passenger_id h =
    str_eq h.trip_id trip_id && str_eq h.passenger_id passenger_id && is_active h.status

unfoldable pub active_for_seat : Dict Hold → String → String → List Hold
active_for_seat holds trip_id seat_id = select (is_active_on_seat trip_id seat_id) (values holds)

unfoldable pub active_for_passenger : Dict Hold → String → String → List Hold
active_for_passenger holds trip_id passenger_id =
    select (is_active_of_passenger trip_id passenger_id) (values holds)

unfoldable pub active_holds : Dict Hold → String → List Hold
active_holds holds trip_id =
    select (λ h. str_eq h.trip_id trip_id && is_active h.status) (values holds)

unfoldable pub by_status : Dict Hold → String → BookingStatus → List Hold
by_status holds trip_id status =
    select (λ h. str_eq h.trip_id trip_id && same_status h.status status) (values holds)

unfoldable pub by_reference : Dict Hold → String → Option Hold
by_reference holds reference = find (λ h. str_eq h.reference reference) (values holds)

-- `self._store.holds[booking_id]`
unfoldable pub get : Dict Hold → String → Result Hold
get holds booking_id = elim (lookup booking_id holds) [ some h ↦ ok h | none ↦ err key_error ]

-- the test in the loop of `add_hold`
abbrev pub blocks : Hold → Hold → Bool
blocks hold existing =
    if str_eq existing.booking_id hold.booking_id then false else overlaps existing.leg hold.leg

unfoldable pub add_hold : Dict Hold → Hold → Result (Dict Hold)
add_hold holds hold =
    if any (blocks hold) (active_for_seat holds hold.trip_id hold.seat_id)
    then err overlap_error
    else ok (insert hold.booking_id hold holds)

-- `replace(h, status=status)`
abbrev pub with_status : Hold → BookingStatus → Hold
with_status h status = record h { status = status }

unfoldable pub set_status : Dict Hold → String → BookingStatus → Result (Hold × Dict Hold)
set_status holds booking_id status = elim (lookup booking_id holds) [
  | none ↦ err key_error
  | some h ↦ ok (with_status h status, insert booking_id (with_status h status) holds)
]

abbrev pub is_due : ℤ → Hold → Bool
is_due now h = same_status h.status held && leb_ℤ h.held_until now

abbrev pub expire : Hold → Hold
expire h = with_status h expired

-- The loop of `expire_due` writes each overdue entry at its own place, and collects it.
unfoldable pub expire_due : Dict Hold → ℤ → List Hold × Dict Hold
expire_due [] now = ([], [])
expire_due ((k, h) ∷ holds) now =
    let (due, rest) = expire_due holds now in
    if is_due now h then (expire h ∷ due, (k, expire h) ∷ rest) else (due, (k, h) ∷ rest)
