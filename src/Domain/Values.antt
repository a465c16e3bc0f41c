-- ===== src/Domain/Values.antt =====
-- backend/slr/domain/values.py: the enumerations, and the sets of statuses.
use train_seat_booking_syste.Prelude.{Bool, true, false, String, List, [], ◌∷◌}

pub data BookingStatus : Type 0 where
  held confirmed cancelled expired standing : BookingStatus

pub data CoachType : Type 0 where
  reserved unreserved : CoachType

pub data TravelClass : Type 0 where
  first second third : TravelClass

-- `CLASS_ORDER`
abbrev pub class_order : List TravelClass
class_order = first ∷ second ∷ third ∷ []

-- `s in ACTIVE_STATUSES`
abbrev pub is_active : BookingStatus → Bool
is_active held = true
is_active confirmed = true
is_active _ = false

-- `s in TERMINAL_STATUSES`
abbrev pub is_terminal : BookingStatus → Bool
is_terminal cancelled = true
is_terminal expired = true
is_terminal _ = false

-- `a is b` on the members of each enumeration.
abbrev pub same_status : BookingStatus → BookingStatus → Bool
same_status held held = true
same_status confirmed confirmed = true
same_status cancelled cancelled = true
same_status expired expired = true
same_status standing standing = true
same_status _ _ = false

abbrev pub same_class : TravelClass → TravelClass → Bool
same_class first first = true
same_class second second = true
same_class third third = true
same_class _ _ = false

abbrev pub is_reserved : CoachType → Bool
is_reserved reserved = true
is_reserved unreserved = false

-- The `value` of each member, as the database stores it.
abbrev pub status_value : BookingStatus → String
status_value held = "HELD"
status_value confirmed = "CONFIRMED"
status_value cancelled = "CANCELLED"
status_value expired = "EXPIRED"
status_value standing = "STANDING"

abbrev pub coach_type_value : CoachType → String
coach_type_value reserved = "RESERVED"
coach_type_value unreserved = "UNRESERVED"

abbrev pub class_value : TravelClass → String
class_value first = "FIRST"
class_value second = "SECOND"
class_value third = "THIRD"
