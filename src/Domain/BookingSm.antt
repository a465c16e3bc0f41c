-- ===== src/Domain/BookingSm.antt =====
-- backend/slr/domain/booking_sm.py: the status machine, and its step relation.
use train_seat_booking_syste.Prelude.{
  ◌≡◌, refl, ◌≢◌, ◌↔◌, ◌⊎◌, Bool, true, false, Option, none, some, arith,
}
use train_seat_booking_syste.Domain.Errors.{Result, ok, err, illegal_transition, is_ok}
use train_seat_booking_syste.Domain.Values.{
  BookingStatus, held, confirmed, cancelled, expired, standing, is_active, is_terminal,
}

pub data BookingEvent : Type 0 where
  confirm cancel expire : BookingEvent

-- The dictionary `_TRANSITIONS`.
abbrev pub transitions : BookingStatus → BookingEvent → Option BookingStatus
transitions held confirm = some confirmed
transitions held cancel = some cancelled
transitions held expire = some expired
transitions confirmed cancel = some cancelled
transitions standing cancel = some cancelled
transitions _ _ = none

-- `(current, event) in _TRANSITIONS`
abbrev pub can_apply : BookingStatus → BookingEvent → Bool
can_apply s e = elim (transitions s e) [ some t ↦ true | none ↦ false ]

abbrev pub apply : BookingStatus → BookingEvent → Result BookingStatus
apply s e = elim (transitions s e) [ some t ↦ ok t | none ↦ err illegal_transition ]

-- One legal change of status, and a chain of them.
pub data Step : BookingStatus → BookingStatus → Type 0 where
  step : {s t : BookingStatus} (e : BookingEvent) → apply s e ≡ ok t → Step s t

pub data Reach (s : BookingStatus) : BookingStatus → Type 0 where
  here : Reach s s
  next : {t u : BookingStatus} → Reach s t → Step t u → Reach s u

-- Whether a booking of one status can come to have another.
abbrev pub leads_to : BookingStatus → BookingStatus → Bool
leads_to held standing = false
leads_to held _ = true
leads_to confirmed confirmed = true
leads_to confirmed cancelled = true
leads_to standing standing = true
leads_to standing cancelled = true
leads_to cancelled cancelled = true
leads_to expired expired = true
leads_to _ _ = false

leads_to_refl : (s : BookingStatus) → leads_to s s ≡ true
leads_to_refl held = refl
leads_to_refl confirmed = refl
leads_to_refl cancelled = refl
leads_to_refl expired = refl
leads_to_refl standing = refl

leads_to_step :
    (s t u : BookingStatus) (e : BookingEvent)
    → leads_to s t ≡ true
    → apply t e ≡ ok u
    → leads_to s u ≡ true
leads_to_step s t u e h a = ground arith

Reach-leads_to : {s t : BookingStatus} → Reach s t → leads_to s t ≡ true
Reach-leads_to {s} here = leads_to_refl s
Reach-leads_to {s} (next {t} {u} r (step e a)) = leads_to_step s t u e (Reach-leads_to r) a

leads_to-Reach : (s t : BookingStatus) → leads_to s t ≡ true → Reach s t
leads_to-Reach held held h = here
leads_to-Reach held confirmed h = next here (step confirm refl)
leads_to-Reach held cancelled h = next here (step cancel refl)
leads_to-Reach held expired h = next here (step expire refl)
leads_to-Reach held standing h = cc
leads_to-Reach confirmed held h = cc
leads_to-Reach confirmed confirmed h = here
leads_to-Reach confirmed cancelled h = next here (step cancel refl)
leads_to-Reach confirmed expired h = cc
leads_to-Reach confirmed standing h = cc
leads_to-Reach cancelled held h = cc
leads_to-Reach cancelled confirmed h = cc
leads_to-Reach cancelled cancelled h = here
leads_to-Reach cancelled expired h = cc
leads_to-Reach cancelled standing h = cc
leads_to-Reach expired held h = cc
leads_to-Reach expired confirmed h = cc
leads_to-Reach expired cancelled h = cc
leads_to-Reach expired expired h = here
leads_to-Reach expired standing h = cc
leads_to-Reach standing held h = cc
leads_to-Reach standing confirmed h = cc
leads_to-Reach standing cancelled h = next here (step cancel refl)
leads_to-Reach standing expired h = cc
leads_to-Reach standing standing h = here

-- `can_apply` tells whether `apply` returns; the statuses where every event is refused are exactly
-- the terminal ones; and an event that applies always changes the status.
apply_lem :
    (s : BookingStatus)
    → ((e : BookingEvent) → can_apply s e ≡ is_ok (apply s e))
      × ((is_terminal s ≡ true) ↔ ((e : BookingEvent) → apply s e ≡ err illegal_transition))
      × ((e : BookingEvent) → apply s e ≢ ok s)
apply_lem s =
    (λ e. ground arith, (λ h e. ground arith, λ h. ground (arith, h cancel)), λ e h. ground arith)

-- Through chains of events a HELD booking can become CONFIRMED, CANCELLED or EXPIRED, a CONFIRMED or
-- STANDING one CANCELLED, and no booking anything else: CANCELLED and EXPIRED are final, and nothing
-- leads to HELD or STANDING.
pub Reach-iff : (s t : BookingStatus) → Reach s t ↔ (leads_to s t ≡ true)
Reach-iff s t = (Reach-leads_to, leads_to-Reach s t)

-- Through any chain of events a CANCELLED or EXPIRED booking stays what it is.
Reach-terminal : {s t : BookingStatus} → Reach s t → is_terminal s ≡ true → t ≡ s
Reach-terminal {s} {t} r h = ground (arith, Reach-leads_to r)

-- Through any chain of events a booking that holds no seat never comes to hold one.
Reach-active : {s t : BookingStatus} → Reach s t → is_active t ≡ true → is_active s ≡ true
Reach-active {s} {t} r h = ground (arith, Reach-leads_to r)

-- From CONFIRMED, the only other status that any chain of events leads to is CANCELLED.
Reach-confirmed : {t : BookingStatus} → Reach confirmed t → (t ≡ confirmed) ⊎ (t ≡ cancelled)
Reach-confirmed {t} r = ground (arith, Reach-leads_to r)
