-- ===== src/World.antt =====
-- The state that a use case runs against, and the actions on it: the store of
-- backend/slr/adapters/memory_repo.py with its unit of work, and what the recording adapters keep
-- (memory_publisher.py, memory_notifier.py, fake_payment.py, seq_ids.py).
pub mod Atomic
use train_seat_booking_syste.Prelude.{
  ℕ, suc, ◌+◌, Bool, String, ℤ, Option, none, some, List, [], ◌∷◌, ◌++◌, length, str_eq,
  if◌then◌else◌,
}
use train_seat_booking_syste.Prelude.Dict.{Dict, lookup}
use train_seat_booking_syste.Domain.Errors.{Error, Result, ok, err, key_error, payment_declined}
use train_seat_booking_syste.Domain.Values.{BookingStatus}
use train_seat_booking_syste.Ports.{Hold, Trip, AvailabilityEvent, PaymentResult, Deps}
use train_seat_booking_syste.MemoryRepo

-- `_Store`
pub record Store (F : Type 0) : Type 0 where
  pub holds : Dict Hold
  pub trips : Dict (Trip F)

-- One message of the notifier: recipient, event and detail.
pub record Message : Type 0 where
  pub recipient : String
  pub event : String
  pub detail : List (String × String)

-- `events`, `sent` and `charges` grow at their ends. `issued` and `referenced` count the ids and
-- references that the generators have given.
pub record World (F : Type 0) : Type 0 where
  pub store : Store F
  pub snapshot : Option (Store F)
  pub events : List AvailabilityEvent
  pub sent : List Message
  pub charges : List (String × ℤ)
  pub issued : ℕ
  pub referenced : ℕ

-- What was written before a raise stays written: the world comes back beside the error.
abbrev pub Exec : Type 0 → Type 0 → Type 0
Exec F A = World F → Result A × World F

module _ {F : Type 0} where
  module _ {A : Type 0} where
    abbrev pub pure : A → Exec F A
    pure a w = (ok a, w)

    abbrev pub raise : Error → Exec F A
    raise e w = (err e, w)

    abbrev pub lift : Result A → Exec F A
    lift r w = (r, w)

  infixl 5 ◌>>=◌ ◌>>◌
  abbrev pub ◌>>=◌ : {A B : Type 0} → Exec F A → (A → Exec F B) → Exec F B
  ◌>>=◌ m f w = let (r, w') = m w in elim r [ ok a ↦ f a w' | err e ↦ raise e w' ]

  abbrev pub ◌>>◌ : {A B : Type 0} → Exec F A → Exec F B → Exec F B
  m >> k = m >>= λ _. k

  -- `MemoryUnitOfWork.__enter__`: the snapshot of the store.
  abbrev pub enter : World F → World F
  enter w = record w { snapshot = some w.store }

  abbrev pub rollback : World F → World F
  rollback w = elim w.snapshot [ none ↦ w | some s ↦ record w { store = s; snapshot = none } ]

  abbrev pub commit : Exec F (Unit {0})
  commit w = (ok tt, record w { snapshot = none })

  -- `with deps.uow as uow:` leaves by `__exit__`, which rolls back what is not committed.
  unfoldable pub with_uow : {A : Type 0} → Exec F A → Exec F A
  with_uow body w = let (r, w') = body (enter w) in (r, rollback w')

  -- `uow.trips.get(trip_id)`
  unfoldable pub get_trip : Dict (Trip F) → String → Result (Trip F)
  get_trip trips trip_id = elim (lookup trip_id trips) [ some t ↦ ok t | none ↦ err key_error ]

  abbrev pub trip_of : String → Exec F (Trip F)
  trip_of trip_id w = (get_trip w.store.trips trip_id, w)

  abbrev pub booking_of : String → Exec F Hold
  booking_of booking_id w = (MemoryRepo.get w.store.holds booking_id, w)

  abbrev pub gets_holds : {A : Type 0} → (Dict Hold → A) → Exec F A
  gets_holds f w = (ok (f w.store.holds), w)

  abbrev pub put_holds : World F → Dict Hold → World F
  put_holds w d = record w { store = record { holds = d; trips = w.store.trips } }

  abbrev pub expire_due : ℤ → Exec F (List Hold)
  expire_due now w =
      let (due, d) = MemoryRepo.expire_due w.store.holds now in (ok due, put_holds w d)

  abbrev pub add_hold : Hold → Exec F (Unit {0})
  add_hold hold w = elim (MemoryRepo.add_hold w.store.holds hold) [
    | ok d ↦ (ok tt, put_holds w d)
    | err e ↦ (err e, w)
  ]

  abbrev pub set_status : String → BookingStatus → Exec F Hold
  set_status booking_id status w = elim (MemoryRepo.set_status w.store.holds booking_id status) [
    | ok (h, d) ↦ (ok h, put_holds w d)
    | err e ↦ (err e, w)
  ]

  -- memory_publisher.py, memory_notifier.py
  abbrev pub publish : AvailabilityEvent → Exec F (Unit {0})
  publish event w = (ok tt, record w { events = w.events ++ event ∷ [] })

  abbrev pub notify : String → String → List (String × String) → Exec F (Unit {0})
  notify recipient event detail w =
      let m : Message = record { recipient = recipient; event = event; detail = detail } in
      (ok tt, record w { sent = w.sent ++ m ∷ [] })

  -- fake_payment.py records the charge before it answers; the answer is the gateway's, and may
  -- differ from charge to charge.
  abbrev pub charge : Deps F → String → ℤ → Exec F PaymentResult
  charge deps reference amount w = (
    ok (deps.answer (length w.charges) reference amount),
    record w { charges = w.charges ++ (reference, amount) ∷ [] },
  )

  -- seq_ids.py counts before it formats.
  abbrev pub new_id : Deps F → Exec F String
  new_id deps w = (ok (deps.nth_id (w.issued + 1)), record w { issued = w.issued + 1 })

  abbrev pub new_reference : Deps F → Exec F String
  new_reference deps w =
      (ok (deps.nth_reference (w.referenced + 1)), record w { referenced = w.referenced + 1 })
