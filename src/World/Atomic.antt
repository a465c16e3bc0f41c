-- ===== src/World/Atomic.antt =====
-- Transactions: what a use case that raises leaves behind.
use train_seat_booking_syste.Prelude.{◌≡◌, ◌⊎◌, inl, none, some, arith}
use train_seat_booking_syste.Domain.Errors.{Result, ok, err}
use train_seat_booking_syste.MemoryRepo.Exclusive.{IsExclusive}
use train_seat_booking_syste.World.{World, Exec, enter, with_uow}

-- How the body of a transaction may leave the world: as it is to be rolled back, or committed with
-- an exclusive store and the trips as they were.
abbrev pub IsSafe : {F : Type 0} → World F → World F → Type 0
IsSafe w w' =
    (w'.snapshot ≡ some w.store)
    ⊎ ((w'.snapshot ≡ none) × IsExclusive w'.store.holds × (w'.store.trips ≡ w.store.trips))

-- A transaction keeps the store exclusive, leaves the trips alone, and is over afterwards.
pub record IsKept {F : Type 0} (w w' : World F) : Type 0 where
  pub exclusive : IsExclusive w'.store.holds
  pub same_trips : w'.store.trips ≡ w.store.trips
  pub closed : w'.snapshot ≡ none

module _ {F A : Type 0} where
  -- A body that commits nothing when it raises.
  abbrev pub IsGood : World F → Result A × World F → Type 0
  IsGood w (ok a, w') = IsSafe w w'
  IsGood w (err e, w') = w'.snapshot ≡ some w.store

  -- A transaction that raises leaves the store as it was.
  abbrev pub KeepsStoreOnError : World F → Result A × World F → Type 0
  KeepsStoreOnError w (ok a, w') = Unit
  KeepsStoreOnError w (err e, w') = w'.store ≡ w.store

  pub IsGood-IsSafe : (w : World F) (o : Result A × World F) → IsGood w o → IsSafe w o.1
  IsGood-IsSafe w (ok a, w') h = h
  IsGood-IsSafe w (err e, w') h = inl h

  pub with_uow-KeepsStoreOnError :
      (body : Exec F A) (w : World F)
      → IsGood w (body (enter w))
      → KeepsStoreOnError w (with_uow body w)
  unfolding with_uow
  with_uow-KeepsStoreOnError body w h = ground arith

  pub with_uow-IsKept :
      (body : Exec F A) (w : World F)
      → IsExclusive w.store.holds
      → IsSafe w (body (enter w)).1
      → IsKept w (with_uow body w).1
  unfolding with_uow
  with_uow-IsKept body w x h = ground arith
