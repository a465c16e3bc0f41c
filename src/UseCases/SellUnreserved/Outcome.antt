-- ===== src/UseCases/SellUnreserved/Outcome.antt =====
-- What `sell_unreserved` returns and leaves behind.
use train_seat_booking_syste.Prelude.{ℤ, arith, inl, inr, Option-cases}
use train_seat_booking_syste.Ports.{Hold, Deps}
use train_seat_booking_syste.MemoryRepo.Exclusive.{
  IsExclusive, expire_due-IsExclusive, add_hold-IsExclusive,
}
use train_seat_booking_syste.World.{World, enter}
use train_seat_booking_syste.World.Atomic.{IsGood, IsSafe, IsKept, with_uow-IsKept}
use train_seat_booking_syste.UseCases.HoldSeat.{replayed}
use train_seat_booking_syste.UseCases.SellUnreserved.{
  SaleRequest, ring_up, replay_sale, new_sale, sell_body, sell_unreserved,
}

module _ {F : Type 0} (deps : Deps F) (now : ℤ) (r : SaleRequest) (w : World F) where
  ring_up-IsGood : IsExclusive w.store.holds → IsGood w (ring_up deps now r (enter w))
  unfolding ring_up
  ring_up-IsGood x = grind (arith, expire_due-IsExclusive, add_hold-IsExclusive)

  new_sale-IsSafe : IsExclusive w.store.holds → IsSafe w (new_sale deps now r (enter w)).1
  unfolding new_sale
  new_sale-IsSafe x = ground (arith, ring_up-IsGood x)

  replay_sale-IsSafe : (h : Hold) → IsSafe w (replay_sale now h (enter w)).1
  unfolding replay_sale
  replay_sale-IsSafe h = ground arith

  sell_body-IsSafe : IsExclusive w.store.holds → IsSafe w (sell_body deps now r (enter w)).1
  unfolding sell_body
  sell_body-IsSafe x = elim (Option-cases (replayed w.store.holds r.reference)) [
    | inl e ↦ ground (arith, new_sale-IsSafe x)
    | inr (h, e) ↦ ground (arith, replay_sale-IsSafe h)
  ]

  pub sell_unreserved-IsKept : IsExclusive w.store.holds → IsKept w (sell_unreserved deps now r w).1
  unfolding sell_unreserved
  sell_unreserved-IsKept x = with_uow-IsKept (sell_body deps now r) w x (sell_body-IsSafe x)
