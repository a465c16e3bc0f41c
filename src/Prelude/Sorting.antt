-- ===== src/Prelude/Sorting.antt =====
-- Python's `sorted`: stable, by an order on keys that is given as a test.
use Prim.Native.Nat.{ℕ, ◌+◌}
use mathlib.Core.Path.{◌≡◌, refl}
use mathlib.Core.Logic.{inl, inr}
use mathlib.Core.List.{List, [], ◌∷◌}
use mathlib.Core.Bool.{Bool, true, false}
use native.Mathlib.Omega.{arith}
use train_seat_booking_syste.Prelude.Tests.{Bool-cases, if◌then◌else◌}
use train_seat_booking_syste.Prelude.Lists.{All, Occurs}

module _ {A : Type 0} where
  -- An element goes before the first that is not less, so equals keep their order.
  abbrev pub place : (A → A → Bool) → A → List A → List A
  place le x [] = x ∷ []
  place le x (y ∷ ys) = if le x y then x ∷ y ∷ ys else y ∷ place le x ys

  abbrev pub sort : (A → A → Bool) → List A → List A
  sort le [] = []
  sort le (x ∷ xs) = place le x (sort le xs)

  -- Every element comes before all that follow it.
  abbrev pub IsSorted : (A → A → Bool) → List A → Type 0
  IsSorted le [] = Unit
  IsSorted le (x ∷ xs) = All (λ y. le x y ≡ true) xs × IsSorted le xs

  pub All-place :
      (P : A → Type 0) (le : A → A → Bool) (x : A) (xs : List A)
      → P x
      → All P xs
      → All P (place le x xs)
  All-place P le x [] p h = (p, tt)
  All-place P le x (y ∷ ys) p (q, h) = elim (Bool-cases (le x y)) [
    | inl e ↦ rw e (p, (q, h))
    | inr e ↦ rw e (q, All-place P le x ys p h)
  ]

  pub All-sort : (P : A → Type 0) (le : A → A → Bool) (xs : List A) → All P xs → All P (sort le xs)
  All-sort P le [] h = h
  All-sort P le (x ∷ xs) (p, h) = All-place P le x (sort le xs) p (All-sort P le xs h)

  abbrev pub count_if : (A → Bool) → List A → ℕ
  count_if p [] = 0
  count_if p (x ∷ xs) = (if p x then 1 else 0) + count_if p xs

  pub count_if-place :
      (p : A → Bool) (le : A → A → Bool) (x : A) (xs : List A)
      → count_if p (place le x xs) ≡ (if p x then 1 else 0) + count_if p xs
  count_if-place p le x [] = refl
  count_if-place p le x (y ∷ ys) = ground (arith, count_if-place p le x ys)

  pub count_if-sort :
      (p : A → Bool) (le : A → A → Bool) (xs : List A) → count_if p (sort le xs) ≡ count_if p xs
  count_if-sort p le [] = refl
  count_if-sort p le (x ∷ xs) =
      omega (arith, count_if-place p le x (sort le xs), count_if-sort p le xs)

  module _ (le : A → A → Bool) (total : (x y : A) → le x y ≡ false → le y x ≡ true)
      (trans : (x y z : A) → le x y ≡ true → le y z ≡ true → le x z ≡ true) where
    below :
        (x y : A) (ys : List A)
        → le x y ≡ true
        → All (λ z. le y z ≡ true) ys
        → All (λ z. le x z ≡ true) ys
    below x y [] e h = tt
    below x y (z ∷ zs) e (k, h) = (trans x y z e k, below x y zs e h)

    pub place-IsSorted : (x : A) (xs : List A) → IsSorted le xs → IsSorted le (place le x xs)
    place-IsSorted x [] h = (tt, tt)
    place-IsSorted x (y ∷ ys) (h, s) = elim (Bool-cases (le x y)) [
      | inl e ↦ rw e ((e, below x y ys e h), (h, s))
      | inr e ↦ rw e (All-place (λ z. le y z ≡ true) le x ys (total x y e) h, place-IsSorted x ys s)
    ]

    pub sort-IsSorted : (xs : List A) → IsSorted le (sort le xs)
    sort-IsSorted [] = tt
    sort-IsSorted (x ∷ xs) = place-IsSorted x (sort le xs) (sort-IsSorted xs)

  place-Occurs_inv :
      (le : A → A → Bool) (x a : A) (xs : List A) → Occurs a (place le x xs) → Occurs a (x ∷ xs)
  place-Occurs_inv le x a [] m = m
  place-Occurs_inv le x a (y ∷ ys) m = elim (Bool-cases (le x y)) [
    | inl e ↦ rw e at m
    | inr e ↦
        let m' : Occurs a (y ∷ place le x ys) = rw e at m in
        elim m' [
          | inl s ↦ inr (inl s)
          | inr k ↦ elim (place-Occurs_inv le x a ys k) [ inl s ↦ inl s | inr j ↦ inr (inr j) ]
        ]
  ]

  pub sort-Occurs_inv :
      (le : A → A → Bool) (a : A) (xs : List A) → Occurs a (sort le xs) → Occurs a xs
  sort-Occurs_inv le a [] m = m
  sort-Occurs_inv le a (x ∷ xs) m = elim (place-Occurs_inv le x a (sort le xs) m) [
    | inl s ↦ inl s
    | inr k ↦ inr (sort-Occurs_inv le a xs k)
  ]

module _ {A : Type 0} (le : A → A → Bool) (x : A) where
  place-Occurs_self : (xs : List A) → Occurs x (place le x xs)
  place-Occurs_self [] = inl refl
  place-Occurs_self (y ∷ ys) = elim (Bool-cases (le x y)) [
    | inl e ↦ rw e (inl refl)
    | inr e ↦ rw e (inr (place-Occurs_self ys))
  ]

  place-Occurs : (a : A) (xs : List A) → Occurs a xs → Occurs a (place le x xs)
  place-Occurs a [] m = absurd m
  place-Occurs a (y ∷ ys) (inl s) = elim (Bool-cases (le x y)) [
    | inl e ↦ rw e (inr (inl s))
    | inr e ↦ rw e (inl s)
  ]
  place-Occurs a (y ∷ ys) (inr m) = elim (Bool-cases (le x y)) [
    | inl e ↦ rw e (inr (inr m))
    | inr e ↦ rw e (inr (place-Occurs a ys m))
  ]

pub sort-Occurs :
    {A : Type 0} (le : A → A → Bool) (a : A) (xs : List A) → Occurs a xs → Occurs a (sort le xs)
sort-Occurs le a [] m = absurd m
sort-Occurs le a (x ∷ xs) (inl s) = rw s (place-Occurs_self le x (sort le xs))
sort-Occurs le a (x ∷ xs) (inr m) = place-Occurs le x a (sort le xs) (sort-Occurs le a xs m)
