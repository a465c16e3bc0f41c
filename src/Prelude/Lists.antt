-- ===== src/Prelude/Lists.antt =====
-- Lists measured by native numbers, with the loops and comprehensions of Python over them.
use Prim.Native.Nat.{ℕ, zero, suc, ◌+◌, ◌≤◌}
use mathlib.Core.Path.{◌≡◌, refl, ap}
use mathlib.Core.Logic.{◌⊎◌, inl, inr}
use mathlib.Core.List.{List, [], ◌∷◌, ◌++◌, map}
use mathlib.Core.Option.{Option, none, some}
use mathlib.Core.Bool.{Bool, true, false}
use native.Mathlib.Omega.{arith}
use train_seat_booking_syste.Prelude.Tests.{Bool-cases, if◌then◌else◌}

module _ {ℓ} {A : Type ℓ} where
  -- `len(xs)`
  abbrev pub length : List A → ℕ
  length [] = 0
  length (x ∷ xs) = suc (length xs)

  abbrev pub get_elem? : List A → ℕ → Option A
  get_elem? [] i = none
  get_elem? (x ∷ xs) zero = some x
  get_elem? (x ∷ xs) (suc i) = get_elem? xs i

  -- `xs[:n]`
  abbrev pub take : ℕ → List A → List A
  take zero xs = []
  take (suc n) [] = []
  take (suc n) (x ∷ xs) = x ∷ take n xs

  -- `[x for x in xs if p(x)]`
  abbrev pub select : (A → Bool) → List A → List A
  select p [] = []
  select p (x ∷ xs) = if p x then x ∷ select p xs else select p xs

  -- `next((x for x in xs if p(x)), None)`
  abbrev pub find : (A → Bool) → List A → Option A
  find p [] = none
  find p (x ∷ xs) = if p x then some x else find p xs

  -- `any(p(x) for x in xs)`
  abbrev pub any : (A → Bool) → List A → Bool
  any p [] = false
  any p (x ∷ xs) = if p x then true else any p xs

  -- Every element satisfies `P`.
  abbrev pub All {κ} : (A → Type κ) → List A → Type κ
  All P [] = Unit
  All P (x ∷ xs) = P x × All P xs

  pub length-append : (xs ys : List A) → length (xs ++ ys) ≡ length xs + length ys
  length-append [] ys = omega arith
  length-append (x ∷ xs) ys = omega (arith, length-append xs ys)

  pub length-select-le : (p : A → Bool) (xs : List A) → length (select p xs) ≤ length xs
  length-select-le p [] = omega arith
  length-select-le p (x ∷ xs) = ground (arith, length-select-le p xs)

module _ {A : Type 0} where
  -- The element occurs in the list, at a position that is kept.
  abbrev pub Occurs : A → List A → Type 0
  Occurs a [] = ⊥
  Occurs a (x ∷ xs) = (a ≡ x) ⊎ Occurs a xs

  pub select-Occurs :
      (p : A → Bool) (a : A) (xs : List A) → p a ≡ true → Occurs a xs → Occurs a (select p xs)
  select-Occurs p a [] h m = m
  select-Occurs p a (x ∷ xs) h (inl e) = ground arith
  select-Occurs p a (x ∷ xs) h (inr m) = ground (arith, select-Occurs p a xs h m)

  pub select-Occurs_inv :
      (p : A → Bool) (a : A) (xs : List A) → Occurs a (select p xs) → Occurs a xs × (p a ≡ true)
  select-Occurs_inv p a [] m = absurd m
  select-Occurs_inv p a (x ∷ xs) m = elim (Bool-cases (p x)) [
    | inr e ↦
        let m' : Occurs a (select p xs) = rw e at m in
        let (at, t) = select-Occurs_inv p a xs m' in (inr at, t)
    | inl e ↦
        let m' : Occurs a (x ∷ select p xs) = rw e at m in
        elim m' [
          | inl same ↦ (inl same, rw same e)
          | inr k ↦ let (at, t) = select-Occurs_inv p a xs k in (inr at, t)
        ]
  ]

  pub any-false :
      (p : A → Bool) (a : A) (xs : List A) → any p xs ≡ false → Occurs a xs → p a ≡ false
  any-false p a [] h m = elim m [ ]
  any-false p a (x ∷ xs) h (inl e) = ground arith
  any-false p a (x ∷ xs) h (inr m) = any-false p a xs (ground arith) m

  pub find-some :
      (p : A → Bool) (xs : List A) {a : A} → find p xs ≡ some a → (p a ≡ true) × Occurs a xs
  find-some p [] h = ground arith
  find-some p (x ∷ xs) {a} h = elim (Bool-cases (p x)) [
    | inl e ↦ ground arith
    | inr e ↦ let ih = find-some p xs {a = a} (ground arith) in (ih.0, inr ih.1)
  ]

  pub append-Occurs_inv : (a : A) (xs ys : List A) → Occurs a (xs ++ ys) → Occurs a xs ⊎ Occurs a ys
  append-Occurs_inv a [] ys m = inr m
  append-Occurs_inv a (x ∷ xs) ys (inl e) = inl (inl e)
  append-Occurs_inv a (x ∷ xs) ys (inr m) = elim (append-Occurs_inv a xs ys m) [
    | inl l ↦ inl (inr l)
    | inr r ↦ inr r
  ]

  pub append-Occurs_left : (a : A) (xs ys : List A) → Occurs a xs → Occurs a (xs ++ ys)
  append-Occurs_left a [] ys m = absurd m
  append-Occurs_left a (x ∷ xs) ys (inl e) = inl e
  append-Occurs_left a (x ∷ xs) ys (inr m) = inr (append-Occurs_left a xs ys m)

  pub append-Occurs_right : (a : A) (xs ys : List A) → Occurs a ys → Occurs a (xs ++ ys)
  append-Occurs_right a [] ys m = m
  append-Occurs_right a (x ∷ xs) ys m = inr (append-Occurs_right a xs ys m)

module _ {A B : Type 0} (f : A → B) where
  pub map-Occurs : (a : A) (xs : List A) → Occurs a xs → Occurs (f a) (map f xs)
  map-Occurs a [] m = absurd m
  map-Occurs a (x ∷ xs) (inl e) = inl (ap f e)
  map-Occurs a (x ∷ xs) (inr m) = inr (map-Occurs a xs m)

  pub map-Occurs_inv :
      (b : B) (xs : List A) → Occurs b (map f xs) → (a : A) × Occurs a xs × (b ≡ f a)
  map-Occurs_inv b [] m = absurd m
  map-Occurs_inv b (x ∷ xs) (inl e) = (x, inl refl, e)
  map-Occurs_inv b (x ∷ xs) (inr m) = let (a, at, e) = map-Occurs_inv b xs m in (a, inr at, e)
