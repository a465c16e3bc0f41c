-- ===== src/Domain/Packing/Depth/Sweep.antt =====
-- The sweep finds the largest number of legs over one position.
use train_seat_booking_syste.Prelude.{
  ℕ, ◌+◌, ◌≤◌, ◌<◌, ◌≡◌, refl, ◌∙◌, inl, inr, ◌⊎◌, Bool, true, false, ◌&&◌, ℤ, pos_part, neg_part,
  ◌≤ℤ◌, ◌+ℤ◌, ltb_ℤ, List, [], ◌∷◌, All, arith, leb, Bool-cases, if◌then◌else◌,
}
use train_seat_booking_syste.Prelude.Int.{+ℤ_parts}
use train_seat_booking_syste.Prelude.Sorting.{IsSorted, count_if}
use train_seat_booking_syste.Domain.Packing.Depth.{
  Delta, down, up, delta_value, Event, leb_event, max_ℤ, sweep,
}

abbrev pub is_up : Delta → Bool
is_up up = true
is_up down = false

abbrev pub is_down : Delta → Bool
is_down up = false
is_down down = true

-- the events up to a position
abbrev pub up_by : ℕ → Event → Bool
up_by x e = is_up e.delta && leb e.position x

abbrev pub down_by : ℕ → Event → Bool
down_by x e = is_down e.delta && leb e.position x

abbrev pub ups : ℕ → List Event → ℕ
ups x es = count_if (up_by x) es

abbrev pub downs : ℕ → List Event → ℕ
downs x es = count_if (down_by x) es

abbrev IsAfter : ℕ → Event → Type 0
IsAfter x e = x < e.position

-- The rest of a sorted list lies beyond, where its head does.
after :
    (x : ℕ) (e : Event) (es : List Event)
    → x < e.position
    → All (λ f. leb_event e f ≡ true) es
    → All (IsAfter x) es
after x e [] h s = tt
after x e (f ∷ es) h (k, s) = (ground arith, after x e es h s)

none_by : (x : ℕ) (es : List Event) → All (IsAfter x) es → (ups x es ≡ 0) × (downs x es ≡ 0)
none_by x [] h = (refl, refl)
none_by x (e ∷ es) (k, h) = let (u, d) = none_by x es h in (ground arith, ground arith)

pub peak-le-sweep : (depth peak : ℤ) (es : List Event) → peak ≤ℤ sweep depth peak es
unfolding sweep
peak-le-sweep depth peak [] = omega arith
peak-le-sweep depth peak (e ∷ es) =
    let depth' = depth +ℤ delta_value e.delta in
    ground (arith, peak-le-sweep depth' (max_ℤ peak depth') es)

max_ge : (a b : ℤ) → (a ≤ℤ max_ℤ a b) × (b ≤ℤ max_ℤ a b)
max_ge a b = elim (Bool-cases (ltb_ℤ a b)) [
  | inl e ↦ rw e (ground arith, omega arith)
  | inr e ↦ rw e (omega arith, ground arith)
]

counted :
    (x : ℕ) (e : Event)
    → leb e.position x ≡ true
    → (depth depth' result : ℤ) (u d : ℕ)
    → pos_part depth' + neg_part depth + neg_part (delta_value e.delta)
      ≡ neg_part depth' + pos_part depth + pos_part (delta_value e.delta)
    → pos_part depth' + u + neg_part result ≤ pos_part result + neg_part depth' + d
    → pos_part depth + ((if up_by x e then 1 else 0) + u) + neg_part result
      ≤ pos_part result + neg_part depth + ((if down_by x e then 1 else 0) + d)
counted x e k depth depth' result u d parts h = ground arith

uncounted :
    (x : ℕ) (e : Event)
    → leb e.position x ≡ false
    → (depth peak peak' result : ℤ) (u d : ℕ) → depth ≤ℤ peak
    → peak ≤ℤ peak'
    → peak' ≤ℤ result
    → u ≡ 0
    → d ≡ 0
    → pos_part depth + ((if up_by x e then 1 else 0) + u) + neg_part result
      ≤ pos_part result + neg_part depth + ((if down_by x e then 1 else 0) + d)
uncounted x e k depth peak peak' result u d h i j eu ed = ground arith

-- The depth at `x` is the depth so far, with the events up to `x`; it is at most the result.
pub sweep-ge :
    (x : ℕ) (depth peak : ℤ) (es : List Event)
    → IsSorted leb_event es
    → depth ≤ℤ peak
    → pos_part depth + ups x es + neg_part (sweep depth peak es)
      ≤ pos_part (sweep depth peak es) + neg_part depth + downs x es
unfolding sweep
sweep-ge x depth peak [] s h = omega arith
sweep-ge x depth peak (e ∷ es) (below, s) h =
    let depth' = depth +ℤ delta_value e.delta in
    let peak' = max_ℤ peak depth' in
    let (older, newer) = max_ge peak depth' in
    let parts = +ℤ_parts depth (delta_value e.delta) in
    elim (Bool-cases (leb e.position x)) [
      | inl k ↦
          counted x e k depth depth' (sweep depth' peak' es) (ups x es) (downs x es) parts
            (sweep-ge x depth' peak' es s newer)
      | inr k ↦
          let (u, d) = none_by x es (after x e es (ground arith) below) in
          uncounted x e k depth peak peak' (sweep depth' peak' es) (ups x es) (downs x es) h older
            (peak-le-sweep depth' peak' es) u d
    ]

-- After an event `up`, no event `down` of the same position follows.
no_downs :
    (e : Event) (es : List Event)
    → e.delta ≡ up
    → All (λ f. leb_event e f ≡ true) es
    → downs e.position es ≡ 0
no_downs e [] k s = refl
no_downs e (f ∷ es) k (h, s) = ground (arith, no_downs e es k s)

recounted :
    (x : ℕ) (e : Event)
    → leb e.position x ≡ true
    → (depth depth' result : ℤ) (u d : ℕ)
    → pos_part depth' + neg_part depth + neg_part (delta_value e.delta)
      ≡ neg_part depth' + pos_part depth + pos_part (delta_value e.delta)
    → pos_part result + neg_part depth' + d ≤ pos_part depth' + u + neg_part result
    → pos_part result + neg_part depth + ((if down_by x e then 1 else 0) + d)
      ≤ pos_part depth + ((if up_by x e then 1 else 0) + u) + neg_part result
recounted x e k depth depth' result u d parts h = ground arith

abbrev pub IsFrom : ℕ → Event → Type 0
IsFrom b e = b ≤ e.position

IsFrom-head :
    (e : Event) (es : List Event) → All (λ f. leb_event e f ≡ true) es → All (IsFrom e.position) es
IsFrom-head e [] s = tt
IsFrom-head e (f ∷ es) (h, s) = (ground arith, IsFrom-head e es s)

rises :
    (e : Event) (depth depth' peak : ℤ)
    → pos_part depth' + neg_part depth + neg_part (delta_value e.delta)
      ≡ neg_part depth' + pos_part depth + pos_part (delta_value e.delta)
    → depth ≤ℤ peak
    → ltb_ℤ peak depth' ≡ true
    → e.delta ≡ up
rises e depth depth' peak parts h k = ground arith

-- The result is the peak so far, or the depth at some position from `b` on.
abbrev pub IsReached : ℕ → ℤ → ℤ → List Event → ℤ → Type 0
IsReached b depth peak es result =
    (result ≡ peak)
    ⊎ ((x : ℕ) × (b ≤ x)
        × (pos_part result + neg_part depth + downs x es
            ≤ pos_part depth + ups x es + neg_part result))

risen :
    (b : ℕ) (e : Event) (es : List Event) (depth depth' peak result : ℤ)
    → b ≤ e.position
    → All (λ f. leb_event e f ≡ true) es
    → pos_part depth' + neg_part depth + neg_part (delta_value e.delta)
      ≡ neg_part depth' + pos_part depth + pos_part (delta_value e.delta)
    → e.delta ≡ up
    → result ≡ depth'
    → IsReached b depth peak (e ∷ es) result
risen b e es depth depth' peak result h below parts k r =
    inr (e.position, h, ground (arith, no_downs e es k below))

pub sweep-IsReached :
    (b : ℕ) (depth peak : ℤ) (es : List Event)
    → IsSorted leb_event es
    → All (IsFrom b) es
    → depth ≤ℤ peak
    → IsReached b depth peak es (sweep depth peak es)
unfolding sweep
sweep-IsReached b depth peak [] s f h = inl refl
sweep-IsReached b depth peak (e ∷ es) (below, s) (fe, f) h =
    let depth' = depth +ℤ delta_value e.delta in
    let peak' = max_ℤ peak depth' in
    let result = sweep depth' peak' es in
    let (older, newer) = max_ge peak depth' in
    let parts = +ℤ_parts depth (delta_value e.delta) in
    elim (sweep-IsReached e.position depth' peak' es s (IsFrom-head e es below) newer) [
      | inr (x, hx, reached) ↦ inr (
        x,
        omega arith,
        recounted x e (ground arith) depth depth' result (ups x es) (downs x es) parts reached,
      )
      | inl r ↦ elim (Bool-cases (ltb_ℤ peak depth')) [
        | inr k ↦ inl (r ∙ rw k)
        | inl k ↦
            risen b e es depth depth' peak result fe below parts
              (rises e depth depth' peak parts h k) (r ∙ rw k)
      ]
    ]
