-- ===== src/Domain/Packing/Choose.antt =====
-- The choice of a seat: complete, sound and best-fit.
use train_seat_booking_syste.Prelude.{
  ℕ, zero, suc, ◌+◌, ◌≤◌, ◌<◌, ◌≡◌, refl, subst, ◌↔◌, ◌⊎◌, inl, inr, true, false, Option, none,
  some, List, [], ◌∷◌, arith, get_elem?, ltb, Bool-cases, Option-cases, if◌then◌else◌,
}
use train_seat_booking_syste.Domain.Stations.{Leg}
use train_seat_booking_syste.Domain.Packing.{
  occupied_span, is_taken, better, choose_from, choose_seat,
}

-- A choice that is at least as full as a seat of span `span` at position `i`, and comes first
-- where it is as full.
abbrev Dominates : Option (ℕ × ℕ) → ℕ → ℕ → Type 0
Dominates none span i = ⊥
Dominates (some (b, best_span)) span i = (span ≤ best_span) × (span ≡ best_span → b ≤ i)

abbrev IsBefore : Option (ℕ × ℕ) → ℕ → Type 0
IsBefore none idx = Unit
IsBefore (some (b, best_span)) idx = b < idx

-- the choice after one more seat
abbrev step : ℕ → Option (ℕ × ℕ) → List Leg → Leg → Option (ℕ × ℕ)
step idx best s leg = if is_taken leg s then best else better idx (occupied_span s) best

module _ (leg : Leg) where
  step-IsBefore :
      (idx : ℕ) (best : Option (ℕ × ℕ)) (s : List Leg)
      → IsBefore best idx
      → IsBefore (step idx best s leg) (suc idx)
  step-IsBefore idx best s h = ground arith

  step-Dominates :
      (idx : ℕ) (best : Option (ℕ × ℕ)) (s : List Leg) (span i : ℕ)
      → i < idx
      → Dominates best span i
      → Dominates (step idx best s leg) span i
  step-Dominates idx best s span i lt h = ground arith

  step-Dominates_self :
      (idx : ℕ) (best : Option (ℕ × ℕ)) (s : List Leg)
      → IsBefore best idx
      → is_taken leg s ≡ false
      → Dominates (step idx best s leg) (occupied_span s) idx
  step-Dominates_self idx best s b h = ground arith

  -- What a choice dominates, the choice after the remaining seats dominates too.
  choose_from-keeps :
      (idx : ℕ) (best : Option (ℕ × ℕ)) (seats : List (List Leg)) (span i : ℕ)
      → i < idx
      → Dominates best span i
      → Dominates (choose_from idx best seats leg) span i
  unfolding choose_from
  choose_from-keeps idx best [] span i lt h = h
  choose_from-keeps idx best (s ∷ seats) span i lt h =
      choose_from-keeps (suc idx) (step idx best s leg) seats span i (omega arith)
        (step-Dominates idx best s span i lt h)

  choose_from-Dominates :
      (idx : ℕ) (best : Option (ℕ × ℕ)) (seats : List (List Leg)) (i : ℕ) (s : List Leg)
      → IsBefore best idx
      → get_elem? seats i ≡ some s
      → is_taken leg s ≡ false
      → Dominates (choose_from idx best seats leg) (occupied_span s) (idx + i)
  unfolding choose_from
  choose_from-Dominates idx best [] i s b e f = ground arith
  choose_from-Dominates idx best (t ∷ seats) zero s b e f =
      choose_from-keeps (suc idx) (step idx best t leg) seats (occupied_span s) (idx + 0)
        (omega arith) (ground arith)
  choose_from-Dominates idx best (t ∷ seats) (suc i) s b e f =
      subst (Dominates (choose_from (suc idx) (step idx best t leg) seats leg) (occupied_span s))
        (omega arith)
        (choose_from-Dominates (suc idx) (step idx best t leg) seats i s
          (step-IsBefore idx best t b) e f)

  -- A choice is one that was given, or a free seat of the list with its span.
  choose_from_sound :
      (idx : ℕ) (best : Option (ℕ × ℕ)) (seats : List (List Leg)) (c span : ℕ)
      → choose_from idx best seats leg ≡ some (c, span)
      → (best ≡ some (c, span))
        ⊎ ((i : ℕ) × (s : List Leg) × (c ≡ idx + i)
            × (get_elem? seats i ≡ some s)
            × (is_taken leg s ≡ false)
            × (occupied_span s ≡ span))
  unfolding choose_from
  choose_from_sound idx best [] c span e = inl e
  choose_from_sound idx best (s ∷ seats) c span e =
      go (choose_from_sound (suc idx) (step idx best s leg) seats c span e)
    where
      go :
          (step idx best s leg ≡ some (c, span))
            ⊎ ((i : ℕ) × (t : List Leg) × (c ≡ suc idx + i)
                × (get_elem? seats i ≡ some t)
                × (is_taken leg t ≡ false)
                × (occupied_span t ≡ span))
          → (best ≡ some (c, span))
            ⊎ ((i : ℕ) × (t : List Leg) × (c ≡ idx + i)
                × (get_elem? (s ∷ seats) i ≡ some t)
                × (is_taken leg t ≡ false)
                × (occupied_span t ≡ span))
      go (inl h) = elim (Bool-cases (is_taken leg s)) [
        | inl k ↦ inl (ground arith)
        | inr f ↦ elim (Option-cases best) [
          | inl n ↦ inr (0, s, ground arith, refl, f, ground arith)
          | inr (b, n) ↦ elim (Bool-cases (ltb b.1 (occupied_span s))) [
            | inl k ↦ inr (0, s, ground arith, refl, f, ground arith)
            | inr k ↦ inl (ground arith)
          ]
        ]
      ]
      go (inr (i, t, ec, et, ft, st)) = inr (suc i, t, omega arith, et, ft, st)

  module _ (seats : List (List Leg)) where
    none-taken :
        choose_seat seats leg ≡ none
        → (i : ℕ) (s : List Leg) → get_elem? seats i ≡ some s
        → is_taken leg s ≡ true
    unfolding choose_seat
    none-taken e i s g = elim (Bool-cases (is_taken leg s)) [
      | inl k ↦ k
      | inr f ↦ ground (arith, choose_from-Dominates 0 none seats i s tt g f)
    ]

    chosen :
        (c : ℕ)
        → choose_seat seats leg ≡ some c
        → (span : ℕ) × (choose_from 0 none seats leg ≡ some (c, span))
    unfolding choose_seat
    chosen c e = elim (Option-cases (choose_from 0 none seats leg)) [
      | inl n ↦ ground arith
      | inr (b, n) ↦ (b.1, ground arith)
    ]

    chosen-free :
        (c span : ℕ)
        → choose_from 0 none seats leg ≡ some (c, span)
        → (s : List Leg) × (get_elem? seats c ≡ some s)
          × (is_taken leg s ≡ false)
          × (occupied_span s ≡ span)
    chosen-free c span e = elim (choose_from_sound 0 none seats c span e) [
      | inl n ↦ ground arith
      | inr (i, s, ec, g, f, sp) ↦ let eq : c ≡ i = omega arith in (s, rw eq g, f, sp)
    ]

    taken-none :
        ((i : ℕ) (s : List Leg) → get_elem? seats i ≡ some s → is_taken leg s ≡ true)
        → choose_seat seats leg ≡ none
    taken-none all = elim (Option-cases (choose_seat seats leg)) [
      | inl n ↦ n
      | inr (c, e) ↦
          let (span, e') = chosen c e in let (s, g, f, sp) = chosen-free c span e' in cc (all c s g)
    ]

    chosen-best :
        (c span i : ℕ) (t : List Leg)
        → choose_from 0 none seats leg ≡ some (c, span)
        → get_elem? seats i ≡ some t
        → is_taken leg t ≡ false
        → (occupied_span t ≤ span) × (occupied_span t ≡ span → c ≤ i)
    chosen-best c span i t e g f = ground (arith, choose_from-Dominates 0 none seats i t tt g f)

-- `choose_seat` finds no seat exactly where every seat has a leg that overlaps the new one.
pub choose_seat-eq-none_iff :
    (seats : List (List Leg)) (leg : Leg)
    → (choose_seat seats leg ≡ none)
      ↔ ((i : ℕ) (s : List Leg) → get_elem? seats i ≡ some s → is_taken leg s ≡ true)
choose_seat-eq-none_iff seats leg = (none-taken leg seats, taken-none leg seats)

-- A seat that `choose_seat` finds is one of the seats, and free over the leg; no free seat is fuller,
-- and a free seat that is as full does not come before it.
pub choose_seat-best :
    (seats : List (List Leg)) (leg : Leg) (c : ℕ)
    → choose_seat seats leg ≡ some c
    → (s : List Leg) × (get_elem? seats c ≡ some s)
      × (is_taken leg s ≡ false)
      × ((i : ℕ) (t : List Leg)
          → get_elem? seats i ≡ some t
          → is_taken leg t ≡ false
          → (occupied_span t ≤ occupied_span s) × (occupied_span t ≡ occupied_span s → c ≤ i))
choose_seat-best seats leg c e =
    let (span, e') = chosen leg seats c e in
    let (s, g, f, sp) = chosen-free leg seats c span e' in
    (s, g, f, λ i t g' f'. rw sp (chosen-best leg seats c span i t e' g' f'))
