-- ===== src/SqlRepo/Queries/Agree.antt =====
-- The queries agree with those of the fake repository.
use train_seat_booking_syste.Prelude.{
  Bool, ◌≡◌, ◌↔◌, refl, sym, ap, ◌∙◌, subst, List, [], ◌∷◌, map, length, suc, select, select-Occurs,
  select-Occurs_inv, Occurs, map-Occurs, map-Occurs_inv, All, inl, inr, arith, Bool-cases,
}
use train_seat_booking_syste.Domain.Errors.{ok}
use train_seat_booking_syste.Domain.Stations.{IsForward}
use train_seat_booking_syste.Ports.{Hold}
use train_seat_booking_syste.SqlRepo.{BookingRow, to_hold, to_row, each}
use train_seat_booking_syste.SqlRepo.RoundTrip.{to_hold-to_row}
use train_seat_booking_syste.SqlRepo.Queries.{Scalars, IsSelection}

abbrev pub AllForward : List Hold → Type 0
AllForward = All (λ h. IsForward h.leg)

pub AllForward-Occurs : (h : Hold) (hs : List Hold) → AllForward hs → Occurs h hs → IsForward h.leg
AllForward-Occurs h [] f m = absurd m
AllForward-Occurs h (g ∷ hs) (p, f) (inl e) = subst (λ (x : Hold). IsForward x.leg) (sym e) p
AllForward-Occurs h (g ∷ hs) (p, f) (inr m) = AllForward-Occurs h hs f m

-- The same holds, as often, in an order of their own.
abbrev pub HasHolds : List Hold → List Hold → Type 0
HasHolds found holds =
    ((h : Hold) → Occurs h found ↔ Occurs h holds) × (length found ≡ length holds)

each-to_hold_cons :
    (h : Hold) (found : List Hold) (r : BookingRow) (rows : List BookingRow)
    → to_hold r ≡ ok h
    → each to_hold rows ≡ ok found
    → each to_hold (r ∷ rows) ≡ ok (h ∷ found)
unfolding each
each-to_hold_cons h found r rows e f = rw e (rw f refl)

each-to_hold_nil : each to_hold [] ≡ ok []
unfolding each
each-to_hold_nil = refl

-- Rows that are all written from holds are read back as those holds.
each-to_hold_lem :
    (hs : List Hold) (rows : List BookingRow)
    → AllForward hs
    → ((r : BookingRow) → Occurs r rows → (h : Hold) × Occurs h hs × (r ≡ to_row h))
    → (found : List Hold) × (each to_hold rows ≡ ok found)
      × (map to_row found ≡ rows)
      × ((h : Hold) → Occurs h found → Occurs h hs)
each-to_hold_lem hs [] f from = ([], each-to_hold_nil, refl, λ h m. absurd m)
each-to_hold_lem hs (r ∷ rows) f from =
    let (h, at, made) = from r (inl refl) in
    let (found, read, back, known) = each-to_hold_lem hs rows f (λ s m. from s (inr m)) in
    let one : to_hold r ≡ ok h = ap to_hold made ∙ to_hold-to_row h (AllForward-Occurs h hs f at) in
    (
      h ∷ found,
      each-to_hold_cons h found r rows one read,
      cons_path h r found rows made back,
      λ g m. now_or_then g h found hs at known m,
    )
  where
    cons_path :
        (h : Hold) (r : BookingRow) (found : List Hold) (rows : List BookingRow)
        → r ≡ to_row h
        → map to_row found ≡ rows
        → ◌≡◌ {A = List BookingRow} (to_row h ∷ map to_row found) (r ∷ rows)
    cons_path h r found rows e b = rw e (ap (λ t. to_row h ∷ t) b)

    now_or_then :
        (g h : Hold) (found hs : List Hold)
        → Occurs h hs
        → ((k : Hold) → Occurs k found → Occurs k hs)
        → Occurs g (h ∷ found)
        → Occurs g hs
    now_or_then g h found hs at known (inl e) = subst (λ x. Occurs x hs) (sym e) at
    now_or_then g h found hs at known (inr m) = known g m

to_row-injective : (g h : Hold) → IsForward g.leg → IsForward h.leg → to_row g ≡ to_row h → g ≡ h
to_row-injective g h fg fh e =
    let same = sym (to_hold-to_row g fg) ∙ ap to_hold e ∙ to_hold-to_row h fh in
    ground (arith, same)

-- Rows that are those of some holds, in whatever order, are read back as these holds.
pub read_back :
    (hs : List Hold) (rows : List BookingRow)
    → AllForward hs
    → ((r : BookingRow) → Occurs r rows → (h : Hold) × Occurs h hs × (r ≡ to_row h))
    → ((h : Hold) → Occurs h hs → Occurs (to_row h) rows)
    → length rows ≡ length hs
    → (found : List Hold) × (each to_hold rows ≡ ok found) × HasHolds found hs
read_back hs rows f from all count =
    let (found, read, back, known) = each-to_hold_lem hs rows f from in
    (
      found,
      read,
      (
        λ h. (
          known h,
          λ m.
              let (g, at, same) =
                map-Occurs_inv to_row (to_row h) found
                  (subst (Occurs (to_row h)) (sym back) (all h m)) in
              subst (λ x. Occurs x found)
                (sym (
                  to_row-injective h g (AllForward-Occurs h hs f m)
                    (AllForward-Occurs g hs f (known g at)) same))
                at,
        ),
        length-map found ∙ ap length back ∙ count,
      ),
    )
  where
    length-map : (hs : List Hold) → length hs ≡ length (map to_row hs)
    length-map [] = refl
    length-map (h ∷ hs) = ap (λ n. suc n) (length-map hs)

module _ (scalars : Scalars) (law : IsSelection scalars) (p : Hold → Bool) (q : BookingRow → Bool)
    (agree : (h : Hold) → q (to_row h) ≡ p h) where
  pub length-select_rows :
      (hs : List Hold) → length (select q (map to_row hs)) ≡ length (select p hs)
  length-select_rows [] = refl
  length-select_rows (h ∷ hs) = elim (Bool-cases (p h)) [
    | inl e ↦ rw (agree h, e) (ap (λ n. suc n) (length-select_rows hs))
    | inr e ↦ rw (agree h, e) (length-select_rows hs)
  ]

  pub select-AllForward : (hs : List Hold) → AllForward hs → AllForward (select p hs)
  select-AllForward [] f = tt
  select-AllForward (h ∷ hs) (g, f) = elim (Bool-cases (p h)) [
    | inl e ↦ rw e (g, select-AllForward hs f)
    | inr e ↦ rw e (select-AllForward hs f)
  ]

  pub selected_from :
      (hs : List Hold) (r : BookingRow)
      → Occurs r (scalars q (map to_row hs))
      → (h : Hold) × Occurs h (select p hs) × (r ≡ to_row h)
  selected_from hs r m =
      let (at, t) = (law.selected q (map to_row hs) r).0 m in
      let (h, stored, made) = map-Occurs_inv to_row r hs at in
      (h, select-Occurs p h hs (sym (agree h) ∙ sym (ap q made) ∙ t) stored, made)

  pub selected_all :
      (hs : List Hold) (h : Hold)
      → Occurs h (select p hs)
      → Occurs (to_row h) (scalars q (map to_row hs))
  selected_all hs h m =
      let (at, t) = select-Occurs_inv p h hs m in
      (law.selected q (map to_row hs) (to_row h)).1 (map-Occurs to_row h hs at, agree h ∙ t)

  pub query_lem :
      (hs : List Hold)
      → AllForward hs
      → (found : List Hold) × (each to_hold (scalars q (map to_row hs)) ≡ ok found)
        × HasHolds found (select p hs)
  query_lem hs f =
      read_back (select p hs) (scalars q (map to_row hs)) (select-AllForward hs f)
        (selected_from hs) (selected_all hs) (law.counted q (map to_row hs) ∙ length-select_rows hs)
