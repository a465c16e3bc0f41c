-- ===== src/App/Stream/Frames.antt =====
-- The frames that events give a stream, and the queues that the broker puts them in.
use train_seat_booking_syste.Prelude.{
  ℕ, suc, ◌+◌, ◌==◌, ◌<◌, ◌≡◌, ◌≢◌, refl, ◌∙◌, String, List, [], ◌∷◌, ◌++◌, All, str_eq, arith,
  Bool-cases, inl, inr, if◌then◌else◌,
}
use train_seat_booking_syste.Domain.Values.{status_value}
use train_seat_booking_syste.Ports.{AvailabilityEvent}
use train_seat_booking_syste.App.Stream.{Broker, remove, put, put_all, Frame, availability}

-- How often a queue is among the subscribers.
abbrev pub uses : ℕ → List ℕ → ℕ
uses i [] = 0
uses i (j ∷ js) = let rest = uses i js in if j == i then suc rest else rest

pub uses-append : (i j : ℕ) (js : List ℕ) → uses i (js ++ j ∷ []) ≡ uses i js + uses i (j ∷ [])
uses-append i j [] = omega arith
uses-append i j (k ∷ js) = ground (arith, uses-append i j js)

pub uses-remove_self : (i : ℕ) (js : List ℕ) → uses i js ≡ 1 → uses i (remove i js) ≡ 0
unfolding remove
uses-remove_self i [] h = absurd (omega arith)
uses-remove_self i (k ∷ js) h = elim (Bool-cases (k == i)) [
  | inl e ↦ ground arith
  | inr e ↦ let ih = uses-remove_self i js (ground arith) in ground arith
]

pub uses-remove_other : (i j : ℕ) (js : List ℕ) → i ≢ j → uses i (remove j js) ≡ uses i js
unfolding remove
uses-remove_other i j [] h = refl
uses-remove_other i j (k ∷ js) h = ground (arith, uses-remove_other i j js h)

pub uses-made : (n : ℕ) (js : List ℕ) → All (λ j. j < n) js → uses n js ≡ 0
uses-made n [] h = refl
uses-made n (j ∷ js) (below, h) = ground (arith, uses-made n js h)

pub put_all-subscribers :
    (e : AvailabilityEvent) (is : List ℕ) (b : Broker)
    → ((put_all e is b).subscribers ≡ b.subscribers) × ((put_all e is b).next ≡ b.next)
unfolding put_all
put_all-subscribers e [] b = (refl, refl)
put_all-subscribers e (i ∷ is) b = put_all-subscribers e is (put e i b)

pub put_all-unused :
    (e : AvailabilityEvent) (i : ℕ) (is : List ℕ) (b : Broker)
    → uses i is ≡ 0
    → (put_all e is b).queues i ≡ b.queues i
unfolding put_all
put_all-unused e i [] b h = refl
put_all-unused e i (j ∷ is) b h = put_all-unused e i is (put e j b) (ground arith) ∙ ground arith

pub put_all-used :
    (e : AvailabilityEvent) (i : ℕ) (is : List ℕ) (b : Broker)
    → uses i is ≡ 1
    → (put_all e is b).queues i ≡ b.queues i ++ e ∷ []
unfolding put_all
put_all-used e i [] b h = absurd (omega arith)
put_all-used e i (j ∷ is) b h = elim (Bool-cases (j == i)) [
  | inl same ↦
      let eq : j ≡ i = ground arith in
      put_all-unused e i is (put e j b) (ground arith) ∙ rw eq (ground arith)
  | inr other ↦ put_all-used e i is (put e j b) (ground arith) ∙ ground arith
]

-- The frames that a list of events gives the stream of a trip: for each event of the trip its seat,
-- the ends of its leg and its status.
abbrev pub frames_of : String → List AvailabilityEvent → List Frame
frames_of t [] = []
frames_of t (e ∷ es) =
    let rest = frames_of t es in
    let own : Frame = availability (record {
      trip_id = t;
      seat_id = e.seat_id;
      origin_seq = e.leg.origin_seq;
      dest_seq = e.leg.dest_seq;
      status = status_value e.status;
    }) in
    if str_eq e.trip_id t then own ∷ rest else rest

pub frames_of-append :
    (t : String) (xs ys : List AvailabilityEvent)
    → frames_of t (xs ++ ys) ≡ frames_of t xs ++ frames_of t ys
frames_of-append t [] ys = refl
frames_of-append t (e ∷ xs) ys = ground (arith, frames_of-append t xs ys)
