-- ===== src/App/Stream/InOrder.antt =====
-- A stream with a broker that others use as well, and what its client receives.
use mathlib.Core.List.{append_assoc}
use train_seat_booking_syste.Prelude.{
  ℕ, ◌==◌, ◌≤◌, ◌<◌, ◌≡◌, ◌≢◌, refl, sym, ap, ◌∙◌, Bool, true, false, String, Option, none, some,
  List, [], ◌∷◌, ◌++◌, length, arith,
}
use train_seat_booking_syste.Ports.{AvailabilityEvent}
use train_seat_booking_syste.App.Stream.{
  Broker, subscribe, unsubscribe, publish_all, Frame, connected, Feed, Phase, created, live, ended,
  abandoned,
}
use train_seat_booking_syste.App.Stream.Frames.{
  uses, uses-append, uses-remove_other, put_all-subscribers, put_all-used, frames_of,
  frames_of-append,
}

abbrev pub WithinLimit : Option ℕ → ℕ → Type 0
WithinLimit none n = Unit
WithinLimit (some limit) n = n ≤ limit

-- The first frame, where it was not asked for.
abbrev greeting : Phase → List Frame
greeting created = connected ∷ []
greeting live = []
greeting ended = []
greeting abandoned = connected ∷ []

abbrev pub is_ended : Phase → Bool
is_ended created = false
is_ended live = false
is_ended ended = true
is_ended abandoned = false

-- The frames that are yet to be sent where the given events are pending.
abbrev pub due : Phase → String → List AvailabilityEvent → List Frame
due phase trip_id rest = greeting phase ++ frames_of trip_id rest

-- What holds of a stream and its broker after the given events were published.
pub record Follows (published : List AvailabilityEvent) (f : Feed) (b : Broker) : Type 0 where
  pub made : f.subscription < b.next
  pub rest : List AvailabilityEvent
  pub in_order : f.frames ++ due f.phase f.trip_id rest ≡ connected ∷ frames_of f.trip_id published
  pub pending : is_ended f.phase ≡ false → rest ≡ b.queues f.subscription
  pub listed : is_ended f.phase ≡ false → uses f.subscription b.subscribers ≡ 1
  pub unlisted : is_ended f.phase ≡ true → uses f.subscription b.subscribers ≡ 0
  pub counted : length f.frames ≡ f.sent
  pub unsent : f.phase ≡ created → f.sent ≡ 0
  pub allowed : WithinLimit f.limit 1
  pub bounded : WithinLimit f.limit f.sent

due-append :
    (phase : Phase) (t : String) (xs ys : List AvailabilityEvent)
    → due phase t (xs ++ ys) ≡ due phase t xs ++ frames_of t ys
due-append phase t xs ys =
    rw (frames_of-append t xs ys)
      (sym (append_assoc (greeting phase) (frames_of t xs) (frames_of t ys)))

pub announced-Follows :
    (published : List AvailabilityEvent) (e : AvailabilityEvent) (f : Feed) (b : Broker)
    → Follows published f b
    → Follows (published ++ e ∷ []) f (publish_all e b)
unfolding publish_all
announced-Follows published e f b h =
    let (same, next) = put_all-subscribers e b.subscribers b in
    let more = frames_of f.trip_id (e ∷ []) in
    record {
      made = rw next h.made;
      rest = h.rest ++ e ∷ [];
      in_order =
          ap (λ (l : List Frame). f.frames ++ l) (due-append f.phase f.trip_id h.rest (e ∷ []))
          ∙ sym (append_assoc f.frames (due f.phase f.trip_id h.rest) more)
          ∙ ap (λ (l : List Frame). l ++ more) h.in_order
          ∙ ap (λ (l : List Frame). connected ∷ l)
              (sym (frames_of-append f.trip_id published (e ∷ [])));
      pending = λ on.
          rw (h.pending on) (sym (put_all-used e f.subscription b.subscribers b (h.listed on)));
      listed = λ on. rw same (h.listed on);
      unlisted = λ off. rw same (h.unlisted off);
      counted = h.counted;
      unsent = h.unsent;
      allowed = h.allowed;
      bounded = h.bounded;
    }

pub joined-Follows :
    (published : List AvailabilityEvent) (f : Feed) (b : Broker)
    → Follows published f b
    → Follows published f (subscribe b).1
unfolding subscribe
joined-Follows published f b h =
    let made = h.made in
    let other : (b.next == f.subscription) ≡ false = ground arith in
    let other' : (f.subscription == b.next) ≡ false = ground arith in
    let same : uses f.subscription (b.subscribers ++ b.next ∷ [])
        ≡ uses f.subscription b.subscribers =
      uses-append f.subscription b.next b.subscribers ∙ ground arith in
    record {
      made = omega arith;
      rest = h.rest;
      in_order = h.in_order;
      pending = λ on. h.pending on ∙ rw other' refl;
      listed = λ on. same ∙ h.listed on;
      unlisted = λ off. same ∙ h.unlisted off;
      counted = h.counted;
      unsent = h.unsent;
      allowed = h.allowed;
      bounded = h.bounded;
    }

pub left-Follows :
    (published : List AvailabilityEvent) (i : ℕ) (f : Feed) (b : Broker)
    → f.subscription ≢ i
    → Follows published f b
    → Follows published f (unsubscribe i b)
unfolding unsubscribe
left-Follows published i f b other h =
    let same = uses-remove_other f.subscription i b.subscribers other in
    record {
      made = h.made;
      rest = h.rest;
      in_order = h.in_order;
      pending = h.pending;
      listed = λ on. same ∙ h.listed on;
      unlisted = λ off. same ∙ h.unlisted off;
      counted = h.counted;
      unsent = h.unsent;
      allowed = h.allowed;
      bounded = h.bounded;
    }
