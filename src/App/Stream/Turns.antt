-- ===== src/App/Stream/Turns.antt =====
-- The generator of a stream, step by step.
use mathlib.Core.List.{append_assoc}
use train_seat_booking_syste.Prelude.{
  ℕ, ◌+◌, ◌≡◌, refl, sym, subst, ap, ◌∙◌, Bool, true, false, ◌||◌, ◌⊎◌, Option, none, some, List,
  [], ◌∷◌, ◌++◌, length-append, str_eq, eq_iff, arith, Bool-cases, inl, inr,
}
use train_seat_booking_syste.Ports.{AvailabilityEvent}
use train_seat_booking_syste.App.Stream.{
  Broker, unsubscribe, set_queue, connected, availability, payload_of, Feed, is_spent, emit, Phase,
  created, live, ended, abandoned, loop, end_feed, close, close_in, turn, turn_in, take_event,
}
use train_seat_booking_syste.App.Stream.Frames.{uses-remove_self, frames_of}
use train_seat_booking_syste.App.Stream.InOrder.{WithinLimit, is_ended, due, Follows}

WithinLimit-suc : (limit : Option ℕ) (n : ℕ) → is_spent limit n ≡ false → WithinLimit limit (n + 1)
WithinLimit-suc none n h = tt
WithinLimit-suc (some limit) n h = ground arith

-- A stream in its loop.
module _ (published : List AvailabilityEvent) (f : Feed) (b : Broker) (h : Follows published f b)
    (on : f.phase ≡ live) where
  live_order : f.frames ++ frames_of f.trip_id h.rest ≡ connected ∷ frames_of f.trip_id published
  live_order = let o = h.in_order in rw on at o

  end_feed-Follows : Follows published (end_feed f b).0 (end_feed f b).1
  unfolding unsubscribe
  end_feed-Follows = record {
    made = h.made;
    rest = h.rest;
    in_order = live_order;
    pending = λ e. absurd (ground arith);
    listed = λ e. absurd (ground arith);
    unlisted = λ e. uses-remove_self f.subscription b.subscribers (h.listed (ap is_ended on));
    counted = h.counted;
    unsent = λ e. absurd (ground arith);
    allowed = h.allowed;
    bounded = h.bounded;
  }

  module _ (e : AvailabilityEvent) (q : List AvailabilityEvent)
      (queue : b.queues f.subscription ≡ e ∷ q) where
    queued : h.rest ≡ e ∷ q
    queued = h.pending (ap is_ended on) ∙ queue

    skipped-Follows :
        str_eq e.trip_id f.trip_id ≡ false → Follows published f (set_queue f.subscription q b)
    skipped-Follows other = record {
      made = h.made;
      rest = q;
      in_order =
          ap (λ phase. f.frames ++ due phase f.trip_id q) on
          ∙ ap (λ l. f.frames ++ l) (ground (arith, queued))
          ∙ live_order;
      pending = λ o. ground arith;
      listed = h.listed;
      unlisted = h.unlisted;
      counted = h.counted;
      unsent = h.unsent;
      allowed = h.allowed;
      bounded = h.bounded;
    }

    sent-Follows :
        is_spent f.limit f.sent ≡ false
        → str_eq e.trip_id f.trip_id ≡ true
        → Follows published (emit (availability (payload_of e)) f) (set_queue f.subscription q b)
    sent-Follows more own = record {
      made = h.made;
      rest = q;
      in_order =
          ap (λ phase. (f.frames ++ availability (payload_of e) ∷ []) ++ due phase f.trip_id q) on
          ∙ append_assoc f.frames (availability (payload_of e) ∷ []) (frames_of f.trip_id q)
          ∙ ap (λ l. f.frames ++ l) (ground (arith, eq_iff e.trip_id f.trip_id, queued))
          ∙ live_order;
      pending = λ o. ground arith;
      listed = h.listed;
      unlisted = h.unlisted;
      counted =
          length-append f.frames (availability (payload_of e) ∷ []) ∙ ground (arith, h.counted);
      unsent = λ c. absurd (ground arith);
      allowed = h.allowed;
      bounded = WithinLimit-suc f.limit f.sent more;
    }

take_event-Follows :
    (published q : List AvailabilityEvent) (f : Feed) (b : Broker)
    → Follows published f b
    → f.phase ≡ live
    → is_spent f.limit f.sent ≡ false
    → b.queues f.subscription ≡ q
    → Follows published (take_event q f b).0 (take_event q f b).1
take_event-Follows published [] f b h on more queue = h
take_event-Follows published (e ∷ q) f b h on more queue =
    elim (Bool-cases (str_eq e.trip_id f.trip_id)) [
      | inl own ↦ rw own (sent-Follows published f b h on e q queue more own)
      | inr other ↦ rw other (skipped-Follows published f b h on e q queue other)
    ]

loop-Follows :
    (published : List AvailabilityEvent) (disconnected : Bool) (f : Feed) (b : Broker)
    → Follows published f b
    → f.phase ≡ live
    → Follows published (loop disconnected f b).0 (loop disconnected f b).1
loop-Follows published disconnected f b h on =
    elim (Bool-cases (is_spent f.limit f.sent || disconnected)) [
      | inl stop ↦ rw stop (end_feed-Follows published f b h on)
      | inr go ↦
          rw go
            (take_event-Follows published (b.queues f.subscription) f b h on (ground arith) refl)
    ]

-- A stream that has not started.
module _ (published : List AvailabilityEvent) (f : Feed) (b : Broker) (h : Follows published f b)
    (new : f.phase ≡ created) where
  new_order :
      f.frames ++ connected ∷ frames_of f.trip_id h.rest ≡ connected ∷ frames_of f.trip_id published
  new_order = let o = h.in_order in rw new at o

  start-Follows : Follows published (emit connected (record f { phase = live })) b
  start-Follows = record {
    made = h.made;
    rest = h.rest;
    in_order = append_assoc f.frames (connected ∷ []) (frames_of f.trip_id h.rest) ∙ new_order;
    pending = λ o. h.pending (ap is_ended new);
    listed = λ o. h.listed (ap is_ended new);
    unlisted = λ o. absurd (ground arith);
    counted = length-append f.frames (connected ∷ []) ∙ ground (arith, h.counted);
    unsent = λ c. absurd (ground arith);
    allowed = h.allowed;
    bounded = let nothing = h.unsent new in rw nothing h.allowed;
  }

  abandon-Follows : Follows published (record f { phase = abandoned }) b
  abandon-Follows = record {
    made = h.made;
    rest = h.rest;
    in_order = new_order;
    pending = λ o. h.pending (ap is_ended new);
    listed = λ o. h.listed (ap is_ended new);
    unlisted = λ o. absurd (ground arith);
    counted = h.counted;
    unsent = λ c. absurd (ground arith);
    allowed = h.allowed;
    bounded = h.bounded;
  }

Phase-cases : (p : Phase) → (p ≡ created) ⊎ (p ≡ live) ⊎ (p ≡ ended) ⊎ (p ≡ abandoned)
Phase-cases created = inl refl
Phase-cases live = inr (inl refl)
Phase-cases ended = inr (inr (inl refl))
Phase-cases abandoned = inr (inr (inr refl))

Follows-subst :
    (published : List AvailabilityEvent) {s t : Feed × Broker}
    → s ≡ t
    → Follows published s.0 s.1
    → Follows published t.0 t.1
Follows-subst published e h = subst (λ (s : Feed × Broker). Follows published s.0 s.1) e h

pub turn-Follows :
    (published : List AvailabilityEvent) (disconnected : Bool) (f : Feed) (b : Broker)
    → Follows published f b
    → Follows published (turn disconnected f b).0 (turn disconnected f b).1
unfolding turn
turn-Follows published disconnected f b h =
    let at = λ (r : Phase). turn_in r disconnected f b in
    elim (Phase-cases f.phase) [
      | inl p ↦ Follows-subst published (sym (ap at p)) (start-Follows published f b h p)
      | inr (inl p) ↦
          Follows-subst published (sym (ap at p)) (loop-Follows published disconnected f b h p)
      | inr (inr (inl p)) ↦ Follows-subst published (sym (ap at p)) h
      | inr (inr (inr p)) ↦ Follows-subst published (sym (ap at p)) h
    ]

pub close-Follows :
    (published : List AvailabilityEvent) (f : Feed) (b : Broker)
    → Follows published f b
    → Follows published (close f b).0 (close f b).1
unfolding close
close-Follows published f b h =
    let at = λ (r : Phase). close_in r f b in
    elim (Phase-cases f.phase) [
      | inl p ↦ Follows-subst published (sym (ap at p)) (abandon-Follows published f b h p)
      | inr (inl p) ↦ Follows-subst published (sym (ap at p)) (end_feed-Follows published f b h p)
      | inr (inr (inl p)) ↦ Follows-subst published (sym (ap at p)) h
      | inr (inr (inr p)) ↦ Follows-subst published (sym (ap at p)) h
    ]
