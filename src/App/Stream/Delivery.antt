-- ===== src/App/Stream/Delivery.antt =====
-- What the client of a stream has received after any course of events.
use mathlib.Core.List.{append_assoc, append-nil}
use train_seat_booking_syste.Prelude.{
  ℕ, ◌<◌, ◌≡◌, ◌≢◌, refl, sym, ◌∙◌, Bool, true, String, Option, none, some, ap, List, [], ◌∷◌, ◌++◌,
  ◌⊎◌, All, length, arith, Bool-cases, inl, inr,
}
use train_seat_booking_syste.Ports.{AvailabilityEvent}
use train_seat_booking_syste.App.Stream.{
  Broker, subscribe, connected, Feed, trip_stream, turn, take_event, Action, announced, turned,
  joined, left, closed, close, turn_in, close_in, Phase, created, live, ended, abandoned, act,
  run_stream,
}
use train_seat_booking_syste.App.Stream.Frames.{uses, uses-append, uses-made, frames_of}
use train_seat_booking_syste.App.Stream.InOrder.{
  WithinLimit, is_ended, due, Follows, announced-Follows, joined-Follows, left-Follows,
}
use train_seat_booking_syste.App.Stream.Turns.{turn-Follows, close-Follows}

-- The events that were published, in order.
abbrev pub announced_of : List Action → List AvailabilityEvent
announced_of [] = []
announced_of (announced e ∷ actions) = e ∷ announced_of actions
announced_of (turned disconnected ∷ actions) = announced_of actions
announced_of (closed ∷ actions) = announced_of actions
announced_of (joined ∷ actions) = announced_of actions
announced_of (left i ∷ actions) = announced_of actions

-- Not the end of the given subscription by another client.
abbrev pub IsOther : ℕ → Action → Type 0
IsOther i (announced e) = Unit
IsOther i (turned disconnected) = Unit
IsOther i closed = Unit
IsOther i joined = Unit
IsOther i (left j) = i ≢ j

abbrev IsSame : Feed → Feed → Type 0
IsSame f g = (f.trip_id ≡ g.trip_id) × (f.limit ≡ g.limit) × (f.subscription ≡ g.subscription)

take_event-IsSame :
    (q : List AvailabilityEvent) (f : Feed) (b : Broker) → IsSame (take_event q f b).0 f
take_event-IsSame [] f b = (refl, refl, refl)
take_event-IsSame (e ∷ q) f b = (ground arith, ground arith, ground arith)

turn_in-IsSame :
    (phase : Phase) (disconnected : Bool) (f : Feed) (b : Broker)
    → IsSame (turn_in phase disconnected f b).0 f
turn_in-IsSame created disconnected f b = (refl, refl, refl)
turn_in-IsSame live disconnected f b =
    let (t, l, s) = take_event-IsSame (b.queues f.subscription) f b in
    (ground arith, ground arith, ground arith)
turn_in-IsSame ended disconnected f b = (refl, refl, refl)
turn_in-IsSame abandoned disconnected f b = (refl, refl, refl)

close_in-IsSame : (phase : Phase) (f : Feed) (b : Broker) → IsSame (close_in phase f b).0 f
close_in-IsSame created f b = (refl, refl, refl)
close_in-IsSame live f b = (refl, refl, refl)
close_in-IsSame ended f b = (refl, refl, refl)
close_in-IsSame abandoned f b = (refl, refl, refl)

act-IsSame : (a : Action) (f : Feed) (b : Broker) → IsSame (act a (f, b)).0 f
unfolding act turn close
act-IsSame (announced e) f b = (refl, refl, refl)
act-IsSame (turned disconnected) f b = turn_in-IsSame f.phase disconnected f b
act-IsSame closed f b = close_in-IsSame f.phase f b
act-IsSame joined f b = (refl, refl, refl)
act-IsSame (left i) f b = (refl, refl, refl)

act-Follows :
    (published : List AvailabilityEvent) (a : Action) (f : Feed) (b : Broker)
    → IsOther f.subscription a
    → Follows published f b
    → Follows (published ++ announced_of (a ∷ [])) (act a (f, b)).0 (act a (f, b)).1
unfolding act
act-Follows published (announced e) f b other h = announced-Follows published e f b h
act-Follows published (turned disconnected) f b other h =
    rw (append-nil published) (turn-Follows published disconnected f b h)
act-Follows published closed f b other h = rw (append-nil published) (close-Follows published f b h)
act-Follows published joined f b other h =
    rw (append-nil published) (joined-Follows published f b h)
act-Follows published (left i) f b other h =
    rw (append-nil published) (left-Follows published i f b other h)

announced_of-step :
    (a : Action) (actions : List Action)
    → announced_of (a ∷ actions) ≡ announced_of (a ∷ []) ++ announced_of actions
announced_of-step (announced e) actions = refl
announced_of-step (turned disconnected) actions = refl
announced_of-step closed actions = refl
announced_of-step joined actions = refl
announced_of-step (left i) actions = refl

run_stream-Follows :
    (actions : List Action) (published : List AvailabilityEvent) (f : Feed) (b : Broker)
    → All (IsOther f.subscription) actions
    → Follows published f b
    → Follows
        (published ++ announced_of actions)
        (run_stream actions (f, b)).0
        (run_stream actions (f, b)).1
      × IsSame (run_stream actions (f, b)).0 f
unfolding run_stream
run_stream-Follows [] published f b others h = (rw (append-nil published) h, (refl, refl, refl))
run_stream-Follows (a ∷ actions) published f b (other, others) h =
    let (t, l, s) = act-IsSame a f b in
    let (follows, (t', l', s')) =
      run_stream-Follows actions (published ++ announced_of (a ∷ [])) (act a (f, b)).0
        (act a (f, b)).1 (rw s others) (act-Follows published a f b other h) in
    (
      rw
          (
            announced_of-step a actions,
            sym (append_assoc published (announced_of (a ∷ [])) (announced_of actions)),
          )
          follows,
      (t' ∙ t, l' ∙ l, s' ∙ s),
    )

-- The state of a stream of the trip once the events were published.
abbrev pub IsDelivered : String → Option ℕ → ℕ → List AvailabilityEvent → Feed × Broker → Type 0
IsDelivered trip_id limit subscription published (f, b) =
    (rest : List AvailabilityEvent) × (f.frames ++ due f.phase trip_id rest
      ≡ connected ∷ frames_of trip_id published)
    × WithinLimit limit (length f.frames)
    × (((f.phase ≡ ended) × (uses subscription b.subscribers ≡ 0))
        ⊎ ((f.phase ≢ ended)
            × (uses subscription b.subscribers ≡ 1)
            × (rest ≡ b.queues subscription)))

is_ended-eq-true : (p : Phase) → is_ended p ≡ true → p ≡ ended
is_ended-eq-true created e = absurd (ground arith)
is_ended-eq-true live e = absurd (ground arith)
is_ended-eq-true ended e = refl
is_ended-eq-true abandoned e = absurd (ground arith)

Follows-IsDelivered :
    (published : List AvailabilityEvent) (f : Feed) (b : Broker) (trip_id : String)
    (limit : Option ℕ) (subscription : ℕ)
    → f.trip_id ≡ trip_id
    → f.limit ≡ limit
    → f.subscription ≡ subscription
    → Follows published f b
    → IsDelivered trip_id limit subscription published (f, b)
Follows-IsDelivered published f b trip_id limit subscription t l s h =
    rw⁻¹ (t, l, s)
      (
        h.rest,
        h.in_order,
        rw h.counted h.bounded,
        elim (Bool-cases (is_ended f.phase)) [
          | inl off ↦ inl (is_ended-eq-true f.phase off, h.unlisted off)
          | inr on ↦
              inr (λ e. absurd (let o = ap is_ended e in ground arith), h.listed on, h.pending on)
        ],
      )

none_sent : (limit : Option ℕ) → WithinLimit limit 0
none_sent none = tt
none_sent (some limit) = omega arith

trip_stream-Follows :
    (b : Broker) (trip_id : String) (limit : Option ℕ)
    → All (λ i. i < b.next) b.subscribers
    → WithinLimit limit 1
    → Follows [] (trip_stream trip_id limit b).0 (trip_stream trip_id limit b).1
unfolding trip_stream subscribe
trip_stream-Follows b trip_id limit made allowed = record {
  made = omega arith;
  rest = [];
  in_order = refl;
  pending = λ on. ground arith;
  listed = λ on.
      uses-append b.next b.next b.subscribers ∙ ground (arith, uses-made b.next b.subscribers made);
  unlisted = λ off. absurd (ground arith);
  counted = refl;
  unsent = λ c. refl;
  allowed = allowed;
  bounded = none_sent limit;
}

-- Let a client open the stream of a trip, with a limit of at least one frame or none, and let events
-- be published, the generator be asked for its next step or closed, and other clients come and go, in
-- any order. The frames sent are the greeting and then events of the trip, each once, in the order in
-- which they were published since, without a gap and within the limit. Where the generator has ended,
-- the broker has dropped its queue. Where it has not, also where it was closed before its first
-- frame, the broker still feeds the queue, which holds the events that were not yet taken.
pub stream_lem :
    (b : Broker) (trip_id : String) (limit : Option ℕ) (actions : List Action)
    → All (λ i. i < b.next) b.subscribers
    → WithinLimit limit 1
    → All (IsOther b.next) actions
    → IsDelivered trip_id limit b.next
        (announced_of actions)
        (run_stream actions (trip_stream trip_id limit b))
unfolding trip_stream subscribe
stream_lem b trip_id limit actions made allowed others =
    let start = trip_stream trip_id limit b in
    let (h, (t, l, s)) =
      run_stream-Follows actions [] start.0 start.1 others
        (trip_stream-Follows b trip_id limit made allowed) in
    Follows-IsDelivered (announced_of actions) (run_stream actions start).0
      (run_stream actions start).1 trip_id limit b.next t l s h
