-- ===== src/App/Stream.antt =====
-- backend/slr/adapters/sse_publisher.py and backend/slr/app/routes/stream.py: the broker and the stream
-- that it feeds. A queue has a number for its identity; `publish` runs to its end before another call
-- of the broker, and a frame holds the object that `json.dumps` prints.
pub mod Frames
pub mod InOrder
pub mod Turns
pub mod Delivery
use train_seat_booking_syste.Prelude.{
  ℕ, suc, ◌+◌, ◌==◌, ltb, bool_not, Bool, true, false, ◌||◌, String, Option, none, some, List, [],
  ◌∷◌, ◌++◌, str_eq, if◌then◌else◌,
}
use train_seat_booking_syste.Domain.Values.{status_value}
use train_seat_booking_syste.Domain.Stations.{Leg}
use train_seat_booking_syste.Ports.{AvailabilityEvent}

-- `SsePublisher`, with the queues that it has made, also those that it no longer feeds
pub record Broker : Type 0 where
  pub subscribers : List ℕ
  pub queues : ℕ → List AvailabilityEvent
  pub next : ℕ

abbrev pub set_queue : ℕ → List AvailabilityEvent → Broker → Broker
set_queue i q b = record b { queues = λ j. if j == i then q else b.queues j }

unfoldable pub subscribe : Broker → ℕ × Broker
subscribe b = (
  b.next,
  record {
    subscribers = b.subscribers ++ b.next ∷ [];
    queues = λ j. if j == b.next then [] else b.queues j;
    next = suc b.next;
  },
)

-- `self._subscribers.remove(stream)`, and nothing where it is not there
unfoldable pub remove : ℕ → List ℕ → List ℕ
remove i [] = []
remove i (j ∷ js) = let rest = remove i js in if j == i then js else j ∷ rest

unfoldable pub unsubscribe : ℕ → Broker → Broker
unsubscribe i b = record b { subscribers = remove i b.subscribers }

-- `stream.put(event)`
abbrev pub put : AvailabilityEvent → ℕ → Broker → Broker
put e i b = set_queue i (b.queues i ++ e ∷ []) b

unfoldable pub put_all : AvailabilityEvent → List ℕ → Broker → Broker
put_all e [] b = b
put_all e (i ∷ is) b = put_all e is (put e i b)

-- `SsePublisher.publish`
unfoldable pub publish_all : AvailabilityEvent → Broker → Broker
publish_all e b = put_all e b.subscribers b

pub record Payload : Type 0 where
  pub trip_id : String
  pub seat_id : String
  pub origin_seq : ℕ
  pub dest_seq : ℕ
  pub status : String

pub data Frame : Type 0 where
  connected : Frame
  availability : Payload → Frame

abbrev pub payload_of : AvailabilityEvent → Payload
payload_of e = record {
  trip_id = e.trip_id;
  seat_id = e.seat_id;
  origin_seq = e.leg.origin_seq;
  dest_seq = e.leg.dest_seq;
  status = status_value e.status;
}

-- Where the generator of `trip_stream` is: made and not started, in its loop, ended with its
-- `finally` clause run, or closed before it was started, when none of its body runs.
pub data Phase : Type 0 where
  created : Phase
  live : Phase
  ended : Phase
  abandoned : Phase

-- The stream, with its frames and their number.
pub record Feed : Type 0 where
  pub trip_id : String
  pub limit : Option ℕ
  pub subscription : ℕ
  pub phase : Phase
  pub frames : List Frame
  pub sent : ℕ

-- `trip_stream`: it subscribes, and makes the generator.
unfoldable pub trip_stream : String → Option ℕ → Broker → Feed × Broker
trip_stream trip_id limit b =
    let (subscription, b') = subscribe b in
    (
      record {
        trip_id = trip_id;
        limit = limit;
        subscription = subscription;
        phase = created;
        frames = [];
        sent = 0;
      },
      b',
    )

-- `not (limit is None or sent < limit)`
abbrev pub is_spent : Option ℕ → ℕ → Bool
is_spent none sent = false
is_spent (some limit) sent = bool_not (ltb sent limit)

abbrev pub emit : Frame → Feed → Feed
emit frame f = record f { frames = f.frames ++ frame ∷ []; sent = f.sent + 1 }

abbrev pub take_event : List AvailabilityEvent → Feed → Broker → Feed × Broker
take_event [] f b = (f, b)
take_event (e ∷ rest) f b =
    let b' = set_queue f.subscription rest b in
    if str_eq e.trip_id f.trip_id then (emit (availability (payload_of e)) f, b') else (f, b')

-- the generator leaves its `try`
abbrev pub end_feed : Feed → Broker → Feed × Broker
end_feed f b = (record f { phase = ended }, unsubscribe f.subscription b)

-- One turn of the loop of `events`, with the answer of `is_disconnected`.
abbrev pub loop : Bool → Feed → Broker → Feed × Broker
loop disconnected f b =
    if is_spent f.limit f.sent || disconnected
    then end_feed f b
    else take_event (b.queues f.subscription) f b

abbrev pub turn_in : Phase → Bool → Feed → Broker → Feed × Broker
turn_in created disconnected f b = (emit connected (record f { phase = live }), b)
turn_in live disconnected f b = loop disconnected f b
turn_in ended disconnected f b = (f, b)
turn_in abandoned disconnected f b = (f, b)

-- The next step of `events`, where it is asked for one: its first frame, or a turn of its loop.
unfoldable pub turn : Bool → Feed → Broker → Feed × Broker
turn disconnected f b = turn_in f.phase disconnected f b

abbrev pub close_in : Phase → Feed → Broker → Feed × Broker
close_in created f b = (record f { phase = abandoned }, b)
close_in live f b = end_feed f b
close_in ended f b = (f, b)
close_in abandoned f b = (f, b)

-- The connection is dropped and the generator closed where it is: a generator that has not started
-- runs nothing of its body, also not `finally`.
unfoldable pub close : Feed → Broker → Feed × Broker
close f b = close_in f.phase f b

-- What the broker and the stream see happen, in any order: an event is published, the generator is
-- asked for its next step or closed, and other clients come and go.
pub data Action : Type 0 where
  announced : AvailabilityEvent → Action
  turned : Bool → Action
  closed : Action
  joined : Action
  left : ℕ → Action

unfoldable pub act : Action → Feed × Broker → Feed × Broker
act (announced e) (f, b) = (f, publish_all e b)
act (turned disconnected) (f, b) = turn disconnected f b
act closed (f, b) = close f b
act joined (f, b) = (f, (subscribe b).1)
act (left i) (f, b) = (f, unsubscribe i b)

unfoldable pub run_stream : List Action → Feed × Broker → Feed × Broker
run_stream [] s = s
run_stream (a ∷ actions) s = run_stream actions (act a s)
