-- ===== src/Tests/Streams.antt =====
-- A stream of four frames at most, beside another client, and the theorem about it there.
use train_seat_booking_syste.Prelude.{
  ◌≡◌, refl, String, none, some, List, [], ◌∷◌, arith, false, true,
}
use train_seat_booking_syste.Domain.Values.{BookingStatus, held, cancelled, confirmed}
use train_seat_booking_syste.Ports.{AvailabilityEvent}
use train_seat_booking_syste.App.Stream.{
  Broker, subscribe, remove, unsubscribe, put_all, publish_all, connected, availability, payload_of,
  trip_stream, turn, Action, announced, turned, closed, close, joined, left, act, run_stream,
}
use train_seat_booking_syste.App.Stream.Delivery.{announced_of, IsDelivered, stream_lem}
use train_seat_booking_syste.Tests.Sample.{leg}

abbrev event : String → String → BookingStatus → AvailabilityEvent
event trip_id seat_id status = record {
  trip_id = trip_id;
  seat_id = seat_id;
  leg = leg 0 2;
  status = status;
}

-- One client is there already.
abbrev broker : Broker
broker = record { subscribers = 0 ∷ []; queues = λ i. []; next = 1 }

abbrev course : List Action
course =
    announced (event "T" "R1A" held)
    ∷ joined
    ∷ turned false
    ∷ announced (event "U" "R1A" held)
    ∷ turned false
    ∷ turned false
    ∷ announced (event "T" "R1A" confirmed)
    ∷ left 2
    ∷ turned false
    ∷ turned false
    ∷ announced (event "T" "R1A" cancelled)
    ∷ turned true
    ∷ []

stream_run :
    (run_stream course (trip_stream "T" (some 4) broker)).0.frames
    ≡ connected
      ∷ availability (payload_of (event "T" "R1A" held))
      ∷ availability (payload_of (event "T" "R1A" confirmed))
      ∷ []
unfolding run_stream act turn trip_stream subscribe unsubscribe remove publish_all put_all
stream_run = refl

subscribers_after : (run_stream course (trip_stream "T" (some 4) broker)).1.subscribers ≡ 0 ∷ []
unfolding run_stream act turn trip_stream subscribe unsubscribe remove publish_all put_all
subscribers_after = refl

stream_lem_example :
    IsDelivered "T"
      (some 4)
      1
      (announced_of course)
      (run_stream course (trip_stream "T" (some 4) broker))
stream_lem_example =
    stream_lem broker "T" (some 4) course (omega arith, tt) (omega arith)
      (
        tt,
        (tt, (tt, (tt, (tt, (tt, (tt, (λ e. absurd (omega arith), (tt, (tt, (tt, (tt, tt))))))))))),
      )

-- The same, but for the client who is gone before the first frame.
leaked :
    (run_stream (closed ∷ turned true ∷ []) (trip_stream "T" none broker)).1.subscribers
    ≡ 0 ∷ 1 ∷ []
unfolding run_stream act turn close trip_stream subscribe
leaked = refl
