-- ===== src/Lib.antt =====
-- Train seat booking: a model of the booking backend (backend/slr) and the theorems that make it
-- correct.
--
-- The program sells seats of dated trips by leg. A trip is a train on a line of stations; a leg is a
-- half-open interval of station positions, so one seat serves many passengers in turn. Pure rules
-- (backend/slr/domain) are read by use cases (backend/slr/usecases), each a transaction over the
-- repositories that the ports describe (backend/slr/ports); the adapters (backend/slr/adapters)
-- implement the ports.
--
-- Prelude            what the modules share: Boolean tests, integers, lists, sorting, dictionaries,
--                    digits
-- Domain/Errors      domain/errors.py: `Error`, and `Result` for what may raise
-- Domain/Values      domain/values.py: statuses, coach types, classes
-- Domain/Stations    domain/stations.py: `Leg`, `overlaps`, `is_adjacent`, `contains`, distances
-- Domain/BookingSm   domain/booking_sm.py: `apply`, `can_apply`, with the step relation
-- Domain/Timetable   domain/timetable.py: stops, `serves`, `leg_times`, `format_hhmm`
-- Domain/Calendar    domain/timetable.py: the rules on dates, over the library's dates as a parameter
-- Domain/Policy      domain/policy.py: seat cap and velocity limit
-- Domain/Abuse       domain/abuse.py: the score
-- Domain/Fares       domain/fares.py, with the strategies of distance_fare.py, dynamic_fare.py and
--                    fixed_fare.py in adapters/
-- Domain/Packing     domain/packing.py: `choose_seat` and `predict_standing_seats`, in Packing/Depth
--                    `min_seats`, and in Packing/Colouring `pack`
-- Ports              the records of ports/, and the outside world as `Deps` (usecases/_deps.py)
-- MemoryRepo         adapters/memory_repo.py: the booking repository over its dictionary, and in
--                    MemoryRepo/Exclusive the overlap invariant
-- SqlRepo            adapters/sqlalchemy_repo.py and orm.py: the rows of the database, in
--                    SqlRepo/Exclusion the constraint of the schema, in SqlRepo/Queries the queries over the booking
--                    table, and in SqlRepo/Trips the trip table
-- World              the store with its unit of work (adapters/memory_repo.py) and what the adapters
--                    memory_publisher.py, memory_notifier.py, fake_payment.py and seq_ids.py record
-- UseCases           one module for each file of usecases/: Support (_support.py), AntiTout
--                    (_policy.py), Receipt (_receipt.py), HoldSeat, ConfirmBooking, CancelBooking,
--                    SellUnreserved, VerifyTicket, ImpactReport, SearchTrains (with `find_by_date` of
--                    memory_repo.py), and LegAvailability (with quote_fare.py and get_trip.py)
-- System             the use cases but the search and the report, as intents that are served one
--                    after another
-- App/Schemas        app/schemas.py: the bodies of requests and responses
-- App/HttpErrors     app/errors.py: the status of an error
-- App/Routes         app/routes: bookings.py, admin.py and trips.py (the search in
--                    Routes/Searching), with the counter key of app/deps.py
-- App/Timetable      app/timetable_config.py: the configuration file and the trips of a window
-- App/Settings       app/config.py with adapters/env_config.py, and the fare strategy that app/wiring.py
--                    chooses
-- App/Seed           app/seed.py with `upsert_trip` of sqlalchemy_repo.py
-- App/Stream         app/routes/stream.py with the broker of adapters/sse_publisher.py
-- App/Idempotency    app/middleware/idempotency.py: the cache of responses, with requests that overlap
-- Tests              sample data, runs, and each theorem at an input
--
-- State. A use case is a function of the world that returns a result and the new world; a raise
-- keeps what was written before it, and the unit of work then restores its snapshot of the store.
-- Events, messages and charges are not restored, as in the program. `now` is read once by each use
-- case and is an argument.
--
-- Numbers. Times, money and configuration are Python's unbounded integers. Station positions, minutes
-- and counts are naturals: the program refuses negative positions and its parser gives no negative
-- minutes. Floats are an abstract type whose operations, with the fare strategy, the scorer, the
-- configuration of a use case, the gateway's answers and the generators of identifiers, are parameters.
--
-- Every loop of the modelled code runs over a list or a number of days, and is structural recursion
-- here, the sorting of Python's library included (Prelude/Sorting). The loop of an event stream ends
-- with its client or its limit, and is given one turn at a time, as the event loop takes it. Only the
-- decimal digits of a number take fuel, one more than the number, and a number has no more digits
-- than that.
--
-- Not modelled: the messages of exceptions; the sessions of SQLAlchemy, whose SELECT is a
-- parameter, and the insertion of a booking with them; the query of the trips of a day in the database; the framework
-- around the routes, but for the bounds that the request bodies declare; the wiring;
-- transactions that interleave, since the in-memory unit of work runs them one after
-- another; and the rounding of decimal products of more than 28 digits.
pub mod Prelude
pub mod Domain
pub mod Ports
pub mod MemoryRepo
pub mod SqlRepo
pub mod World
pub mod UseCases
pub mod System
pub mod App
mod Tests
