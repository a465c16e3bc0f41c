-- ===== src/App.antt =====
-- backend/slr/app: what stands between the network and the use cases.
pub mod Idempotency
pub mod Schemas
pub mod HttpErrors
pub mod Routes
pub mod Stream
pub mod Timetable
pub mod Seed
pub mod Settings
