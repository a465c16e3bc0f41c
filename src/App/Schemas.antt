-- ===== src/App/Schemas.antt =====
-- backend/slr/app/schemas.py: the contract of the HTTP interface. A model's `of` is a function with
-- the model's name.
pub mod Bookings
pub mod Trips
pub mod Requests
