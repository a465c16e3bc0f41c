-- ===== src/Tests.antt =====
-- The program run on small inputs, and the theorems applied there.
mod Sample
mod Bookings
mod Rules
mod Searches
mod Replays
mod Rows
mod Interface
mod Packing
mod Impact
mod Dates
mod Seeding
mod Streams
mod Scores
mod Setup
mod Queries
