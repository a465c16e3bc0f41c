-- ===== src/Domain.antt =====
-- backend/slr/domain: the pure rules of the program, a module for each of its files.
pub mod Errors
pub mod Values
pub mod Stations
pub mod BookingSm
pub mod Timetable
pub mod Calendar
pub mod Packing
pub mod Policy
pub mod Abuse
pub mod Fares
