-- ===== src/UseCases.antt =====
-- backend/slr/usecases: each use case is an action on the world.
pub mod Support
pub mod AntiTout
pub mod Receipt
pub mod HoldSeat
pub mod ConfirmBooking
pub mod CancelBooking
pub mod ImpactReport
pub mod SearchTrains
pub mod SellUnreserved
pub mod VerifyTicket
pub mod LegAvailability
