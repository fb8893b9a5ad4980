-- ===== src/Cancellation.antt =====
-- services/core/cmd/api/cancellation.go: a buyer or a seller cancels an upcoming booking.
pub mod Statements
pub mod Preview
pub mod Handler
pub mod Refunded
pub mod Effect
pub mod Repaid
pub mod Once
