-- ===== src/Refunds.antt =====
-- services/core/cmd/api/refunds.go and services/core/internal/store/refunds.sql.go: refunds from their
-- creation to the journal that records them, and the debts of sellers that some of them leave.
pub mod Statements
pub mod Create
pub mod Split
pub mod Finalize
pub mod Journal
pub mod Repeat
pub mod Recovery
pub mod Operator
pub mod Unbooked
pub mod Recorded
pub mod Worker
pub mod Queue
pub mod Sent
pub mod Limit
pub mod Refusal
