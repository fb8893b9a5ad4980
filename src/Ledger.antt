-- ===== src/Ledger.antt =====
-- services/core/cmd/api/ledger.go and services/core/internal/store/ledger.sql.go: the double-entry
-- ledger. A journal is checked, inserted once for its source, and its lines become entries.
pub mod Bytes
pub mod Totals
pub mod Journal
pub mod Sums
pub mod Booked
pub mod Balance
pub mod Posting
