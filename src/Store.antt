-- ===== src/Store.antt =====
-- The database as the Go code sees it: the tables that the modelled operations read and write, a
-- transaction as a state and error monad in which every statement may fail, and rules for proofs
-- about transactions. The SQL that the operations run stands in their own modules.
pub mod Schema
pub mod Monad
pub mod Logic
pub mod Transaction
pub mod Clock
pub mod Always
pub mod Outside
