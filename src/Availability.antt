-- ===== src/Availability.antt =====
-- Availability (services/core/cmd/api/availability.go): a seller's weekly hours and date overrides,
-- the slots that a buyer is shown, and the test of a start time that a buyer asks for.
pub mod Zone
pub mod Clock
pub mod Hours
pub mod Overrides
pub mod Overlap
pub mod SavedClock
pub mod Slots
pub mod Counting
pub mod Exact
pub mod Allowed
pub mod Steady
pub mod Saved
pub mod Kept
pub mod Ordered
pub mod Shown
pub mod Scheduled
