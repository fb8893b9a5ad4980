-- ===== src/Lib.antt =====
-- WantMyTime's core service, services/core: the times that a buyer can book, what a buyer gets back,
-- how it is split, and how the ledger records it.
--
-- The service is a set of HTTP handlers (services/core/cmd/api) over PostgreSQL tables that are
-- read and written by generated queries (services/core/internal/store). A handler begins a
-- transaction, locks rows, decides with plain functions on numbers, writes through the queries and
-- commits. The model keeps that cut:
--
-- - Prelude: the numbers of Go. Prelude/Int64 has int64 with the wrap-around written out,
--   Prelude/Time has time.Time as nanoseconds and the saturating Sub.
-- - Store: the database. Store/Schema has the rows of internal/store/models.go with the columns that
--   the modelled code uses. Store/Monad has a transaction: it reads and writes the tables and stops at
--   the first error. Each statement of a query, each begin and each commit asks a schedule of faults
--   whether it fails, so a theorem about every schedule covers a failure at every statement. An error
--   or a failed commit rolls back. Store/Logic and Store/Transaction reason about it.
-- - Policy: cmd/api/policy.go.
-- - Ledger: cmd/api/ledger.go, postLedgerJournal, with the queries of internal/store/ledger.sql.go.
--   Ledger/Bytes, Ledger/Totals and Ledger/Journal are the code; Ledger/Booked has the accounts of
--   entries, Ledger/Balance and Ledger/Posting what a post does.
-- - Refunds: cmd/api/refunds.go with the queries of internal/store/refunds.sql.go.
--   Refunds/Statements has the queries, Refunds/Create is createRefund, Refunds/Finalize is
--   finalizeRefund.
--   Refunds/Recovery is applyRecovery, with takeRecovery of cmd/api/payouts.go; Refunds/Operator is
--   opsCreateRefund and opsRefundAction; Refunds/Queue is the query ClaimDueRefunds and Refunds/Worker
--   advanceRefund; Refunds/Unbooked is finalizeExceptionRefund of cmd/api/unbooked.go, and the choice
--   that finalizeRefund makes; Refunds/Repeat and Refunds/Recorded hold proofs about a second run.
-- - Cancellation: cmd/api/cancellation.go, with proofs of what is left behind in Cancellation/Effect
--   and of the refund that is recorded in Cancellation/Repaid.
-- - Availability: cmd/api/availability.go. Availability/Zone has the time zone that the code takes as
--   a parameter, Availability/Clock the texts of a minute of a day, Availability/Hours putAvailability and
--   hasOverlap, Availability/Overrides putAvailabilityOverride and deleteAvailabilityOverride,
--   Availability/Slots sellerDaySlots and localInstants, Availability/Scheduled validScheduledTime and
--   calendarConflict of cmd/api/calendar.go.
--   Availability/Allowed describes the times of a day in numbers; it, Availability/Shown,
--   Availability/Overlap, Availability/Kept and the other modules hold proofs about them.
-- - RateLimit: cmd/api/ratelimit.go, check and allowLocal.
-- - Payments/Money: majorAmount and parseMajor of cmd/api/kora.go, with the proof in
--   Payments/Money/RoundTrip.
-- - Payments: cmd/api/payment_processing.go. Payments has fundsAvailableAt, Payments/Charge is
--   applyVerifiedCharge; Payments/Charged and Payments/Booked are its statements
--   (internal/store/payments.sql.go and those in the handlers), Payments/Late and Payments/Returned
--   reclaimLateSlot and returnUnbookedPayment of cmd/api/unbooked.go, Payments/Notices
--   enqueueBookingNotifications of cmd/api/notifications.go. Payments/Keeps, Payments/Outbound,
--   Payments/Balanced and Payments/Journal hold proofs about them.
-- - Payouts: cmd/api/payouts.go. Payouts is markPayoutPaid, Payouts/Hold payoutHoldSQL and
--   payoutReleaseAtSQL, Payouts/Reference payoutReference, Payouts/Release releasePayout,
--   Payouts/Provider the transfers of cmd/api/payout_provider.go with what they use of
--   cmd/api/kora.go, Payouts/Status failPayout and applyTransferStatus, Payouts/Send sendPayout,
--   Payouts/Reversal checkPayoutReversal, Payouts/Event the refund and transfer
--   notices of koraWebhook of cmd/api/checkout.go, Payouts/Retry autoRetryFailedPayouts and
--   opsRetryPayout, Payouts/Worker processPayouts, Payouts/Account setPayoutAccount,
--   Payouts/AccountInput payoutAccountInput.valid with validName of cmd/api/profiles.go,
--   Payouts/Markets the markets of cmd/api/markets.go. Payouts/Reasons, Payouts/Held, Payouts/Due,
--   Payouts/Cooldown, Payouts/Once, Payouts/Untouched, Payouts/Sound, Payouts/Owed, Payouts/Kept,
--   Payouts/Again, Payouts/Runs and Payouts/Journal hold proofs about them, Payouts/Cycle the
--   steps of the payout worker, of koraWebhook, of the check for reversals and of Kora.
-- - Examples: runs of the operations at concrete inputs.
--
-- A query is a function on the tables, written from its SQL text: the rows that WHERE picks are
-- changed by SET, ON CONFLICT DO NOTHING keeps the row that is there, a unique index or a check
-- constraint that the migrations give the table refuses an insertion. The operations of one
-- transaction run without another one in between, as the row locks of the code demand; what two
-- transactions do is two runs, one after the other. now() and time.Now() are one clock, which stands
-- still during a transaction.
--
-- What the code takes from elsewhere is a parameter: Runtime has the uuids that PostgreSQL draws and
-- the SHA-256 digest of a journal's JSON; Settings has strings.TrimSpace, PostgreSQL's LIKE and
-- whether refunds are sent by themselves (the environment); Provider has the answers of the payment
-- provider's client and strings.ReplaceAll; Desk has the environment, the zones, time.RFC3339,
-- strings.ToLower, analyticsSubjectHash and the settlement hours that are set for a channel; KoraApi
-- has Kora's answers to a lookup and to a transfer, with a state of its own that they change, and
-- strings.ToLower; PayoutDesk has payoutDelay and recoveryMaxBps, SendDesk openPayoutAccount; AccountDesk has
-- sealPayoutAccount, accountFingerprint, the provider's banks and names of accounts, and
-- strings.ToUpper, Unicode unicode.IsDigit and unicode.IsLetter. No
-- property of them is assumed but what a theorem names.
--
-- A worker that calls a provider between transactions is a Job (Store/Outside): a function on the
-- tables and on the provider's state. The payout worker runs alone, so no row is skipped because
-- another worker holds it, and the clock stands still during one of its runs. opsRetryPayout is not
-- among the steps of Payouts/Cycle, nor are charges, refunds, cancellations and other actions of
-- operators. koraWebhook's tests of the signature and of the body are not modelled, and its row in
-- provider_events is a statement that can fail and changes no modelled table.
--
-- Most loops of the modelled code run over a list and are structural recursions. The loop of
-- fundsAvailableAt over the days of a weekend has fuel 3, one more than the rounds that it can make.
-- The loop of localInstants makes 33 rounds, which is its fuel; the loop over the minutes of a window
-- has as fuel one more than the quarters of an hour before the end of the window.
--
-- Not modelled: the HTTP layer, sessions and authentication, the clients of the payment provider, of
-- Google Calendar, of email and push, Redis and the object store, which are I/O; the columns of the
-- rows that no modelled operation uses; and the web application.
pub mod Prelude
pub mod Policy
pub mod Store
pub mod Ledger
pub mod Refunds
pub mod Cancellation
pub mod RateLimit
pub mod Availability
pub mod Payments
pub mod Payouts
mod Examples
