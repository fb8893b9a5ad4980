-- ===== src/Examples.antt =====
-- The theorems at concrete inputs.
mod Rows
mod PolicyExamples
mod LedgerExamples
mod RefundExamples
mod CancellationExamples
mod RateLimitExamples
mod OperatorExamples
mod WorkerExamples
mod PayoutExamples
mod AvailabilityExamples
mod PaymentExamples
mod TransferExamples
mod AccountExamples
