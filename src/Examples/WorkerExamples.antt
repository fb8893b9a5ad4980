-- ===== src/Examples/WorkerExamples.antt =====
-- A refund that was submitted, and a payment by card made on a Friday.
use wantmytime.Prelude.{ℕ, ◌+◌, ◌*◌, ◌≤◌, ◌≡◌, refl, false, true, none, String, str_eq}
use wantmytime.Prelude.Int64.{ℤ, pos}
use wantmytime.Prelude.Time.{hour}
use wantmytime.Store.Schema.{submitted}
use wantmytime.Refunds.Worker.{Provider, Reply, answered, ClaimedRefund, advance_refund}
use wantmytime.Refunds.Sent.{advance_refund_sends_unknown}
use wantmytime.Payments.{day, is_weekend, funds_available_at}
use wantmytime.Payments.Settlement.{funds_available_at_lands}
use wantmytime.Examples.LedgerExamples.{rt}
use wantmytime.Examples.RefundExamples.{env}

abbrev provider : Provider
provider = record {
  query_refund = λ reference. answered none;
  refund = λ payment reference amount. answered "processing";
  without_dashes = λ id. id;
}

abbrev deaf : String → String → ℤ → Reply String
deaf payment reference amount = answered "failed"

abbrev claimed : ClaimedRefund
claimed = record {
  id = "r-1";
  state = submitted;
  attempts = pos 2;
  amount_minor = pos 50_100;
  reference = "m-1";
}

advance_refund_sends_unknown_example :
    advance_refund env rt provider claimed
    ≡ advance_refund env rt (record provider { refund = deaf }) claimed
advance_refund_sends_unknown_example =
    advance_refund_sends_unknown env rt provider claimed deaf refl

abbrev friday : ℕ
friday = 4 * day

funds_available_at_lands_example :
    (str_eq "card" "bank_transfer" ≡ true → funds_available_at none "card" friday ≡ friday)
    × (str_eq "card" "bank_transfer" ≡ false
        → (is_weekend (funds_available_at none "card" friday) ≡ false)
          × (friday + 24 * hour ≤ funds_available_at none "card" friday)
          × (funds_available_at none "card" friday ≤ friday + 24 * hour + 2 * day)
          × (is_weekend (friday + 24 * hour) ≡ false
              → funds_available_at none "card" friday ≡ friday + 24 * hour))
funds_available_at_lands_example = funds_available_at_lands none "card" friday
