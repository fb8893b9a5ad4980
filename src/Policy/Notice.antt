-- ===== src/Policy/Notice.antt =====
-- When a buyer's refund is due in full (policy.go, buyerRefundPercent and nextRefundDrop).
use wantmytime.Prelude.{◌≤◌, ◌<◌, ◌≡◌, ◌≢◌, arith}
use wantmytime.Prelude.Int64.{pos}
use wantmytime.Prelude.Time.{Time, zero_time}
use wantmytime.Policy.{buyer_refund_percent, next_refund_drop}

-- Whatever the moment `now` at which the end of the full refund was shown, a cancellation at any
-- later or earlier time gives the full refund up to the time shown, and nothing after it.
pub next_refund_drop_exact :
    (starts now t : Time)
    → next_refund_drop starts now ≢ zero_time
    → (t ≤ next_refund_drop starts now → buyer_refund_percent starts t ≡ pos 100)
      × (next_refund_drop starts now < t → buyer_refund_percent starts t ≡ pos 0)
unfolding next_refund_drop buyer_refund_percent
next_refund_drop_exact starts now t h = (λ p. ground arith, λ p. ground arith)
