-- ===== src/Examples/PolicyExamples.antt =====
-- A session at 16:40 on some day, and a price of 500.00 with a fee of 5 %.
use wantmytime.Prelude.{◌-◌, ◌*◌, ◌/◌, ◌≤◌, ◌<◌, ◌≡◌, arith}
use wantmytime.Prelude.Int64.{pos}
use wantmytime.Prelude.Time.{Time, hour}
use wantmytime.Policy.{refund_shares, buyer_refund_percent, next_refund_drop}
use wantmytime.Policy.Shares.{refund_shares_exact}
use wantmytime.Policy.Notice.{next_refund_drop_exact}

refund_shares_exact_example :
    (refund_shares (pos 12_345) (pos 50_000) (pos 2_500) ≡ (pos 617, pos 11_728))
    × (12_345 * 2_500 / 50_000 ≤ 2_500)
    × (12_345 - 12_345 * 2_500 / 50_000 ≤ 50_000 - 2_500)
refund_shares_exact_example =
    refund_shares_exact 12_345 50_000 2_500 (omega arith) (omega arith) (omega arith) (omega arith)
      (omega arith)

abbrev starts : Time
starts = 1_000 * hour

next_refund_drop_exact_example :
    (950 * hour ≤ next_refund_drop starts (900 * hour)
      → buyer_refund_percent starts (950 * hour) ≡ pos 100)
    × (next_refund_drop starts (900 * hour) < 950 * hour
        → buyer_refund_percent starts (950 * hour) ≡ pos 0)
unfolding next_refund_drop
next_refund_drop_exact_example =
    next_refund_drop_exact starts (900 * hour) (950 * hour) (omega arith)
