-- ===== src/Policy.antt =====
-- services/core/cmd/api/policy.go: what a buyer gets back for cancelling, how a refund is split
-- between the platform and the seller, and the cap on recoveries.
pub mod Shares
pub mod Notice
use wantmytime.Prelude.{ℕ, ◌+◌, ◌-◌, ◌*◌, Bool, ◌||◌, Option, none, some, String, if◌then◌else◌}
use wantmytime.Prelude.Int64.{ℤ, pos, leb_ℤ, ltb_ℤ, eqb_ℤ, add64, sub64, mul64, div64, rem64}
use wantmytime.Prelude.Time.{Time, zero_time, hour, sub_time}

pub record CancellationPolicy : Type 0 where
  pub name : String
  pub summary : String

abbrev pub cancellation_rule : CancellationPolicy
cancellation_rule = record {
  name = "Flexible";
  summary = "Full refund if cancelled at least 24 hours before the start.";
}

abbrev pub refund_notice : ℕ
refund_notice = 24 * hour

unfoldable pub buyer_refund_percent : Time → Time → ℤ
unfolding sub_time
buyer_refund_percent starts now =
    if leb_ℤ (pos refund_notice) (sub_time starts now) then pos 100 else pos 0

-- `zero_time` is Go's zero `time.Time`: there is no refund left to lose.
unfoldable pub next_refund_drop : Time → Time → Time
unfolding buyer_refund_percent
next_refund_drop starts now =
    if eqb_ℤ (buyer_refund_percent starts now) (pos 0) then zero_time else starts - refund_notice

-- The platform's and the seller's part of a refund.
unfoldable pub refund_shares : ℤ → ℤ → ℤ → ℤ × ℤ
refund_shares amount gross deduction =
    if leb_ℤ gross (pos 0) || leb_ℤ amount (pos 0)
    then (pos 0, pos 0)
    else let platform =
        add64 (mul64 (div64 amount gross) deduction)
          (div64 (mul64 (rem64 amount gross) deduction) gross) in
      (platform, sub64 amount platform)

-- The argument is what `strconv.ParseInt` makes of REFUND_RECOVERY_MAX_BPS; `none` is its error.
unfoldable pub recovery_max_bps : Option ℤ → ℤ
recovery_max_bps none = pos 5000
recovery_max_bps (some v) = if ltb_ℤ v (pos 0) || ltb_ℤ (pos 10000) v then pos 5000 else v
