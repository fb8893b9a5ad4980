-- ===== src/Cancellation/Preview.antt =====
-- cancellation.go, previewCancellation: what cancelling now would mean for the person asking.
use wantmytime.Prelude.{
  Bool, true, false, not, String, str_eq, Option, none, some, if◌then◌else◌, ◌==◌,
}
use wantmytime.Prelude.Int64.{ℤ, pos, mul64, div64}
use wantmytime.Prelude.Time.{Time, zero_time, after}
use wantmytime.Policy.{cancellation_rule, buyer_refund_percent, next_refund_drop}
use wantmytime.Refunds.Statements.{BookingForCancellation}

pub record CancellationPreview : Type 0 where
  pub can_cancel : Bool
  pub reason : String
  pub role : String
  pub refund_minor : ℤ
  pub refund_percent : ℤ
  pub policy_name : String
  pub policy_summary : String
  pub refund_drops_at : Option Time
  pub paid : Bool

abbrev pub role_of : BookingForCancellation → String → String
role_of b user_id = if str_eq user_id b.seller_user_id then "seller" else "buyer"

-- The preview before the booking's state and time are looked at.
abbrev blank_preview : BookingForCancellation → String → CancellationPreview
blank_preview b user_id = record {
  can_cancel = false;
  reason = "";
  role = role_of b user_id;
  refund_minor = pos 0;
  refund_percent = pos 0;
  policy_name = cancellation_rule.name;
  policy_summary = cancellation_rule.summary;
  refund_drops_at = none;
  paid = str_eq b.payment_state "paid";
}

abbrev drop_shown : Time → Option Time
drop_shown drop = if drop == zero_time then none else some drop

-- The preview of a booking that can be cancelled, refunded by this percentage.
abbrev open_preview : BookingForCancellation → String → ℤ → Option Time → CancellationPreview
open_preview b user_id percent drops_at = record (blank_preview b user_id) {
  can_cancel = true;
  refund_percent = percent;
  refund_drops_at = drops_at;
  refund_minor = div64 (mul64 b.gross_minor percent) (pos 100);
}

unfoldable pub preview_cancellation : BookingForCancellation → String → Time → CancellationPreview
preview_cancellation b user_id now =
    if not (str_eq b.state "confirmed")
    then record (blank_preview b user_id) { reason = "This booking can no longer be cancelled." }
    else if not (after b.starts_at now)
    then record (blank_preview b user_id) {
      reason = "This booking has already started. Report a problem or a no-show instead.";
    }
    else if str_eq (role_of b user_id) "seller"
    then open_preview b user_id (pos 100) none
    else open_preview b user_id (buyer_refund_percent b.starts_at now)
        (drop_shown (next_refund_drop b.starts_at now))
