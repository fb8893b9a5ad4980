-- ===== src/Payouts/Reference.antt =====
-- payouts.go, payoutReference: each attempt at a payout has a reference of its own.
use Prim.Native.String.{◌++◌ as text_append}
use wantmytime.Prelude.{String, if◌then◌else◌}
use wantmytime.Prelude.Int64.{ℤ, pos, ltb_ℤ}
use wantmytime.Prelude.Chars.{decimal}
use wantmytime.Payments.Booked.{first_payout_reference}

unfoldable pub payout_reference : String → ℤ → String
payout_reference booking_id generation =
    let first = first_payout_reference booking_id in
    if ltb_ℤ (pos 1) generation
    then text_append first (text_append "-g" (decimal generation))
    else first
