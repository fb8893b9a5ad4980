-- ===== src/Payouts/Journal.antt =====
-- The journal of a payout passes the checks of the ledger.
use Prim.Native.String.{len}
use wantmytime.Prelude.{ℕ, ◌+◌, ◌^◌, ◌<◌, ◌≡◌, false, true, String, str_eq, ◌==◌, arith}
use wantmytime.Prelude.Int64.{pos, sub64_pos, add64_pos}
use wantmytime.Store.Monad.{ok}
use wantmytime.Ledger.Totals.{ledger_totals}
use wantmytime.Ledger.Journal.{check_journal}
use wantmytime.Payouts.{payout_lines}

-- A payout whose net amount and fee are no negative numbers, not both 0, and have a sum that fits in
-- an int64 gives a journal that the ledger accepts, for a source that is named and a currency of
-- three bytes: the payout is recorded whether or not the provider took a fee.
pub payout_lines-accepted :
    (seller_id source_id currency : String) (n f : ℕ)
    → 0 < n + f
    → n + f < 2 ^ 63
    → str_eq source_id "" ≡ false
    → (len currency == 3) ≡ true
    → check_journal "payout" source_id currency (payout_lines seller_id (pos n) (pos f)) ≡ ok tt
unfolding check_journal ledger_totals payout_lines
payout_lines-accepted seller_id source_id currency n f positive fits named coded = ground (
  arith,
  sub64_pos 9_223_372_036_854_775_807 n,
  sub64_pos 9_223_372_036_854_775_807 f,
  add64_pos 0 n,
  add64_pos 0 f,
  add64_pos n f,
)
