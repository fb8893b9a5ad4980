-- ===== src/Examples/PayoutExamples.antt =====
-- A payout of 475.00 with a fee of 0.50.
use wantmytime.Prelude.{◌≡◌, refl, arith}
use wantmytime.Prelude.Int64.{pos}
use wantmytime.Store.Monad.{ok}
use wantmytime.Ledger.Journal.{check_journal}
use wantmytime.Payouts.{payout_lines}
use wantmytime.Payouts.Journal.{payout_lines-accepted}

payout_lines-accepted_example :
    check_journal "payout" "p-1:ref" "NGN" (payout_lines "s-1" (pos 47_500) (pos 50)) ≡ ok tt
payout_lines-accepted_example =
    payout_lines-accepted "s-1" "p-1:ref" "NGN" 47_500 50 (omega arith) (omega arith) refl refl
