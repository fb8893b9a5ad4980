-- ===== src/Examples/OperatorExamples.antt =====
-- Debts of two refunds against one payout, and an operator who acts on a refund that is on its way.
use wantmytime.Prelude.{length, ◌&&◌, false, ◌≡◌, ◌≤◌, refl, [], ◌∷◌, arith, List, ◌⊎◌, inl, inr}
use wantmytime.Prelude.Int64.{pos}
use wantmytime.Store.Schema.{submitted, pending_approval, failed}
use wantmytime.Store.Monad.{Error, err}
use wantmytime.Refunds.Recovery.{OpenRecovery, recovery_take}
use wantmytime.Refunds.Statements.{any}
use wantmytime.Refunds.Queue.{claim_due_rows, is_among, due_refunds, is_due, claim_due_rows_once}
use wantmytime.Refunds.Limit.{recovery_take_exact}
use wantmytime.Refunds.Operator.{ops_refund_action, record_external}
use wantmytime.Refunds.Refusal.{ops_refund_action_refused}
use wantmytime.Examples.LedgerExamples.{rt}
use wantmytime.Examples.RefundExamples.{env, before}

abbrev debts : List OpenRecovery
debts =
    record { id = "d-1"; outstanding = pos 3_000 }
    ∷ record { id = "d-2"; outstanding = pos 9_000 }
    ∷ []

recovery_take_exact_example :
    (recovery_take (pos 5_000) debts (pos 20_001) ≡ pos 10_000) × (10_000 ≤ 20_001)
recovery_take_exact_example =
    recovery_take_exact 20_001 5_000 debts (omega arith) (omega arith) (refl, (refl, tt))
      (omega arith)

submitted_is_out : (submitted ≡ pending_approval) ⊎ (submitted ≡ failed) → ⊥
submitted_is_out (inl h) = cc
submitted_is_out (inr h) = cc

ops_refund_action_refused_example :
    (e : Error) × (ops_refund_action env rt record_external "op-1" "r-1" "evidence in mail" before
      ≡ (err e, before))
ops_refund_action_refused_example =
    ops_refund_action_refused env rt record_external "op-1" "r-1" "evidence in mail" before
      (λ same may. submitted_is_out may, tt) refl

claim_due_rows_once_example :
    (length (claim_due_rows 10 7 before.db).0 ≤ 10)
    × (any
          (λ r. is_among (due_refunds 10 7 before.db.refunds) r && is_due 7 r)
          (claim_due_rows 10 7 before.db).1.refunds
        ≡ false)
claim_due_rows_once_example = claim_due_rows_once 10 7 before.db
