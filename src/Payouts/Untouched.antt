-- ===== src/Payouts/Untouched.antt =====
-- The statements of the operations on payouts that change neither the entries of the ledger, nor the
-- payouts, nor the refunds: whatever holds of these tables still holds after them.
use wantmytime.Prelude.{◌≡◌, ◌∷◌, [], List, String, Option, arith, ℕ}
use wantmytime.Prelude.Int64.{ℤ, pos}
use wantmytime.Prelude.Time.{Time}
use wantmytime.Store.Schema.{Db, LedgerEntry, SellerPayout, Refund}
use wantmytime.Store.Monad.{Result, ◌>>=◌, select, exec, try_query, one_row}
use wantmytime.Store.Always.{
  Always, Always-Ensures, Always-bind, Always-if, Always-pure, Always-lift, Always-select,
  Always-exec, Always-try_query, Always-one_row,
}
use wantmytime.Store.Logic.{Ensures, bind, Ensures-if, Ensures-pure}
use wantmytime.Refunds.Statements.{enqueue_booking_event}
use wantmytime.Refunds.Operator.{insert_audit_event}
use wantmytime.Refunds.Recovery.{
  OpenRecovery, lock_open_recoveries, add_recovered, repay, apply_recovery, recovery_take,
  take_recovery,
}
use wantmytime.Payouts.{mark_items}
use wantmytime.Payouts.Release.{lock_payout, hold_of_payout, refunded_share, find_payout_account}
use wantmytime.Payouts.Status.{payout_failed_row, payout_failed_email}
use wantmytime.Payouts.Retry.{RetryCandidate, retry_candidates, audit_auto_retry}

module _ (Q : List LedgerEntry → List SellerPayout → List Refund → Type 0) where
  abbrev pub Holds : Db → Type 0
  Holds d = Q d.ledger_entries d.seller_payouts d.refunds

  same_tables :
      (d d' : Db)
      → d'.ledger_entries ≡ d.ledger_entries
      → d'.seller_payouts ≡ d.seller_payouts
      → d'.refunds ≡ d.refunds
      → Holds d
      → Holds d'
  same_tables d d' e p r h = rw (e, p, r) h

  pub exec-Untouched :
      (f : Time → Db → Db)
      → ((t : Time) (d : Db) → (f t d).ledger_entries ≡ d.ledger_entries)
      → ((t : Time) (d : Db) → (f t d).seller_payouts ≡ d.seller_payouts)
      → ((t : Time) (d : Db) → (f t d).refunds ≡ d.refunds)
      → Always Holds (exec f)
  exec-Untouched f e p r = Always-exec f (λ t d h. same_tables d (f t d) (e t d) (p t d) (r t d) h)

  pub try_query-Untouched :
      {A : Type 0} (f : Time → Db → Result A × Db)
      → ((t : Time) (d : Db) → (f t d).1.ledger_entries ≡ d.ledger_entries)
      → ((t : Time) (d : Db) → (f t d).1.seller_payouts ≡ d.seller_payouts)
      → ((t : Time) (d : Db) → (f t d).1.refunds ≡ d.refunds)
      → Always Holds (try_query f)
  try_query-Untouched f e p r =
      Always-try_query f (λ t d h. same_tables d (f t d).1 (e t d) (p t d) (r t d) h)

  pub read_row-Untouched :
      {A : Type 0} (f : Time → Db → Option A) → Always Holds (select f >>= λ row. one_row row)
  read_row-Untouched f = Always-bind (Always-select f) Always-one_row

  pub mark_items-Untouched :
      (state booking_id : String) → Always Holds (mark_items state booking_id)
  unfolding mark_items
  mark_items-Untouched state booking_id = Always-exec _ (λ t d h. h)

  pub enqueue_booking_event-Untouched :
      (booking_id recipient kind event_key : String) (reference_id : Option String)
      → Always Holds (enqueue_booking_event booking_id recipient kind event_key reference_id)
  unfolding enqueue_booking_event
  enqueue_booking_event-Untouched booking_id recipient kind event_key reference_id =
      exec-Untouched _ (λ t d. ground arith) (λ t d. ground arith) (λ t d. ground arith)

  pub payout_failed_email-Untouched : (id : String) → Always Holds (payout_failed_email id)
  unfolding payout_failed_email payout_failed_row
  payout_failed_email-Untouched id =
      exec-Untouched _ (λ t d. ground arith) (λ t d. ground arith) (λ t d. ground arith)

  pub insert_audit_event-Untouched :
      (actor_id action target_id reason : String)
      → Always Holds (insert_audit_event actor_id action target_id reason)
  unfolding insert_audit_event
  insert_audit_event-Untouched actor_id action target_id reason = Always-exec _ (λ t d h. h)

  pub audit_auto_retry-Untouched : (c : RetryCandidate) → Always Holds (audit_auto_retry c)
  unfolding audit_auto_retry
  audit_auto_retry-Untouched c = Always-exec _ (λ t d h. h)

  pub retry_candidates-Untouched : Always Holds retry_candidates
  unfolding retry_candidates
  retry_candidates-Untouched = Always-select _

  pub lock_payout-Untouched : (id : String) → Always Holds (lock_payout id)
  unfolding lock_payout
  lock_payout-Untouched id = read_row-Untouched _

  pub hold_of_payout-Untouched :
      (delay : ℕ) (booking_id : String) → Always Holds (hold_of_payout delay booking_id)
  unfolding hold_of_payout
  hold_of_payout-Untouched delay booking_id = read_row-Untouched _

  pub refunded_share-Untouched : (booking_id : String) → Always Holds (refunded_share booking_id)
  unfolding refunded_share
  refunded_share-Untouched booking_id = Always-bind (Always-select _) (λ total. Always-lift)

  pub find_payout_account-Untouched :
      (seller_id : String) → Always Holds (find_payout_account seller_id)
  unfolding find_payout_account
  find_payout_account-Untouched seller_id = Always-select _

  lock_open_recoveries-Untouched :
      (seller_id : String) → Always Holds (lock_open_recoveries seller_id)
  unfolding lock_open_recoveries
  lock_open_recoveries-Untouched seller_id = Always-bind (Always-select _) (λ rows. Always-lift)

  add_recovered-Untouched : (amount : ℤ) (id : String) → Always Holds (add_recovered amount id)
  unfolding add_recovered
  add_recovered-Untouched amount id =
      try_query-Untouched _ (λ t d. ground arith) (λ t d. ground arith) (λ t d. ground arith)

  repay-Untouched : (rows : List OpenRecovery) (amount : ℤ) → Always Holds (repay rows amount)
  unfolding repay
  repay-Untouched [] amount = Always-pure
  repay-Untouched (row ∷ rows) amount =
      Always-if _ Always-pure
        (Always-bind (add_recovered-Untouched _ _) (λ _. repay-Untouched rows _))

  -- What is taken is nothing, or what recovery_take gives for some open recoveries.
  pub take_recovery-Untouched :
      (F : ℤ → Type 0) (max_bps : ℤ) (seller_id : String) (amount : ℤ)
      → F (pos 0)
      → ((rows : List OpenRecovery) → F (recovery_take max_bps rows amount))
      → Ensures Holds (take_recovery max_bps seller_id amount) (λ recovery d. Holds d × F recovery)
  unfolding take_recovery apply_recovery
  take_recovery-Untouched F max_bps seller_id amount zero_taken taken =
      bind (Always-Ensures (lock_open_recoveries-Untouched seller_id)) (λ rows.
        Ensures-if _ (Ensures-pure (λ d h. (h, zero_taken))) (
          bind
            (Always-Ensures (
              Always-if _ Always-pure (
                Always-bind (lock_open_recoveries-Untouched seller_id) (λ l. repay-Untouched l _))))
            (λ _. Ensures-pure (λ d h. (h, taken rows)))))
