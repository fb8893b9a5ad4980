-- ===== src/Refunds/Refusal.antt =====
-- What an operator cannot do to a refund (opsRefundAction, opsCreateRefund).
use wantmytime.Prelude.{
  ℕ, ◌≡◌, refl, ap, ◌∙◌, Bool, false, not, ◌&&◌, String, List, [], ◌∷◌, arith, Bool-cases, inl, inr,
  Unit0, ◌==◌, Option, none, true, ◌⊎◌, eq_iff,
}
use wantmytime.Prelude.Time.{Time}
use wantmytime.Prelude.Tables.{All}
use wantmytime.Store.Schema.{
  Db, Refund, RefundState, pending_approval, queued, submitted, processed, failed, not_required,
}
use wantmytime.Store.Monad.{
  Error, Result, Session, ok, err, continue, lift, guard, ◌>>◌, try_query, reason_required,
  automatic_refunds_off, refund_state_changed,
}
use wantmytime.Store.Transaction.{query_working, in_transaction-err}
use wantmytime.Ledger.Journal.{Runtime}
use wantmytime.Refunds.Statements.{any, update_where, has_state}
use wantmytime.Refunds.Create.{Settings}
use wantmytime.Refunds.Operator.{
  RefundAction, approve, retry, record_external, action_allowed, picked, count, is_blocked,
  has_reason, is_approval, act_on_refund_row, act_on_refund, act_in_transaction, ops_refund_action,
  action_effect, insert_audit_event, action_name, finish_action,
}

any-both :
    {A : Type 0} (p q : A → Bool) (xs : List A)
    → any p xs ≡ false
    → any (λ x. p x && q x) xs ≡ false
any-both p q [] h = refl
any-both p q (x ∷ xs) h = ground (arith, any-both p q xs)

count-none : {A : Type 0} (p : A → Bool) (xs : List A) → any p xs ≡ false → count p xs ≡ 0
count-none p [] h = refl
count-none p (x ∷ xs) h = ground (arith, count-none p xs)

pub update_where-none :
    {A : Type 0} (p : A → Bool) (f : A → A) (xs : List A)
    → any p xs ≡ false
    → update_where p f xs ≡ xs
update_where-none p f [] h = refl
update_where-none p f (x ∷ xs) h = ground (arith, update_where-none p f xs)

module _ (action : RefundAction) (actor_id id : String) where
  row-none :
      (t : Time) (d : Db)
      → any (picked action id) d.refunds ≡ false
      → act_on_refund_row action actor_id id t d ≡ (ok 0, d)
  unfolding act_on_refund_row
  row-none t d h =
      rw
        (
          any-both (picked action id) (is_blocked d) d.refunds h,
          count-none (picked action id) d.refunds h,
          update_where-none (picked action id) (action_effect action actor_id t) d.refunds h,
        )
        refl

  act-none :
      (s : Session)
      → any (picked action id) s.db.refunds ≡ false
      → s.faults ≡ []
      → act_on_refund action actor_id id s ≡ (ok 0, s)
  unfolding act_on_refund try_query
  act-none s h working = ap (continue lift) (
      query_working (λ t. act_on_refund_row action actor_id id t) s working
      ∙ ap (λ (x : Result ℕ × Db). (ok x.0, record s { db = x.1 })) (row-none s.now s.db h))

  transaction-none :
      (env : Settings) (reason : String) (s : Session)
      → any (picked action id) s.db.refunds ≡ false
      → s.faults ≡ []
      → act_in_transaction env action actor_id id reason s ≡ (err refund_state_changed, s)
  unfolding act_in_transaction
  transaction-none env reason s h working =
      ap
        (continue (λ (changed : ℕ).
          guard (changed == 1) refund_state_changed
          >> insert_audit_event actor_id (action_name action) id (env.trim_space reason)))
        (act-none s h working)

not_picked_refused :
    (env : Settings) (rt : Runtime) (action : RefundAction) (actor_id id reason : String)
    (s : Session)
    → any (picked action id) s.db.refunds ≡ false
    → s.faults ≡ []
    → (e : Error) × (ops_refund_action env rt action actor_id id reason s ≡ (err e, s))
unfolding ops_refund_action
not_picked_refused env rt action actor_id id reason s h working =
    elim (Bool-cases (has_reason env reason)) [
      | inr silent ↦ (reason_required, rw silent refl)
      | inl reasoned ↦ elim (Bool-cases (is_approval action && not env.refunds_enabled)) [
        | inl off ↦ (automatic_refunds_off, rw (reasoned, off) refl)
        | inr on ↦ (
          refund_state_changed,
          rw (reasoned, on)
              (ap (continue (λ (_ : Unit0). finish_action env rt action actor_id id reason)) (
                in_transaction-err _ s refund_state_changed
                  (transaction-none action actor_id id env reason s h working) working)),
        )
      ]
    ]

-- What an operator may do: approve a refund that waits for it; send again one that failed before the
-- provider knew of it; record one as done elsewhere that waits for approval or failed.
abbrev pub MayAct : RefundAction → RefundState → Option String → Type 0
MayAct approve state provider_refund_id = state ≡ pending_approval
MayAct retry state provider_refund_id = (state ≡ failed) × (provider_refund_id ≡ none)
MayAct record_external state provider_refund_id = (state ≡ pending_approval) ⊎ (state ≡ failed)

is_pending_approval :
    (state : RefundState) → has_state state pending_approval ≡ true → state ≡ pending_approval
is_pending_approval pending_approval h = refl
is_pending_approval queued h = absurd (cc)
is_pending_approval submitted h = absurd (cc)
is_pending_approval processed h = absurd (cc)
is_pending_approval failed h = absurd (cc)
is_pending_approval not_required h = absurd (cc)

pub is_failed_state : (state : RefundState) → has_state state failed ≡ true → state ≡ failed
is_failed_state failed h = refl
is_failed_state queued h = absurd (cc)
is_failed_state submitted h = absurd (cc)
is_failed_state processed h = absurd (cc)
is_failed_state pending_approval h = absurd (cc)
is_failed_state not_required h = absurd (cc)

allowed-MayAct :
    (action : RefundAction) (r : Refund)
    → action_allowed action r ≡ true
    → MayAct action r.state r.provider_refund_id
allowed-MayAct approve r h = is_pending_approval r.state h
allowed-MayAct retry r h = (is_failed_state r.state (ground (arith, h)), ground (arith, h))
allowed-MayAct record_external r h = elim (Bool-cases (has_state r.state failed)) [
  | inl e ↦ inr (is_failed_state r.state e)
  | inr e ↦ inl (is_pending_approval r.state (ground (arith, h, e)))
]

-- The refund of the id, if there is one, is in no state for the action.
abbrev pub IsOutOfReach : RefundAction → String → List Refund → Type 0
IsOutOfReach action id rs =
    All (λ (r : Refund). r.id ≡ id → MayAct action r.state r.provider_refund_id → ⊥) rs

none_picked :
    (action : RefundAction) (id : String) (rs : List Refund)
    → IsOutOfReach action id rs
    → any (picked action id) rs ≡ false
none_picked action id [] h = refl
none_picked action id (r ∷ rs) h = elim (Bool-cases (picked action id r)) [
  | inr e ↦ rw (e, none_picked action id rs h.1) refl
  | inl e ↦
      absurd
        (h.0 ((eq_iff r.id id).0 (ground (arith, e))) (allowed-MayAct action r (ground (arith, e))))
]

-- While the database answers, an operator's action is refused and changes nothing, if no refund with
-- the id is in a state for it: to approve it, it has to wait for approval; to send it again, to have
-- failed before the provider knew of it; to record it as done elsewhere, to wait for approval or to
-- have failed.
pub ops_refund_action_refused :
    (env : Settings) (rt : Runtime) (action : RefundAction) (actor_id id reason : String)
    (s : Session)
    → IsOutOfReach action id s.db.refunds
    → s.faults ≡ []
    → (e : Error) × (ops_refund_action env rt action actor_id id reason s ≡ (err e, s))
ops_refund_action_refused env rt action actor_id id reason s h working =
    not_picked_refused env rt action actor_id id reason s (none_picked action id s.db.refunds h)
      working
