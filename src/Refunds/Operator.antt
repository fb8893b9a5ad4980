-- ===== src/Refunds/Operator.antt =====
-- refunds.go, opsCreateRefund and opsRefundAction, from the tests of their input on. The caller,
-- `actor_id`, is who requireOps admits.
use Prim.Native.String.{len, ◌++◌ as text_append}
use wantmytime.Prelude.{
  ℕ, suc, ◌++◌, Bool, true, false, not, ◌&&◌, ◌||◌, String, str_eq, Option, none, some, List, [],
  ◌∷◌, Unit0, ltb, ◌==◌, if◌then◌else◌,
}
use wantmytime.Prelude.Int64.{ℤ, pos, leb_ℤ}
use wantmytime.Prelude.Time.{Time}
use wantmytime.Store.Schema.{Db, Refund, pending_approval, queued, submitted, failed}
use wantmytime.Store.Monad.{
  Result, ok, err, Tx, ◌>>=◌, ◌>>◌, pure, fail, guard, exec, try_query, in_transaction,
  unique_violation, invalid_refund, refund_too_large, reason_required, automatic_refunds_off,
  refund_state_changed,
}
use wantmytime.Ledger.Journal.{Runtime}
use wantmytime.Refunds.Statements.{
  has_state, update_where, any, is_refund, text_or_empty, lock_booking_for_cancellation,
}
use wantmytime.Refunds.Create.{Settings, create_refund}
use wantmytime.Refunds.Unbooked.{finalize_refund}

unfoldable pub insert_audit_event : String → String → String → String → Tx Unit0
insert_audit_event actor_id action target_id reason = exec (λ t d. record d {
  audit_events =
      d.audit_events
      ++ (record {
        actor_id = some actor_id;
        action = action;
        target_id = some target_id;
        reason = some reason;
      }
          ∷ []);
})

-- At least 8 bytes without the blanks, and at most 500 with them.
abbrev pub has_reason : Settings → String → Bool
has_reason env reason = not (ltb (len (env.trim_space reason)) 8) && not (ltb 500 (len reason))

unfoldable pub create_operator_refund :
    Settings → Runtime → String → String → ℤ → String → Tx String
create_operator_refund env rt actor_id booking_id amount reason = do
  b ← lock_booking_for_cancellation booking_id
  guard (leb_ℤ amount b.gross_minor) refund_too_large
  refund_id ← create_refund env rt b amount "operator" (some actor_id)
  insert_audit_event actor_id "refund.created" (text_or_empty refund_id) (env.trim_space reason)
  pure (text_or_empty refund_id)

unfoldable pub ops_create_refund : Settings → Runtime → String → String → ℤ → String → Tx String
ops_create_refund env rt actor_id booking_id amount reason =
    if leb_ℤ amount (pos 0) || not (has_reason env reason)
    then fail invalid_refund
    else in_transaction (create_operator_refund env rt actor_id booking_id amount reason)

pub data RefundAction : Type 0 where
  approve retry record_external : RefundAction

abbrev pub action_name : RefundAction → String
action_name approve = "refund.approve"
action_name retry = "refund.retry"
action_name record_external = "refund.record"

abbrev is_null : Option String → Bool
is_null none = true
is_null (some s) = false

-- The `WHERE` of the action's statement, besides the refund's id.
abbrev pub action_allowed : RefundAction → Refund → Bool
action_allowed approve r = has_state r.state pending_approval
action_allowed retry r = has_state r.state failed && is_null r.provider_refund_id
action_allowed record_external r = has_state r.state pending_approval || has_state r.state failed

abbrev pub count : {A : Type 0} → (A → Bool) → List A → ℕ
count p [] = 0
count p (x ∷ xs) = let rest = count p xs in if p x then suc rest else rest

abbrev pub picked : RefundAction → String → Refund → Bool
picked action id r = is_refund id r && action_allowed action r

-- The `SET` of the action's statement.
abbrev pub action_effect : RefundAction → String → Time → Refund → Refund
action_effect approve actor_id t r = record r {
  state = queued;
  approved_by = some actor_id;
  next_attempt_at = t;
}
action_effect retry actor_id t r = record r {
  state = queued;
  attempts = pos 0;
  last_error = none;
  next_attempt_at = t;
  approved_by = some actor_id;
}
action_effect record_external actor_id t r = record r {
  state = submitted;
  approved_by = some actor_id;
}

-- Another refund of the same booking or of the same payment that has not failed stands against a
-- failed one coming back: the unique indexes refunds_one_per_booking and refunds_one_per_exception.
abbrev same_subject : Option String → Option String → Bool
same_subject (some a) (some b) = str_eq a b
same_subject (some a) none = false
same_subject none o = false

abbrev stands_against : Refund → Refund → Bool
stands_against r other =
    not (has_state other.state failed)
    && (same_subject r.booking_id other.booking_id
        || same_subject r.payment_exception_id other.payment_exception_id)

abbrev pub is_blocked : Db → Refund → Bool
is_blocked d r = has_state r.state failed && any (stands_against r) d.refunds

-- How many rows the statement changed.
unfoldable pub act_on_refund_row : RefundAction → String → String → Time → Db → Result ℕ × Db
act_on_refund_row action actor_id id t d =
    if any (λ r. picked action id r && is_blocked d r) d.refunds
    then (err unique_violation, d)
    else (
      ok (count (picked action id) d.refunds),
      record d {
        refunds = update_where (picked action id) (action_effect action actor_id t) d.refunds;
      },
    )

unfoldable pub act_on_refund : RefundAction → String → String → Tx ℕ
act_on_refund action actor_id id = try_query (act_on_refund_row action actor_id id)

unfoldable pub act_in_transaction : Settings → RefundAction → String → String → String → Tx Unit0
act_in_transaction env action actor_id id reason = do
  changed ← act_on_refund action actor_id id
  guard (changed == 1) refund_state_changed
  insert_audit_event actor_id (action_name action) id (env.trim_space reason)

abbrev pub is_approval : RefundAction → Bool
is_approval approve = true
is_approval _ = false

-- What follows the transaction: a refund that was made elsewhere is recorded in another one.
abbrev pub finish_action : Settings → Runtime → RefundAction → String → String → String → Tx Unit0
finish_action env rt approve actor_id id reason = pure tt
finish_action env rt retry actor_id id reason = pure tt
finish_action env rt record_external actor_id id reason =
    finalize_refund env rt id (some actor_id) (
      some (
        text_append "Recorded by an operator as refunded outside WantMyTime: "
          (env.trim_space reason)))

unfoldable pub ops_refund_action :
    Settings → Runtime → RefundAction → String → String → String → Tx Unit0
ops_refund_action env rt action actor_id id reason =
    if not (has_reason env reason)
    then fail reason_required
    else if is_approval action && not env.refunds_enabled
    then fail automatic_refunds_off
    else do
      in_transaction (act_in_transaction env action actor_id id reason)
      finish_action env rt action actor_id id reason
