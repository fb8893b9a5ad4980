-- ===== src/Refunds/Worker.antt =====
-- refunds.go, the worker: processRefunds takes the refunds that are due and advanceRefund moves each
-- one forward. The provider's client is a parameter, a function from a call to its answer: what is
-- done with an answer is modelled, what a call does at the provider is not.
use wantmytime.Prelude.{
  ℕ, ◌*◌, ◌^◌, Bool, ◌||◌, String, str_eq, Option, none, some, Unit0, min, if◌then◌else◌,
}
use Prim.Native.String.{◌++◌ as text_append}
use wantmytime.Prelude.Int64.{ℤ, pos, pos_part, leb_ℤ}
use wantmytime.Store.Schema.{RefundState, queued}
use wantmytime.Store.Monad.{Tx, ok, ◌>>◌}
use wantmytime.Ledger.Journal.{Runtime}
use wantmytime.Refunds.Statements.{
  has_state, mark_refund_failed, mark_refund_submitted, retry_refund_later,
}
use wantmytime.Refunds.Create.{Settings}
use wantmytime.Refunds.Unbooked.{finalize_refund}

-- An error of the provider: its text, and whether providerRejected holds of it.
pub record ProviderError : Type 0 where
  pub message : String
  pub rejected : Bool

pub data Reply (A : Type 0) : Type 0 where
  answered : A → Reply A
  refused : ProviderError → Reply A

-- The client: the status of a refund by its reference, if it is known; sending a refund, from the
-- payment's reference, the refund's reference and the amount; and strings.ReplaceAll(id, "-", "").
pub record Provider : Type 0 where
  pub query_refund : String → Reply (Option String)
  pub refund : String → String → ℤ → Reply String
  pub without_dashes : String → String

pub record ClaimedRefund : Type 0 where
  pub id : String
  pub state : RefundState
  pub attempts : ℤ
  pub amount_minor : ℤ
  pub reference : String

abbrev pub refund_max_attempts : ℤ
refund_max_attempts = pos 8

abbrev pub refund_reference : Provider → String → String
refund_reference provider id = text_append "wmt-refund-" (provider.without_dashes id)

-- 60<<min(attempts, 6) seconds.
abbrev pub retry_seconds : ℤ → ℕ
retry_seconds attempts = 60 * 2 ^ min (pos_part attempts) 6

-- A statement whose error is dropped.
abbrev pub attempt : {A : Type 0} → Tx A → Tx Unit0
attempt m s = (ok tt, (m s).1)

unfoldable pub retry_or_fail : ClaimedRefund → ProviderError → Tx Unit0
retry_or_fail r e =
    if e.rejected || leb_ℤ refund_max_attempts r.attempts
    then attempt (mark_refund_failed e.message r.id)
    else attempt (retry_refund_later (retry_seconds r.attempts) e.message r.id)

-- The `switch` on the status of the provider's refund.
unfoldable pub record_status : Settings → Runtime → ClaimedRefund → String → String → Tx Unit0
record_status env rt r reference status =
    if str_eq status "success"
    then attempt
        (do mark_refund_submitted reference 0 none r.id; finalize_refund env rt r.id none none)
    else if str_eq status "failed"
    then attempt (mark_refund_failed "The provider reported the refund as failed" r.id)
    else attempt (mark_refund_submitted reference 1800 none r.id)

unfoldable pub send_refund : Settings → Runtime → Provider → ClaimedRefund → String → Tx Unit0
send_refund env rt provider r reference =
    elim (provider.refund r.reference reference r.amount_minor) [
      | refused e ↦ retry_or_fail r e
      | answered status ↦ record_status env rt r reference status
    ]

-- What the lookup of the refund at the provider leads to.
unfoldable pub follow_lookup :
    Settings → Runtime → Provider → ClaimedRefund → String → Reply (Option String) → Tx Unit0
follow_lookup env rt provider r reference (refused e) = retry_or_fail r e
follow_lookup env rt provider r reference (answered (some status)) =
    record_status env rt r reference status
follow_lookup env rt provider r reference (answered none) =
    if has_state r.state queued
    then send_refund env rt provider r reference
    else attempt (mark_refund_failed "The provider has no record of this refund." r.id)

unfoldable pub advance_refund : Settings → Runtime → Provider → ClaimedRefund → Tx Unit0
advance_refund env rt provider r =
    if str_eq r.reference ""
    then attempt (mark_refund_failed "no provider payment for this booking" r.id)
    else let reference = refund_reference provider r.id in
      follow_lookup env rt provider r reference (provider.query_refund reference)
