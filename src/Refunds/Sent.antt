-- ===== src/Refunds/Sent.antt =====
-- When the worker sends a refund to the provider (advanceRefund).
use wantmytime.Prelude.{
  ◌≡◌, refl, Bool, true, false, ◌&&◌, String, str_eq, Option, none, some, Bool-cases, inl, inr,
  arith,
}
use wantmytime.Prelude.Int64.{ℤ}
use wantmytime.Store.Schema.{queued}
use wantmytime.Ledger.Journal.{Runtime}
use wantmytime.Refunds.Statements.{has_state}
use wantmytime.Refunds.Create.{Settings}
use wantmytime.Refunds.Worker.{
  Reply, answered, refused, Provider, ClaimedRefund, refund_reference, follow_lookup,
  advance_refund,
}

-- The provider answers that it has never seen the refund.
abbrev pub is_unknown : Reply (Option String) → Bool
is_unknown (refused e) = false
is_unknown (answered (some status)) = false
is_unknown (answered none) = true

follow_lookup-same :
    (env : Settings) (rt : Runtime) (p : Provider) (r : ClaimedRefund) (reference : String)
    (other : String → String → ℤ → Reply String) (reply : Reply (Option String))
    → (has_state r.state queued && is_unknown reply) ≡ false
    → follow_lookup env rt p r reference reply
      ≡ follow_lookup env rt (record p { refund = other }) r reference reply
unfolding follow_lookup
follow_lookup-same env rt p r reference other (refused e) h = refl
follow_lookup-same env rt p r reference other (answered (some status)) h = refl
follow_lookup-same env rt p r reference other (answered none) h =
    let kept : has_state r.state queued ≡ false = ground arith in rw kept refl

-- Unless the refund is queued and the provider answers that it does not know its reference, what the
-- worker does with it does not depend on how the provider answers to a new refund: none is sent. So a
-- refund that was sent before a crash, or that was submitted, is not sent again.
pub advance_refund_sends_unknown :
    (env : Settings) (rt : Runtime) (p : Provider) (r : ClaimedRefund)
    (other : String → String → ℤ → Reply String)
    → (has_state r.state queued && is_unknown (p.query_refund (refund_reference p r.id))) ≡ false
    → advance_refund env rt p r ≡ advance_refund env rt (record p { refund = other }) r
unfolding advance_refund
advance_refund_sends_unknown env rt p r other h = elim (Bool-cases (str_eq r.reference "")) [
  | inl unpaid ↦ rw unpaid refl
  | inr paid ↦ rw paid (follow_lookup-same env rt p r (refund_reference p r.id) other _ h)
]
