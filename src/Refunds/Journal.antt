-- ===== src/Refunds/Journal.antt =====
-- The journal of a refund: the ledger accepts it, and it books each part where it belongs
-- (refunds.go).
use Prim.Native.String.{len}
use wantmytime.Prelude.{
  ℕ, ◌+◌, ◌^◌, ◌<◌, ◌≡◌, Bool, false, true, ◌&&◌, String, str_eq, eq_refl, ◌==◌, Option, none, some,
  List, [], ◌∷◌, if◌then◌else◌, arith,
}
use wantmytime.Prelude.Int64.{pos, pos_part, sub64_pos, add64_pos}
use wantmytime.Store.Monad.{ok}
use wantmytime.Ledger.Totals.{LedgerLine, ledger_totals}
use wantmytime.Ledger.Journal.{check_journal}
use wantmytime.Refunds.Statements.{RefundForFinalize}
use wantmytime.Refunds.Finalize.{refund_lines}

refund_lines_checked :
    (r : RefundForFinalize) (currency : String) (p s : ℕ)
    → r.amount_minor ≡ pos (p + s)
    → r.platform_share_minor ≡ pos p
    → r.seller_share_minor ≡ pos s
    → 0 < p + s
    → p + s < 2 ^ 63
    → str_eq r.id "" ≡ false
    → (len currency == 3) ≡ true
    → check_journal "refund" r.id currency (refund_lines r) ≡ ok tt
unfolding check_journal ledger_totals refund_lines
refund_lines_checked r currency p s amount platform seller positive fits named coded = ground (
  arith,
  sub64_pos 9_223_372_036_854_775_807 (p + s),
  sub64_pos 9_223_372_036_854_775_807 p,
  sub64_pos 9_223_372_036_854_775_807 s,
  add64_pos 0 (p + s),
  add64_pos 0 p,
  add64_pos 0 s,
  add64_pos p s,
)

abbrev same_scope : Option String → Option String → Bool
same_scope none none = true
same_scope (some a) (some b) = str_eq a b
same_scope none (some b) = false
same_scope (some a) none = false

-- What lines put on one side of one account.
abbrev pub on_account : String → Option String → String → List LedgerLine → ℕ
on_account code scope side [] = 0
on_account code scope side (line ∷ lines) =
    (if str_eq line.account_code code && same_scope line.scope_id scope && str_eq line.side side
      then pos_part line.amount
      else 0)
    + on_account code scope side lines

-- The provider is credited with the refund; the platform's fee is debited with its part; the seller's
-- part is debited to their payable, or to their receivable where they owe it, and never to both.
abbrev pub MovesRefund : RefundForFinalize → ℕ → ℕ → List LedgerLine → Type 0
MovesRefund r p s lines =
    (on_account "provider_receivable" none "credit" lines ≡ p + s)
    × (on_account "platform_fee_revenue" none "debit" lines ≡ p)
    × (on_account "seller_payable" (some r.seller_id) "debit" lines
        ≡ (if str_eq r.seller_liability "payable" then s else 0))
    × (on_account "seller_receivable" (some r.seller_id) "debit" lines
        ≡ (if str_eq r.seller_liability "payable" then 0 else s))

refund_lines-MovesRefund :
    (r : RefundForFinalize) (p s : ℕ)
    → r.amount_minor ≡ pos (p + s)
    → r.platform_share_minor ≡ pos p
    → r.seller_share_minor ≡ pos s
    → MovesRefund r p s (refund_lines r)
unfolding refund_lines
refund_lines-MovesRefund r p s amount platform seller =
    let same = eq_refl r.seller_id in
    (
      ground (arith, amount, platform, seller, same),
      ground (arith, amount, platform, seller, same),
      ground (arith, amount, platform, seller, same),
      ground (arith, amount, platform, seller, same),
    )

-- A refund whose two parts add up to a positive amount of int64 gives a journal that the ledger
-- accepts, which credits the provider's account with the amount, and debits the platform's part to its
-- fees and the seller's part to what the seller is due, or to what they owe if the refund says so.
pub refund_lines-accepted :
    (r : RefundForFinalize) (currency : String) (p s : ℕ)
    → r.amount_minor ≡ pos (p + s)
    → r.platform_share_minor ≡ pos p
    → r.seller_share_minor ≡ pos s
    → 0 < p + s
    → p + s < 2 ^ 63
    → str_eq r.id "" ≡ false
    → (len currency == 3) ≡ true
    → (check_journal "refund" r.id currency (refund_lines r) ≡ ok tt)
      × MovesRefund r p s (refund_lines r)
refund_lines-accepted r currency p s amount platform seller positive fits named coded = (
  refund_lines_checked r currency p s amount platform seller positive fits named coded,
  refund_lines-MovesRefund r p s amount platform seller,
)
