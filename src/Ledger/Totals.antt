-- ===== src/Ledger/Totals.antt =====
-- ledger.go, postLedgerJournal: the checks of the lines and their totals.
use wantmytime.Prelude.{◌||◌, String, str_eq, Option, List, [], ◌∷◌, if◌then◌else◌}
use wantmytime.Prelude.Int64.{ℤ, pos, leb_ℤ, ltb_ℤ, max_int64, add64, sub64}
use wantmytime.Store.Monad.{
  Result, ok, err, invalid_ledger_entry, ledger_total_overflow, invalid_ledger_side,
}

pub record LedgerLine : Type 0 where
  pub account_code : String
  pub scope_id : Option String
  pub side : String
  pub amount : ℤ

abbrev pub ledger_line : String → Option String → String → ℤ → LedgerLine
ledger_line account_code scope_id side amount = record {
  account_code = account_code;
  scope_id = scope_id;
  side = side;
  amount = amount;
}

-- One round of the loop over the lines, on the totals `debit` and `credit`.
unfoldable pub add_line : LedgerLine → ℤ → ℤ → Result (ℤ × ℤ)
add_line line debit credit =
    if str_eq line.account_code "" || leb_ℤ line.amount (pos 0)
    then err invalid_ledger_entry
    else if str_eq line.side "debit"
    then if ltb_ℤ (sub64 max_int64 line.amount) debit
      then err ledger_total_overflow
      else ok (add64 debit line.amount, credit)
    else if str_eq line.side "credit"
    then if ltb_ℤ (sub64 max_int64 line.amount) credit
      then err ledger_total_overflow
      else ok (debit, add64 credit line.amount)
    else err invalid_ledger_side

unfoldable pub ledger_totals : List LedgerLine → ℤ → ℤ → Result (ℤ × ℤ)
unfolding add_line
ledger_totals [] debit credit = ok (debit, credit)
ledger_totals (line ∷ lines) debit credit = elim (add_line line debit credit) [
  | ok (debit', credit') ↦ ledger_totals lines debit' credit'
  | err e ↦ err e
]
