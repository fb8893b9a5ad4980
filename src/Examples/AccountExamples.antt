-- ===== src/Examples/AccountExamples.antt =====
-- A payout that a reported problem holds back, the text of an amount, and a payout account that is
-- replaced.
use wantmytime.Prelude.{◌≡◌, refl, true, none, some, [], ◌∷◌, arith, leb, ◌&&◌, inl, inr}
use wantmytime.Prelude.Int64.{pos}
use wantmytime.Store.Schema.{Db, SellerPayout, SellerPayoutAccount, scheduled}
use wantmytime.Store.Monad.{
  ok, Session, query, select, try_query, exec, in_transaction, finish, commit,
}
use wantmytime.Store.Outside.{World}
use wantmytime.Refunds.Operator.{insert_audit_event}
use wantmytime.Prelude.Time.{hour}
use wantmytime.Prelude.{◌*◌}
use wantmytime.Payouts.Release.{release_payout}
use wantmytime.Payouts.Due.{at, IsPayable, released, due_payout_is_released}
use wantmytime.Payouts.Reasons.{HasReason}
use wantmytime.Payouts.Worker.{advance_payout}
use wantmytime.Payouts.Once.{Disbursements}
use wantmytime.Payouts.Held.{IsHeld, held_payout_stays}
use wantmytime.Payouts.Markets.{operator_name, market_for_currency_country}
use wantmytime.Payouts.AccountInput.{
  PayoutAccountInput, digits_only, join_fields, normalized_input, valid_account, valid_name,
}
use wantmytime.Payouts.Account.{
  AccountDesk, named, account_replaced, upsert_account, open_seller, audit_opened, write_account,
  save_account, bank_of, name_of, account_to_save, seller_market, set_payout_account,
}
use wantmytime.Payouts.Cooldown.{AccountsCoolDown, payout_account_cools_down}
use wantmytime.Payments.Money.{major_amount, parse_major}
use wantmytime.Payments.Money.RoundTrip.{parse_major-major_amount}
use wantmytime.Prelude.Chars.{trim_space}
use wantmytime.Examples.LedgerExamples.{empty}
use wantmytime.Examples.RefundExamples.{booked}
use wantmytime.Examples.Rows.{seller_profile}
use wantmytime.Examples.TransferExamples.{kora, desk, payout}
use Prim.Native.Char.{code}

parse_major-major_amount_example : parse_major (major_amount (pos 1_050)) ≡ some (pos 1_050)
parse_major-major_amount_example = parse_major-major_amount 1_050 (omega arith)

abbrev waiting : SellerPayout
waiting = record payout { state = scheduled; amount_minor = none; recovery_minor = pos 0 }

abbrev reported : World Disbursements
reported = record {
  session = record empty {
    db = record empty.db {
      seller_payouts = waiting ∷ [];
      bookings = record booked { issue_reason = some "no sound" } ∷ [];
      seller_profiles = seller_profile ∷ [];
    };
  };
  outside = [];
}

reported-IsHeld : IsHeld "p-1" reported.session.db
reported-IsHeld = (
  waiting,
  refl,
  refl,
  (record booked { issue_reason = some "no sound" }, refl, inl ("no sound", refl, refl, inl refl)),
)

held_payout_stays_example :
    ((advance_payout kora desk "p-1" reported).1.session.db ≡ reported.session.db)
    × ((advance_payout kora desk "p-1" reported).1.outside ≡ reported.outside)
held_payout_stays_example = held_payout_stays kora desk "p-1" reported reported-IsHeld

abbrev account_desk : AccountDesk
account_desk = record {
  unicode = record {
    is_digit = λ c. leb 48 (code c) && leb (code c) 57;
    is_letter = λ c. leb 97 (code c) && leb (code c) 122;
  };
  to_upper = λ s. s;
  client = true;
  bank_name = λ country bank. some "Bank";
  resolve = λ country bank number. named "Ada";
  seal = λ seller_id number. some (1 ∷ []);
  fingerprint = λ country bank number. some number;
}

abbrev old_account : SellerPayoutAccount
old_account = record {
  seller_id = "s-1";
  bank_code = "058";
  account_sealed = 1 ∷ [];
  account_name = "Ada";
  account_last4 = "6789";
  bank_name = "Bank";
  destination_type = "bank_account";
  usable_from = 0;
  updated_at = 0;
  provider = "kora";
  country = "NG";
  currency = "NGN";
  account_fingerprint = "0123456789";
  verified_at = 0;
}

abbrev with_account : Session
with_account = record empty {
  db = record empty.db {
    seller_payout_accounts = old_account ∷ [];
    seller_profiles = seller_profile ∷ [];
  };
}

abbrev other_account : PayoutAccountInput
other_account = record {
  country = "";
  destination_type = "";
  bank_code = "044";
  account_number = "0690 000 031";
  account_name = "";
}

abbrev saved : Session
saved = (set_payout_account account_desk "u-2" other_account with_account).1

payout_account_cools_down_example :
    AccountsCoolDown with_account.now with_account.db.seller_payout_accounts
      saved.db.seller_payout_accounts
unfolding set_payout_account seller_market account_to_save bank_of name_of save_account
    account_replaced write_account upsert_account open_seller audit_opened insert_audit_event
    in_transaction finish commit query select try_query exec operator_name
    market_for_currency_country digits_only join_fields normalized_input valid_account valid_name
    trim_space
payout_account_cools_down_example =
    payout_account_cools_down account_desk "u-2" other_account with_account saved refl

abbrev due : Db
due = record empty.db {
  seller_payouts = waiting ∷ [];
  bookings = booked ∷ [];
  seller_profiles = seller_profile ∷ [];
  seller_payout_accounts = old_account ∷ [];
}

due-HasNoReason : HasReason due booked → ⊥
due-HasNoReason (inl (reason, given, unsolved, who)) = absurd (cc)
due-HasNoReason (inr (inl report)) = absurd report
due-HasNoReason (inr (inr refund)) = absurd refund

due-IsPayable : IsPayable 60 "p-1" (10 * hour) due waiting booked old_account 47_500 0
due-IsPayable = record {
  in_table = refl;
  waits = refl;
  booked = refl;
  paid_once = refl;
  no_reason = due-HasNoReason;
  due = (30, refl, omega arith, omega arith);
  entitled = refl;
  refunds = refl;
  some_left = omega arith;
  fits = omega arith;
  account = refl;
  usable = omega arith;
  no_debt = tt;
}

due_payout_is_released_example : release_payout desk.payouts "p-1" (at (10 * hour) due) ≡ (
  ok true,
  at (10 * hour) (
      released desk.payouts "p-1"
        (10 * hour)
        due
        waiting
        booked
        old_account
        47_500
        0
        due-IsPayable),
)
due_payout_is_released_example =
    due_payout_is_released desk.payouts "p-1" (10 * hour) due waiting booked old_account 47_500 0
      due-IsPayable
