-- ===== src/Payouts/Account.antt =====
-- payouts.go, setPayoutAccount: the account that a seller is paid into. An account that replaces
-- another one is used 24 hours later.
use wantmytime.Prelude.{
  ℕ, ◌+◌, ◌*◌, ◌++◌, not, ◌&&◌, ◌||◌, Bool, true, false, String, str_eq, Option, none, some, List,
  [], ◌∷◌, find, Unit0, ltb, if◌then◌else◌,
}
use Prim.Native.String.{◌++◌ as text_append, len, [] as no_text, ◌∷◌ as put}
use wantmytime.Prelude.Chars.{trim_space, is_digit}
use wantmytime.Prelude.Time.{Time, hour}
use wantmytime.Store.Schema.{SellerProfile, SellerPayoutAccount}
use wantmytime.Store.Monad.{
  Error, Result, ok, err, database_error, no_rows, seller_required, invalid_account, invalid_bank,
  account_not_found, account_name_required, payouts_unavailable, Session, Tx, ◌>>=◌, ◌>>◌, pure,
  lift, clock, query, select, try_query, in_transaction,
}
use wantmytime.Refunds.Statements.{any, update_where}
use wantmytime.Refunds.Operator.{insert_audit_event}
use wantmytime.Payouts.Markets.{Market, operator_name, market_for_currency_country}
use wantmytime.Payouts.AccountInput.{Unicode, PayoutAccountInput, valid_account, valid_name}

-- What the provider says of an account: its name, a refusal (errPayoutRejected), or no answer.
pub data Resolved : Type 0 where
  named : String → Resolved
  refused : Resolved
  no_reply : Resolved

-- What the handler takes from elsewhere: the provider's list of banks and its check of an account
-- (`client` is whether a client for it can be made), sealPayoutAccount and accountFingerprint,
-- which are cryptography, and strings.ToUpper.
pub record AccountDesk : Type 0 where
  pub unicode : Unicode
  pub to_upper : String → String
  pub client : Bool
  pub bank_name : String → String → Option String
  pub resolve : String → String → String → Resolved
  pub seal : String → String → Option (List ℕ)
  pub fingerprint : String → String → String → Option String

-- Any error is answered as one.
abbrev pub answered : {A : Type 0} → Error → Result A × Session → Result A × Session
answered e (ok a, s) = (ok a, s)
answered e (err _, s) = (err e, s)

abbrev pub or_answer : {A : Type 0} → Error → Tx A → Tx A
or_answer e m s = answered e (m s)

abbrev pub some_or : {A : Type 0} → Error → Option A → Result A
some_or e none = err e
some_or e (some a) = ok a

abbrev with_market : SellerProfile → Option Market → Result (String × Market)
with_market p none = err seller_required
with_market p (some m) = ok (p.id, m)

-- marketForCurrencyCountry trims the country and puts it into upper case.
abbrev pub market_of : AccountDesk → Option SellerProfile → Result (String × Market)
market_of desk none = err no_rows
market_of desk (some p) =
    with_market p (market_for_currency_country (desk.to_upper (trim_space p.country)))

unfoldable pub seller_market : AccountDesk → String → Tx (String × Market)
seller_market desk user_id = do
  row ← select (λ t d. find (λ (p : SellerProfile). str_eq p.user_id user_id) d.seller_profiles)
  lift (market_of desk row)

unfoldable pub bank_of : AccountDesk → Market → PayoutAccountInput → Result String
bank_of desk m q =
    if str_eq q.destination_type "mobile_money"
    then elim (operator_name m q.bank_code) [ none ↦ ok "" | some name ↦ ok name ]
    else some_or invalid_bank (desk.bank_name q.country q.bank_code)

abbrev name_from : Resolved → Result String
name_from (named name) = ok name
name_from refused = err account_not_found
name_from no_reply = err payouts_unavailable

unfoldable pub name_of : AccountDesk → Market → PayoutAccountInput → Result String
name_of desk m q =
    if str_eq q.destination_type "bank_account" && m.name_check
    then if desk.client
      then name_from (desk.resolve q.country q.bank_code q.account_number)
      else err payouts_unavailable
    else if ltb (len q.account_name) 2 || not (valid_name q.account_name)
    then err account_name_required
    else ok q.account_name

-- What is stored.
pub record SavedAccount : Type 0 where
  pub seller_id : String
  pub input : PayoutAccountInput
  pub bank : String
  pub name : String
  pub sealed : List ℕ
  pub fingerprint : String
  pub currency : String

-- number[len(number)-4:]
abbrev pub last4 : String → String
last4 no_text = no_text
last4 (put c s) = let rest = last4 s in if ltb (len s) 4 then put c s else rest

abbrev pub four_digits : String → Bool
four_digits (put a (put b (put c (put d no_text)))) =
    is_digit a && is_digit b && is_digit c && is_digit d
four_digits _ = false

abbrev pub of_seller : String → SellerPayoutAccount → Bool
of_seller seller_id a = str_eq a.seller_id seller_id

abbrev pub replaces : SavedAccount → SellerPayoutAccount → Bool
replaces v a = of_seller v.seller_id a && not (str_eq a.account_fingerprint v.fingerprint)

-- Whether the seller has another account now.
unfoldable pub account_replaced : SavedAccount → Tx Bool
account_replaced v = select (λ t d. any (replaces v) d.seller_payout_accounts)

abbrev account_row : SavedAccount → Time → Time → SellerPayoutAccount
account_row v usable t = record {
  seller_id = v.seller_id;
  bank_code = v.input.bank_code;
  account_sealed = v.sealed;
  account_name = v.name;
  account_last4 = last4 v.input.account_number;
  bank_name = v.bank;
  destination_type = v.input.destination_type;
  usable_from = usable;
  updated_at = t;
  provider = "kora";
  country = v.input.country;
  currency = v.currency;
  account_fingerprint = v.fingerprint;
  verified_at = t;
}

abbrev pub updated_account : SavedAccount → Time → Time → SellerPayoutAccount → SellerPayoutAccount
updated_account v usable t a = record (account_row v usable t) {
  usable_from = (if str_eq a.account_fingerprint v.fingerprint then a.usable_from else usable);
}

-- One row for each seller. The last four characters have to be digits.
abbrev pub put_account :
    SavedAccount → Time → Time → List SellerPayoutAccount → List SellerPayoutAccount
put_account v usable t l =
    if any (of_seller v.seller_id) l
    then update_where (of_seller v.seller_id) (updated_account v usable t) l
    else l ++ (account_row v usable t ∷ [])

unfoldable pub upsert_account : SavedAccount → Time → Tx Unit0
upsert_account v usable = try_query (λ t d.
    if four_digits (last4 v.input.account_number)
    then (
      ok tt,
      record d { seller_payout_accounts = put_account v usable t d.seller_payout_accounts },
    )
    else (err database_error, d))

abbrev is_incomplete : String → SellerProfile → Bool
is_incomplete seller_id p = str_eq p.id seller_id && str_eq p.readiness_state "incomplete"

-- Whether a row was changed.
unfoldable pub open_seller : String → Tx Bool
open_seller seller_id = query (λ t d. (
  any (is_incomplete seller_id) d.seller_profiles,
  record d {
    seller_profiles =
        update_where (is_incomplete seller_id) (λ p. record p { readiness_state = "ready" })
          d.seller_profiles;
  },
))

unfoldable pub audit_opened : String → Bool → Tx Unit0
audit_opened user_id false = pure tt
audit_opened user_id true =
    insert_audit_event user_id "seller.opened_for_bookings" user_id "Payout account saved"

abbrev pub usable_time : Bool → Time → Time
usable_time replaced now = if replaced then now + 24 * hour else now

unfoldable pub write_account : String → SavedAccount → Time → Tx Unit0
write_account user_id v usable = do
  upsert_account v usable
  insert_audit_event user_id "payout_account.set" user_id "Seller saved a payout account"
  opened ← open_seller v.seller_id
  audit_opened user_id opened

unfoldable pub save_account : String → SavedAccount → Tx Unit0
save_account user_id v = in_transaction do
  replaced ← account_replaced v
  now ← clock
  write_account user_id v (usable_time replaced now)

abbrev type_and_bank : PayoutAccountInput → String
type_and_bank q = text_append q.destination_type (text_append ":" q.bank_code)

unfoldable pub account_to_save :
    AccountDesk → String → Market → PayoutAccountInput → Result SavedAccount
account_to_save desk seller_id m q = elim (bank_of desk m q) [
  | err e ↦ err e
  | ok bank ↦ elim (name_of desk m q) [
    | err e ↦ err e
    | ok name ↦ elim (desk.seal seller_id q.account_number) [
      | none ↦ err payouts_unavailable
      | some sealed ↦ elim (desk.fingerprint q.country (type_and_bank q) q.account_number) [
        | none ↦ err payouts_unavailable
        | some print ↦ ok (record {
          seller_id = seller_id;
          input = q;
          bank = bank;
          name = name;
          sealed = sealed;
          fingerprint = print;
          currency = m.currency;
        })
      ]
    ]
  ]
]

unfoldable pub set_payout_account : AccountDesk → String → PayoutAccountInput → Tx Unit0
set_payout_account desk user_id input = do
  (seller_id, m) ← or_answer seller_required (seller_market desk user_id)
  q ← lift (some_or invalid_account (valid_account desk.unicode m input))
  v ← lift (account_to_save desk seller_id m q)
  save_account user_id v
