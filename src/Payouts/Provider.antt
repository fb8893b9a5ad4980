-- ===== src/Payouts/Provider.antt =====
-- payout_provider.go and kora.go: transfers at Kora. Its HTTP interface is a parameter.
use Prim.Native.Char.{code}
use Prim.Native.String.{[], ◌∷◌, ◌++◌ as text_append, len}
use wantmytime.Prelude.{
  ℕ, ◌==◌, not, ◌&&◌, ◌||◌, Bool, true, false, String, str_eq, ltb, leb, if◌then◌else◌,
}
use wantmytime.Prelude.Int64.{ℤ, pos, leb_ℤ, wrap64}
use wantmytime.Prelude.Chars.{decimal, trim_space}
use wantmytime.Payouts.{PayoutTransfer}

pub record PayoutTransferRequest : Type 0 where
  pub destination_type : String
  pub bank_code : String
  pub account_number : String
  pub account_name : String
  pub email : String
  pub reference : String
  pub reason : String
  pub currency : String
  pub amount_minor : ℤ

pub record KoraTransferData : Type 0 where
  pub reference : String
  pub status : String
  pub amount : ℤ
  pub fee : ℤ
  pub message : String

-- An answer of Kora: data, a refusal with its HTTP status and message (koraHTTPError), or any other
-- error, such as a timeout.
pub data Answer : Type 0 where
  data_of : KoraTransferData → Answer
  http_error : ℕ → String → Answer
  no_answer : Answer

-- GET /api/v1/transactions/…, POST /api/v1/transactions/disburse with the body that a request makes,
-- and strings.ToLower.
pub record KoraApi (Bank : Type 0) : Type 0 where
  pub get_transaction : String → Bank → Answer × Bank
  pub disburse : PayoutTransferRequest → Bank → Answer × Bank
  pub to_lower : String → String

abbrev pub has_prefix : String → String → Bool
has_prefix [] s = true
has_prefix (c ∷ t) [] = false
has_prefix (c ∷ t) (x ∷ s) = code c == code x && has_prefix t s

-- strings.Contains(s, t)
unfoldable pub contains : String → String → Bool
contains [] t = has_prefix t []
contains (x ∷ s) t = has_prefix t (x ∷ s) || contains s t

unfoldable pub provider_rejected : ℕ → Bool
provider_rejected status =
    leb 400 status && ltb status 500 && not (status == 429) && not (status == 404)

module _ {Bank : Type 0} (kora : KoraApi Bank) where
  unfoldable pub provider_not_found : ℕ → String → Bool
  provider_not_found status message =
      let msg = kora.to_lower message in
      status == 404
      || (status == 400 && (contains msg "not found" || contains msg "does not exist"))

abbrev pub is_reference_char : ℕ → Bool
is_reference_char c =
    (leb b'a' c && leb c b'z')
    || (leb b'A' c && leb c b'Z')
    || (leb b'0' c && leb c b'9')
    || c == b'-'
    || c == b'_'

abbrev pub all_reference_chars : String → Bool
all_reference_chars [] = true
all_reference_chars (c ∷ s) = is_reference_char (code c) && all_reference_chars s

unfoldable pub valid_reference : String → Bool
valid_reference reference =
    not (ltb (len reference) 8 || ltb 50 (len reference)) && all_reference_chars reference

-- firstNonEmpty of two texts
abbrev pub first_non_empty : String → String → String
first_non_empty a b =
    if not (str_eq (trim_space a) "")
    then trim_space a
    else if not (str_eq (trim_space b) "")
    then trim_space b
    else ""

abbrev pub transfer_of : KoraTransferData → String → String → PayoutTransfer
transfer_of d status message = record {
  reference = d.reference;
  status = status;
  amount = wrap64 d.amount;
  fee_minor = wrap64 d.fee;
  message = message;
}

-- The amounts of the data are of type int64.
unfoldable pub normalized : {Bank : Type 0} → KoraApi Bank → KoraTransferData → PayoutTransfer
normalized kora d =
    let s = kora.to_lower (trim_space d.status) in
    if str_eq s "success" || str_eq s "successful"
    then transfer_of d "success" ""
    else if str_eq s "failed"
    then transfer_of d "failed" (first_non_empty d.message "Kora reported the transfer as failed")
    else if str_eq s "reversed"
    then transfer_of d "reversed" "The bank returned the transfer"
    else transfer_of d "pending" ""

-- The result of findTransfer: `unknown` where the provider has never seen the reference.
pub data Lookup : Type 0 where
  found : PayoutTransfer → Lookup
  unknown : Lookup
  unreachable : Lookup

-- The result of transfer, its errors told apart as the caller does.
pub data Sent : Type 0 where
  accepted : PayoutTransfer → Sent
  funds_pending : Sent
  rejected : String → Sent
  unanswered : Sent

module _ {Bank : Type 0} (kora : KoraApi Bank) where
  unfoldable pub read_lookup : String → Answer → Lookup
  read_lookup reference (data_of d) =
      if str_eq d.reference reference then found (normalized kora d) else unreachable
  read_lookup reference (http_error status message) =
      if provider_not_found kora status message then unknown else unreachable
  read_lookup reference no_answer = unreachable

  unfoldable pub find_transfer : String → Bank → Lookup × Bank
  find_transfer reference bank =
      let (answer, bank') = kora.get_transaction reference bank in
      (read_lookup reference answer, bank')

  unfoldable pub invalid_request : PayoutTransferRequest → Bool
  invalid_request q =
      leb_ℤ q.amount_minor (pos 0)
      || str_eq q.account_number ""
      || str_eq q.bank_code ""
      || not (valid_reference q.reference)

  abbrev http_error_text : ℕ → String → String
  http_error_text status message =
      let text = text_append "Kora returned HTTP " (decimal (pos status)) in
      if str_eq message "" then text else text_append text (text_append ": " message)

  unfoldable pub read_sent : String → Answer → Sent
  read_sent reference (data_of d) =
      if not (str_eq d.reference "") && not (str_eq d.reference reference)
      then unanswered
      else accepted (record (normalized kora d) { reference = reference })
  read_sent reference (http_error status message) =
      let msg = kora.to_lower message in
      if contains msg "insufficient" || contains msg "balance"
      then funds_pending
      else if provider_rejected status
      then rejected (text_append "payout rejected by provider: " (http_error_text status message))
      else unanswered
  read_sent reference no_answer = unanswered

  abbrev disbursed_answer : String → Answer × Bank → Sent × Bank
  disbursed_answer reference (answer, bank) = (read_sent reference answer, bank)

  unfoldable pub transfer : PayoutTransferRequest → Bank → Sent × Bank
  transfer q bank =
      if invalid_request q
      then (unanswered, bank)
      else disbursed_answer q.reference (kora.disburse q bank)
