-- ===== src/Payouts/AccountInput.antt =====
-- payouts.go, payoutAccountInput.valid and digitsOnly; profiles.go, validName.
use Prim.Native.Char.{Char, char, code}
use Prim.Native.String.{[], ◌∷◌, ◌++◌ as text_append, len}
use wantmytime.Prelude.{
  ◌==◌, not, ◌&&◌, ◌||◌, Bool, true, false, String, str_eq, Option, none, some, ltb, leb,
  if◌then◌else◌,
}
use wantmytime.Prelude.Chars.{is_space, trim_space}
use wantmytime.Payouts.Markets.{Market, operator_name}

-- unicode.IsDigit and unicode.IsLetter
pub record Unicode : Type 0 where
  pub is_digit : Char → Bool
  pub is_letter : Char → Bool

abbrev pub only_digits : Unicode → String → String
only_digits u [] = []
only_digits u (c ∷ s) =
    let rest = only_digits u s in
    if u.is_digit c
    then c ∷ rest
    else if code c == 32 || code c == 45
    then rest
    else char 120 tt ∷ rest

unfoldable pub digits_only : Unicode → String → String
digits_only u s = only_digits u (trim_space s)

-- strings.Contains(s, "x")
abbrev pub has_x : String → Bool
has_x [] = false
has_x (c ∷ s) = code c == 120 || has_x s

-- The words of a text with one blank between two of them: `seen` is whether a word stands before,
-- `gap` whether a blank does.
abbrev pub words_joined : Bool → Bool → String → String
words_joined seen gap [] = []
words_joined seen gap (c ∷ s) =
    let blank = words_joined seen true s in
    let rest = c ∷ words_joined true false s in
    if is_space c then blank else if seen && gap then char 32 tt ∷ rest else rest

-- strings.Join(strings.Fields(s), " ")
unfoldable pub join_fields : String → String
join_fields s = words_joined false false s

pub record PayoutAccountInput : Type 0 where
  pub country : String
  pub destination_type : String
  pub bank_code : String
  pub account_number : String
  pub account_name : String

unfoldable pub normalized_input : Unicode → Market → PayoutAccountInput → PayoutAccountInput
normalized_input u m q = record {
  country = m.country;
  destination_type =
      (if str_eq (trim_space q.destination_type) ""
        then "bank_account"
        else trim_space q.destination_type);
  bank_code = trim_space q.bank_code;
  account_number = digits_only u q.account_number;
  account_name = join_fields q.account_name;
}

-- strings.CutPrefix
abbrev pub cut_prefix : String → String → Option String
cut_prefix [] s = some s
cut_prefix (c ∷ t) [] = none
cut_prefix (c ∷ t) (d ∷ s) = let rest = cut_prefix t s in if code c == code d then rest else none

abbrev after_zero : Market → String → Option String → String
after_zero m number (some rest) = text_append m.phone_prefix rest
after_zero m number none = elim (cut_prefix m.phone_prefix number) [
  | some rest ↦ number
  | none ↦ text_append m.phone_prefix number
]

-- A wallet number in international form.
unfoldable pub wallet_number : Market → String → String
wallet_number m number = after_zero m number (cut_prefix "0" number)

abbrev pub is_code_char : Unicode → Char → Bool
is_code_char u c = u.is_digit c || u.is_letter c || code c == 45 || code c == 95

abbrev pub is_code : Unicode → String → Bool
is_code u [] = true
is_code u (c ∷ s) = is_code_char u c && is_code u s

abbrev valid_wallet : PayoutAccountInput → Market → Option String → Option PayoutAccountInput
valid_wallet q m none = none
valid_wallet q m (some name) =
    let number = wallet_number m q.account_number in
    if leb 10 (len number) && leb (len number) 15
    then some (record q { account_number = number })
    else none

abbrev pub wrong_length : Market → String → Bool
wrong_length m number =
    (ltb 0 m.account_digits && not (len number == m.account_digits))
    || (m.account_digits == 0 && (ltb (len number) 6 || ltb 20 (len number)))

abbrev valid_bank_account : Unicode → Market → PayoutAccountInput → Option PayoutAccountInput
valid_bank_account u m q =
    if not m.bank_payouts
      || wrong_length m q.account_number
      || ltb (len q.bank_code) 2
      || ltb 20 (len q.bank_code)
    then none
    else if is_code u q.bank_code
    then some q
    else none

abbrev valid_normalized : Unicode → Market → PayoutAccountInput → Option PayoutAccountInput
valid_normalized u m q =
    if has_x q.account_number
    then none
    else if str_eq q.destination_type "mobile_money"
    then valid_wallet q m (operator_name m q.bank_code)
    else if str_eq q.destination_type "bank_account"
    then valid_bank_account u m q
    else none

-- The input as `valid` leaves it, if it is valid.
unfoldable pub valid_account : Unicode → Market → PayoutAccountInput → Option PayoutAccountInput
valid_account u m q = valid_normalized u m (normalized_input u m q)

-- unicode.IsControl, U+2028 and U+2029
abbrev pub breaks_line : Char → Bool
breaks_line c =
    ltb (code c) 32 || (leb 127 (code c) && leb (code c) 159) || code c == 8232 || code c == 8233

abbrev pub has_break : String → Bool
has_break [] = false
has_break (c ∷ s) = breaks_line c || has_break s

unfoldable pub valid_name : String → Bool
valid_name v = not (str_eq v "" || ltb 80 (len v)) && not (has_break v)
