-- ===== src/Payouts/Markets.antt =====
-- cmd/api/markets.go: the countries that sellers can be based in.
use wantmytime.Prelude.{ℕ, Bool, true, false, String, str_eq, Option, some, List, [], ◌∷◌, find}
use wantmytime.Prelude.Options.{◌>>=◌}

pub record MobileOperator : Type 0 where
  pub code : String
  pub name : String

pub record Market : Type 0 where
  pub country : String
  pub name : String
  pub currency : String
  pub timezone : String
  pub channels : List String
  pub account_digits : ℕ
  pub bank_payouts : Bool
  pub name_check : Bool
  pub mobile_money : List MobileOperator
  pub phone_prefix : String

abbrev operator : String → String → MobileOperator
operator code name = record { code = code; name = name }

abbrev pub nigeria : Market
nigeria = record {
  country = "NG";
  name = "Nigeria";
  currency = "NGN";
  timezone = "Africa/Lagos";
  channels = "bank_transfer" ∷ "pay_with_bank" ∷ [];
  account_digits = 10;
  bank_payouts = true;
  name_check = true;
  mobile_money = [];
  phone_prefix = "";
}

abbrev pub ghana : Market
ghana = record {
  country = "GH";
  name = "Ghana";
  currency = "GHS";
  timezone = "Africa/Accra";
  channels = "mobile_money" ∷ [];
  account_digits = 0;
  bank_payouts = true;
  name_check = false;
  mobile_money =
      operator "mtn-gh" "MTN MoMo"
      ∷ operator "vodafone-gh" "Telecel Cash"
      ∷ operator "airteltigo-gh" "AirtelTigo Money"
      ∷ [];
  phone_prefix = "233";
}

abbrev pub kenya : Market
kenya = record {
  country = "KE";
  name = "Kenya";
  currency = "KES";
  timezone = "Africa/Nairobi";
  channels = "mobile_money" ∷ [];
  account_digits = 0;
  bank_payouts = true;
  name_check = false;
  mobile_money = operator "safaricom-ke" "M-Pesa" ∷ operator "airtel-ke" "Airtel Money" ∷ [];
  phone_prefix = "254";
}

abbrev pub all_markets : List Market
all_markets = nigeria ∷ ghana ∷ kenya ∷ []

unfoldable pub operator_name : Market → String → Option String
operator_name m code = do
  o ← find (λ (o : MobileOperator). str_eq o.code code) m.mobile_money
  some o.name

-- The argument is the country in upper case without blanks around it.
unfoldable pub market_for_currency_country : String → Option Market
market_for_currency_country country = find (λ (m : Market). str_eq m.country country) all_markets
