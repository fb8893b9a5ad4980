-- ===== src/Examples/Rows.antt =====
-- Sample rows that several examples share.
use wantmytime.Prelude.{◌*◌, none, some, true, false}
use wantmytime.Prelude.Int64.{pos}
use wantmytime.Prelude.Time.{hour}
use wantmytime.Store.Schema.{
  SellerProfile, SlotReservation, PaymentAllocation, PaymentAttempt, Quote,
}

abbrev pub seller_profile : SellerProfile
seller_profile = record {
  id = "s-1";
  user_id = "u-2";
  handle = "ada";
  timezone = "Etc/UTC";
  minimum_notice_minutes = 60;
  booking_horizon_days = 30;
  buffer_minutes = 15;
  paused = false;
  readiness_state = "ready";
  publication_state = "published";
  country = "NG";
}

abbrev pub reservation : SlotReservation
reservation = record {
  booking_id = some "b-1";
  active = true;
  seller_id = "s-1";
  occupied_from = 48 * hour;
  occupied_to = 49 * hour;
  reservation_kind = "booking";
  quote_id = none;
  expires_at = none;
}

abbrev pub allocation : PaymentAllocation
allocation = record {
  id = "l-1";
  booking_id = "b-1";
  deduction_minor = pos 2_500;
  gross_minor = pos 50_000;
  seller_entitlement_minor = pos 47_500;
  processor_cost_minor = pos 100;
  fee_basis_points = pos 500;
}

-- A transfer of 501.00, of which 1.00 is the fee of the provider.
abbrev pub attempt : PaymentAttempt
attempt = record {
  id = "a-1";
  booking_id = some "b-1";
  quote_id = some "q-1";
  merchant_reference = "m-1";
  canonical_state = "success";
  buyer_fee_minor = pos 100;
  provider = "kora";
  environment = "live";
  expected_minor = pos 50_100;
  currency = "NGN";
  approved_fee_minor = some (pos 2_500);
  fee_basis_points = some (pos 500);
  provider_transaction_id = none;
  channel = some "bank_transfer";
  paid_minor = none;
  card_country = none;
}

abbrev pub held_quote : Quote
held_quote = record {
  id = "q-1";
  buyer_user_id = "u-1";
  seller_id = "s-1";
  buyer_name = "Chi";
  duration_minutes = pos 30;
  starts_at = 48 * hour;
  expires_at = hour;
  state = "held";
  offer_id = none;
  gross_minor = pos 50_000;
  currency = "NGN";
}
