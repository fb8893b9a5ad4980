-- ===== src/Examples/PaymentExamples.antt =====
-- A transfer of 501.00 for a booking at 500.00.
use wantmytime.Prelude.{◌≡◌, refl, none, some, [], ◌∷◌, arith}
use wantmytime.Prelude.Int64.{pos}
use wantmytime.Store.Monad.{Session, ok}
use wantmytime.Ledger.Journal.{check_journal}
use wantmytime.Availability.Zone.{utc}
use wantmytime.Payments.Charge.{
  Desk, VerifiedCharge, snapshot_of, invalid_fees, read_snapshot, with_fee, charge_lines,
  apply_verified_charge,
}
use wantmytime.Payments.Journal.{charge_lines-accepted}
use wantmytime.Examples.LedgerExamples.{rt, empty}
use wantmytime.Examples.RefundExamples.{env}
use wantmytime.Examples.Rows.{attempt, held_quote, reservation, seller_profile}
use wantmytime.Prelude.Time.{hour}
use wantmytime.Ledger.Posting.{LedgerIsBalanced}
use wantmytime.Payments.Balanced.{apply_verified_charge-LedgerIsBalanced}
use wantmytime.Prelude.Int64.{sub64}

abbrev desk : Desk
desk = record {
  settings = env;
  runtime = rt;
  environment = "live";
  zones = λ name. some utc;
  rfc3339 = λ t. "2026-01-01T00:00:00Z";
  to_lower = λ s. s;
  subject_hash = λ s. [];
  settlement_hours = λ channel. none;
}

abbrev charge : VerifiedCharge
charge = record {
  reference = "m-1";
  status = "success";
  amount = pos 50_100;
  paid = pos 50_100;
  currency = "NGN";
  fee = pos 100;
  channel = "bank_transfer";
  transaction_id = "t-1";
  card_country = "";
}

charge_lines-accepted_example :
    check_journal "payment_attempt" "a-1" "NGN" (
      charge_lines
        (with_fee (snapshot_of env attempt "q-1" (pos 2_500) (pos 500)) charge)
        "s-1"
        (pos 100))
    ≡ ok tt
unfolding read_snapshot invalid_fees sub64
charge_lines-accepted_example =
    charge_lines-accepted env attempt (snapshot_of env attempt "q-1" (pos 2_500) (pos 500)) charge
      "NGN" "s-1" 50_100 100 100 refl refl refl (omega arith) (omega arith) (omega arith) refl refl
      refl

-- An attempt that is not booked yet, its quote, the hold, the seller and the buyer.
abbrev paying : Session
paying = record empty {
  db = record empty.db {
    payment_attempts = record attempt { booking_id = none; canonical_state = "pending" } ∷ [];
    quotes = held_quote ∷ [];
    slot_reservations =
        record reservation {
          booking_id = none;
          reservation_kind = "hold";
          quote_id = some "q-1";
          expires_at = some hour;
        }
        ∷ [];
    seller_profiles = seller_profile ∷ [];
    users = record { id = "u-2"; status = "active" } ∷ [];
    user_identities =
        record {
          user_id = "u-1";
          identity_type = "email";
          normalized_identifier = "chi@example.com";
          verified_at = some 0;
        }
        ∷ [];
  };
}

apply_verified_charge-LedgerIsBalanced_example :
    LedgerIsBalanced (apply_verified_charge desk "m-1" charge paying).1.db
apply_verified_charge-LedgerIsBalanced_example =
    apply_verified_charge-LedgerIsBalanced desk "m-1" charge paying (omega arith) (λ j. refl)
