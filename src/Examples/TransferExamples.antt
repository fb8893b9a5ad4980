-- ===== src/Examples/TransferExamples.antt =====
-- A payout of 475.00, of which 75.00 repays an earlier refund, and a provider that takes on every
-- transfer at once.
use wantmytime.Prelude.{
  refl, inl, inr, true, String, none, some, [], ◌∷◌, Bool-cases, arith, if◌then◌else◌,
}
use wantmytime.Prelude.Int64.{pos}
use wantmytime.Store.Schema.{SellerPayout, processing}
use wantmytime.Store.Outside.{World}
use wantmytime.Payouts.Provider.{
  Answer, data_of, http_error, KoraApi, KoraTransferData, PayoutTransferRequest,
}
use wantmytime.Payouts.Send.{SendDesk, send_payout}
use wantmytime.Payouts.Event.{kora_webhook}
use wantmytime.Payouts.Reversal.{check_payout_reversal}
use wantmytime.Payouts.Reference.{payout_reference}
use wantmytime.Payments.Booked.{first_payout_reference, without_dashes}
use wantmytime.Payouts.Worker.{process_payouts}
use wantmytime.Payouts.Once.{Disbursements, is_used, KoraLaws, SendsPayout, send_payout_once}
use wantmytime.Payouts.Sound.{Book, BookFits, IsSound}
use wantmytime.Payouts.Cycle.{IsGood, here, next, work, event, reversal, Reach-IsGood}
use wantmytime.Examples.LedgerExamples.{rt, empty}
use wantmytime.Examples.RefundExamples.{env, booked}
use wantmytime.Examples.Rows.{seller_profile}

abbrev transfer_data : String → KoraTransferData
transfer_data reference = record {
  reference = reference;
  status = "success";
  amount = pos 40_000;
  fee = pos 50;
  message = "";
}

abbrev look_up : String → Disbursements → Answer × Disbursements
look_up reference l =
    (if is_used reference l then data_of (transfer_data reference) else http_error 404 "", l)

abbrev take_on : PayoutTransferRequest → Disbursements → Answer × Disbursements
take_on q l = (data_of (transfer_data q.reference), (q.reference, q.amount_minor) ∷ l)

abbrev pub kora : KoraApi Disbursements
kora = record { get_transaction = look_up; disburse = take_on; to_lower = λ s. s }

abbrev taken : Disbursements → Disbursements
taken l = l

kora-laws : KoraLaws kora taken
kora-laws = record {
  lookup_keeps = λ reference b. refl;
  unknown_is_unused = λ reference b status message e u. elim (Bool-cases (is_used reference b)) [
    | inl used ↦ ground (arith, e, used)
    | inr unused ↦ unused
  ];
  request_adds = λ q b. inr refl;
}

abbrev pub desk : SendDesk
desk = record {
  payouts = record { settings = env; runtime = rt; delay = 60; max_bps = pos 5_000 };
  open_account = λ seller_id text. some "0123456789";
}

abbrev pub payout : SellerPayout
payout = record {
  id = "p-1";
  booking_id = "b-1";
  seller_id = "s-1";
  entitlement_minor = pos 47_500;
  amount_minor = some (pos 47_500);
  recovery_minor = pos 7_500;
  fee_minor = pos 0;
  currency = "NGN";
  state = processing;
  reference = "wmt-payout-b1";
  provider_transfer_code = none;
  generation = pos 1;
  provider = "kora";
  funds_available_at = 0;
  bank_code = some "058";
  account_sealed = 1 ∷ [];
  account_name = some "Ada";
  account_last4 = some "6789";
  bank_name = some "Bank";
  destination_type = "bank_account";
  attempts = pos 0;
  next_attempt_at = 0;
  last_error = none;
  released_at = some 0;
  paid_at = none;
  updated_at = 0;
}

abbrev start : World Disbursements
start = record {
  session = record empty {
    db = record empty.db {
      seller_payouts = payout ∷ [];
      bookings = booked ∷ [];
      seller_profiles = seller_profile ∷ [];
    };
  };
  outside = [];
}

send_payout_once_example :
    SendsPayout kora taken kora-laws desk "p-1" start.session.db []
      (send_payout kora desk "p-1" start).1.outside
send_payout_once_example = send_payout_once kora taken kora-laws desk "p-1" start

abbrev book : Book
book id = ("b-1", pos 47_500)

book-Fits : BookFits book
book-Fits id = (47_500, refl, omega arith)

payout-IsSound : IsSound book payout
unfolding payout_reference first_payout_reference without_dashes
payout-IsSound = record {
  booked = refl;
  entitled = refl;
  referenced = refl;
  amounts = (47_500, (7_500, refl, refl, omega arith, omega arith, (47_500, refl, omega arith)));
}

start-IsGood : IsGood kora taken desk book start
start-IsGood = ((λ j. refl, ((payout-IsSound, tt), tt)), tt)

abbrev noticed : World Disbursements
noticed = (kora_webhook kora desk.payouts true "transfer.success" "wmt-payout-b1" start).1

abbrev sent : World Disbursements
sent = (process_payouts kora desk true true noticed).1

abbrev returned : World Disbursements
returned = (check_payout_reversal kora desk.payouts true "wmt-payout-b1" sent).1

Reach-IsGood_example : IsGood kora taken desk book returned
Reach-IsGood_example =
    Reach-IsGood kora taken desk kora-laws book book-Fits
      (next (next (next here (event true "transfer.success" "wmt-payout-b1")) (work true true))
        (reversal true "wmt-payout-b1"))
      start-IsGood
