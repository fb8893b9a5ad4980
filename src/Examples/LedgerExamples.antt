-- ===== src/Examples/LedgerExamples.antt =====
-- A ledger with no journal, a payment of 500.00 posted twice, and a second journal of its source.
use wantmytime.Prelude.{
  ℕ, ◌≡◌, refl, none, List, [], ◌∷◌, ◌++◌, map, ◌⊎◌, String, arith, length, true, if◌then◌else◌,
  ◌==◌, ◌↔◌,
}
use wantmytime.Prelude.Int64.{pos, add64, sub64}
use wantmytime.Store.Monad.{Session, ok, err, source_identity_reused, query, select, exec}
use wantmytime.Ledger.Totals.{LedgerLine, ledger_totals}
use wantmytime.Ledger.Bytes.{equal_bytes, equal_bytes_iff}
use wantmytime.Ledger.Journal.{
  Runtime, check_journal, post_ledger_journal, insert_ledger_journal, insert_ledger_account,
  insert_ledger_entry, find_ledger_account, ledger_journal_by_source,
}
use wantmytime.Ledger.Booked.{Adds}
use wantmytime.Ledger.Balance.{postings, line_posting, others, IsBalanced}
use wantmytime.Ledger.Posting.{
  LedgerIsBalanced, post_ledger_journal_effect, post_ledger_journal-LedgerIsBalanced,
  post_ledger_journal_retry, post_ledger_journal_reuse,
}

abbrev pub numbered : ℕ → String
numbered n = if n == 0 then "id-0" else if n == 1 then "id-1" else if n == 2 then "id-2" else "id-x"

abbrev pub rt : Runtime
rt = record {
  random_uuid = numbered;
  journal_digest = λ currency description lines. length lines ∷ [];
}

abbrev pub empty : Session
empty = record {
  db = record {
    draws = 0;
    no_show_reports = [];
    seller_payout_accounts = [];
    push_outbox = [];
    push_subscriptions = [];
    marketing_contacts = [];
    product_events = [];
    user_identities = [];
    users = [];
    offers = [];
    calendar_busy_blocks = [];
    availability_overrides = [];
    availability_windows = [];
    ledger_accounts = [];
    ledger_journals = [];
    ledger_entries = [];
    refunds = [];
    seller_recoveries = [];
    bookings = [];
    seller_profiles = [];
    payment_allocations = [];
    payment_attempts = [];
    seller_payouts = [];
    slot_reservations = [];
    reschedule_requests = [];
    cancellation_requests = [];
    notification_outbox = [];
    calendar_connections = [];
    calendar_jobs = [];
    audit_events = [];
    quotes = [];
    payment_exceptions = [];
    settlement_items = [];
  };
  faults = [];
  now = 0;
}

abbrev line : String → String → ℕ → LedgerLine
line code side amount = record {
  account_code = code;
  scope_id = none;
  side = side;
  amount = pos amount;
}

abbrev payment : List LedgerLine
payment =
    line "provider_receivable" "debit" 50_000
    ∷ line "platform_fee_revenue" "credit" 2_500
    ∷ line "seller_payable" "credit" 47_500
    ∷ []

-- All that a run of `post_ledger_journal` computes with.
unfoldable pub journal_code : ℕ
unfolding post_ledger_journal check_journal ledger_totals sub64 add64 insert_ledger_journal query
    select exec insert_ledger_account insert_ledger_entry find_ledger_account
    ledger_journal_by_source equal_bytes
journal_code = 0

abbrev paid : Session
paid = (post_ledger_journal rt "payment_attempt" "a-1" "NGN" "verified payment" payment empty).1

abbrev digest_3 : List ℕ
digest_3 = 3 ∷ 7 ∷ []

equal_bytes_iff_example : (equal_bytes digest_3 digest_3 ≡ true) ↔ (digest_3 ≡ digest_3)
equal_bytes_iff_example = equal_bytes_iff digest_3 digest_3

post_ledger_journal_effect_example :
    ((paid.db ≡ empty.db)
      ⊎ ((postings paid.db ≡ postings empty.db ++ map (line_posting "id-0") payment)
          × (others paid.db ≡ others empty.db)
          × Adds "id-0" "NGN" payment empty.db.ledger_entries paid.db))
    × IsBalanced payment
unfolding journal_code
post_ledger_journal_effect_example =
    post_ledger_journal_effect rt "payment_attempt" "a-1" "NGN" "verified payment" payment empty
      paid (omega arith) refl

post_ledger_journal-LedgerIsBalanced_example : LedgerIsBalanced paid.db
unfolding journal_code
post_ledger_journal-LedgerIsBalanced_example =
    post_ledger_journal-LedgerIsBalanced rt "payment_attempt" "a-1" "NGN" "verified payment" payment
      empty paid (omega arith) (λ j. refl) refl

post_ledger_journal_retry_example :
    post_ledger_journal rt "payment_attempt" "a-1" "NGN" "verified payment" payment paid
    ≡ (ok "id-0", paid)
unfolding journal_code
post_ledger_journal_retry_example =
    post_ledger_journal_retry rt "payment_attempt" "a-1" "NGN" "verified payment" payment empty paid
      refl refl

abbrev other_payment : List LedgerLine
other_payment = line "a" "debit" 9 ∷ line "b" "credit" 9 ∷ []

post_ledger_journal_reuse_example :
    post_ledger_journal rt "payment_attempt" "a-1" "GHS" "another" other_payment paid
    ≡ (err source_identity_reused, paid)
unfolding journal_code
post_ledger_journal_reuse_example =
    post_ledger_journal_reuse rt "payment_attempt" "a-1" "NGN" "GHS" "verified payment" "another"
      payment other_payment empty paid refl refl refl (λ e. ground arith)
