-- ===== src/Ledger/Balance.antt =====
-- What posting a journal does to the tables.
use mathlib.Core.List.{append_assoc, append-nil, map-append}
use wantmytime.Prelude.{
  ℕ, ◌≡◌, refl, ap, ◌∙◌, ◌⊎◌, inl, inr, true, String, Option, none, some, List, [], ◌∷◌, ◌++◌, map,
  arith, find, eq_refl,
}
use wantmytime.Prelude.Int64.{ℤ, pos}
use wantmytime.Store.Schema.{
  NoShowReport, SellerPayoutAccount, PushOutbox, PushSubscription, MarketingContact, ProductEvent,
  UserIdentity, User, Offer, CalendarBusyBlock, AvailabilityOverride, AvailabilityWindow, Db,
  LedgerAccount, LedgerEntry, LedgerJournal, Refund, SellerRecovery, Booking, SellerProfile,
  PaymentAllocation, PaymentAttempt, SellerPayout, SlotReservation, RescheduleRequest,
  BookingCancellationRequest, NotificationOutbox, CalendarConnection, CalendarJob, AuditEvent,
  Quote, PaymentException, SettlementItem,
}
use wantmytime.Store.Monad.{Result, ok, err}
use wantmytime.Store.Logic.{
  Ensures, bind, Ensures-query, Ensures-select, Ensures-lift, Ensures-pure, Ensures-one_row,
  Ensures-exec, Ensures-guard, given, conj, both,
}
use wantmytime.Ledger.Bytes.{equal_bytes_iff}
use wantmytime.Ledger.Totals.{LedgerLine, ledger_totals}
use wantmytime.Ledger.Sums.{side_sum, AmountsFit, AmountsPositive, balanced_sums}
use wantmytime.Ledger.Booked.{Adds, insert_lines-Adds}
use wantmytime.Ledger.Journal.{
  Runtime, is_source, check_journal, insert_ledger_journal, insert_ledger_account,
  insert_ledger_account_row, insert_ledger_entry, account_of, insert_lines, find_ledger_account,
  finish_journal, post_ledger_journal, ledger_journal_by_source, insert_ledger_journal_row,
}

-- What an entry says of money: its journal, its side and its amount. Ledger/Booked has its account.
abbrev pub Posting : Type 0
Posting = String × String × ℤ

abbrev pub posting : LedgerEntry → Posting
posting e = (e.journal_id, e.side, e.amount_minor)

abbrev pub postings : Db → List Posting
postings d = map posting d.ledger_entries

abbrev pub line_posting : String → LedgerLine → Posting
line_posting journal_id line = (journal_id, line.side, line.amount)

-- The tables that are no part of the ledger.
abbrev pub Others : Type 0
Others =
    List Refund
    × List SellerRecovery
    × List Booking
    × List SellerProfile
    × List PaymentAllocation
    × List PaymentAttempt
    × List SellerPayout
    × List SlotReservation
    × List RescheduleRequest
    × List BookingCancellationRequest
    × List NotificationOutbox
    × List CalendarConnection
    × List CalendarJob
    × List AuditEvent
    × List Quote
    × List PaymentException
    × List SettlementItem
    × List AvailabilityWindow
    × List AvailabilityOverride
    × List CalendarBusyBlock
    × List Offer
    × List User
    × List UserIdentity
    × List ProductEvent
    × List MarketingContact
    × List PushSubscription
    × List PushOutbox
    × List SellerPayoutAccount
    × List NoShowReport

abbrev pub others : Db → Others
others d = (
  d.refunds, d.seller_recoveries, d.bookings, d.seller_profiles, d.payment_allocations,
  d.payment_attempts, d.seller_payouts, d.slot_reservations, d.reschedule_requests,
  d.cancellation_requests, d.notification_outbox, d.calendar_connections, d.calendar_jobs,
  d.audit_events, d.quotes, d.payment_exceptions, d.settlement_items, d.availability_windows,
  d.availability_overrides, d.calendar_busy_blocks, d.offers, d.users, d.user_identities,
  d.product_events, d.marketing_contacts, d.push_subscriptions, d.push_outbox,
  d.seller_payout_accounts, d.no_show_reports,
)

-- The entries, the journals and the other tables are as given.
abbrev At : List Posting → List LedgerJournal → Others → Db → Type 0
At ps js o d = (postings d ≡ ps) × (d.ledger_journals ≡ js) × (others d ≡ o)

-- Both sides of the lines have the same sum, and each amount is positive.
abbrev pub IsBalanced : List LedgerLine → Type 0
IsBalanced lines = (side_sum "debit" lines ≡ side_sum "credit" lines) × AmountsPositive lines

pub check_journal-IsBalanced :
    (source_type source_id currency : String) (lines : List LedgerLine)
    → AmountsFit lines
    → check_journal source_type source_id currency lines ≡ ok tt
    → IsBalanced lines
unfolding check_journal
check_journal-IsBalanced source_type source_id currency lines fits h =
    accepted (ledger_totals lines (pos 0) (pos 0)) refl
  where
    accepted : (r : Result (ℤ × ℤ)) → ledger_totals lines (pos 0) (pos 0) ≡ r → IsBalanced lines
    accepted (ok t) e = balanced_sums lines t fits e (ground arith)
    accepted (err x) e = absurd (ground arith)

module _ (rt : Runtime) (source_type source_id currency : String) (digest : List ℕ) where
  insert_ledger_account_row-At :
      (code : String) (scope : Option String) {ps : List Posting} {js : List LedgerJournal}
      {o : Others} (d : Db) (found : Option LedgerAccount)
      → At ps js o d
      → At ps js o (insert_ledger_account_row rt code currency scope d found).1
  unfolding insert_ledger_account_row
  insert_ledger_account_row-At code scope d none h = h
  insert_ledger_account_row-At code scope d (some a) h = h

  account_of-At :
      (line : LedgerLine) {ps : List Posting} {js : List LedgerJournal} {o : Others}
      (inserted : Option String)
      → Ensures (At ps js o) (account_of rt currency line inserted) (λ _. At ps js o)
  unfolding account_of find_ledger_account
  account_of-At line (some id) = Ensures-pure (λ d h. h)
  account_of-At line none =
      bind (Ensures-select _ (λ t d h. h))
        (λ row. bind (Ensures-one_row (λ a d e h. h)) (λ a. Ensures-pure (λ d h. h)))

  insert_lines-At :
      (id : String) (lines : List LedgerLine) (ps : List Posting) (js : List LedgerJournal)
      (o : Others)
      → Ensures
          (At ps js o)
          (insert_lines rt id currency lines)
          (λ _. At (ps ++ map (line_posting id) lines) js o)
  unfolding insert_lines insert_ledger_account insert_ledger_entry
  insert_lines-At id [] ps js o = Ensures-pure (λ d h. rw (append-nil ps) h)
  insert_lines-At id (line ∷ lines) ps js o =
      bind
        (Ensures-query _
          (λ t d h. insert_ledger_account_row-At line.account_code line.scope_id d _ h))
        (λ inserted. bind (account_of-At line {ps = ps} {js = js} {o = o} inserted) (λ account.
          bind
            (Ensures-exec {Q = λ _. At (ps ++ (line_posting id line ∷ [])) js o} _
              (λ t d h. (simp (map-append, h.0), h.1, h.2)))
            (λ _.
              rw (← append_assoc ps (line_posting id line ∷ []) (map (line_posting id) lines))
                (insert_lines-At id lines (ps ++ (line_posting id line ∷ [])) js o))))

  -- The journal of the source has the id and the digest.
  abbrev pub Recorded : String → Db → Type 0
  Recorded id d =
      (j : LedgerJournal) × (find (is_source source_type source_id) d.ledger_journals ≡ some j)
      × (j.id ≡ id)
      × (j.request_digest ≡ digest)

  -- After the insertion of a journal: its id, or nothing if the source has one.
  abbrev Inserted : Db → Option String → Db → Type 0
  Inserted d0 none d = d ≡ d0
  Inserted d0 (some id) d =
      (j : LedgerJournal) × (is_source source_type source_id j ≡ true)
      × (j.id ≡ id)
      × (j.request_digest ≡ digest)
      × At (postings d0) (j ∷ d0.ledger_journals) (others d0) d
      × (d.ledger_entries ≡ d0.ledger_entries)

  -- What a post that succeeds has done: the source had this journal already and nothing changed, or
  -- the entries of the lines were added under the new journal's id, each to the account of its line.
  abbrev pub Posted : Db → List LedgerLine → String → Db → Type 0
  Posted d lines id d' =
      ((d' ≡ d)
        ⊎ ((postings d' ≡ postings d ++ map (line_posting id) lines)
            × (others d' ≡ others d)
            × Adds id currency lines d.ledger_entries d'))
      × Recorded id d'

  finish_journal-Posted :
      (lines : List LedgerLine) (d0 : Db) (inserted : Option String)
      → Ensures
          (Inserted d0 inserted)
          (finish_journal rt source_type source_id currency digest lines inserted)
          (Posted d0 lines)
  unfolding finish_journal ledger_journal_by_source
  finish_journal-Posted lines d0 (some id) = record {
    run = λ s h.
        (bind
            (both (insert_lines-At id lines (postings d0) (h.0 ∷ d0.ledger_journals) (others d0))
              (insert_lines-Adds rt currency id lines (λ _. Unit) (λ a l k. k) d0.ledger_entries))
            (λ _.
              Ensures-pure {Q = Posted d0 lines} (λ d (k, (adds, _)).
                (inr (k.0, k.2, adds), (h.0, rw k.1 (simp h.1), h.2, h.3))))).run
          s (h.4, (h.5, tt));
  }
  finish_journal-Posted lines d0 none =
      bind
        (bind
          (Ensures-select
            {Q = λ row d.
              (d ≡ d0) × (find (is_source source_type source_id) d.ledger_journals ≡ row)}
            _ (λ t d h. (h, refl)))
          (λ row.
            Ensures-one_row
              {Q = λ j d.
                (d ≡ d0) × (find (is_source source_type source_id) d.ledger_journals ≡ some j)}
              (λ a d e h. (h.0, h.1 ∙ e))))
        (λ existing.
          bind
            (Ensures-guard {Q = λ _ d. Posted d0 lines existing.id d} _ _ (λ d same h. (
              inl h.0,
              (existing, h.1, refl, (equal_bytes_iff existing.request_digest digest).0 same),
            )))
            (λ _. Ensures-pure (λ d h. h)))

  insert_ledger_journal-Inserted :
      (description : String) (d0 : Db)
      → Ensures
          (λ d. d ≡ d0)
          (insert_ledger_journal rt source_type source_id currency description digest)
          (Inserted d0)
  unfolding insert_ledger_journal
  insert_ledger_journal-Inserted description d0 = Ensures-query _ (λ t d h. row d _ h)
    where
      row :
          (d : Db) (found : Option LedgerJournal)
          → d ≡ d0
          → let r =
              insert_ledger_journal_row rt source_type source_id currency description digest d
                found in
            Inserted d0 r.0 r.1
      row d none h = (
        record {
          id = rt.random_uuid d.draws;
          source_type = source_type;
          source_id = source_id;
          currency = currency;
          description = description;
          request_digest = digest;
        },
        simp eq_refl,
        refl,
        refl,
        (ap postings h, cc, ap others h),
        ap (λ (x : Db). x.ledger_entries) h,
      )
      row d (some j) h = h

pub post_ledger_journal-Posted :
    (rt : Runtime) (source_type source_id currency description : String) (lines : List LedgerLine)
    (d0 : Db)
    → Ensures
        (λ d. d ≡ d0)
        (post_ledger_journal rt source_type source_id currency description lines)
        (λ id d.
          Posted rt source_type source_id currency
            (rt.journal_digest currency description lines)
            d0
            lines
            id
            d
          × (check_journal source_type source_id currency lines ≡ ok tt))
unfolding post_ledger_journal
post_ledger_journal-Posted rt source_type source_id currency description lines d0 =
    let digest = rt.journal_digest currency description lines in
    bind
      (Ensures-lift
        {Q = λ _ d. (d ≡ d0) × (check_journal source_type source_id currency lines ≡ ok tt)}
        (λ u d e h. (h, e)))
      (λ _. given (λ checked. conj checked (
        bind
          (insert_ledger_journal-Inserted rt source_type source_id currency digest description d0)
          (λ inserted.
            finish_journal-Posted rt source_type source_id currency digest lines d0 inserted))))
