-- ===== src/Payouts/Kept.antt =====
-- The operations on payouts keep the ledger balanced and every payout sound (payouts.go).
use Prim.Native.Nat.{◌≤◌}
use mathlib.Core.Path.{subst}
use wantmytime.Prelude.{
  ℕ, map, ◌^◌, ◌<◌, ◌≡◌, ◌∙◌, sym, ap, refl, ◌∷◌, [], List, Bool, true, false, String, str_eq,
  eq_iff, Option, none, some, find, arith, Bool-cases, Option-cases, inl, inr,
}
use wantmytime.Prelude.Int64.{ℤ, pos, pos_part, sub64, leb_ℤ}
use wantmytime.Prelude.Tables.{any, update_where, All-update_if, find-All}
use wantmytime.Prelude.Time.{Time}
use wantmytime.Store.Schema.{
  Db, LedgerEntry, Refund, SellerPayout, SellerPayoutAccount, SellerProfile,
}
use wantmytime.Store.Monad.{Tx, Result, ok, err, Session, ◌>>=◌}
use wantmytime.Store.Logic.{
  Ensures, Post, bind, given, ensured, Ensures-if, Ensures-lift, Ensures-select, Ensures-one_row,
}
use wantmytime.Store.Always.{
  Always, Always-bind, Always-Ensures, Always-if, Always-pure, Always-clock, Always-exec,
  Always-query, Always-try_query, Always-atomic,
}
use wantmytime.Ledger.Totals.{LedgerLine}
use wantmytime.Ledger.Sums.{AmountsFit}
use wantmytime.Ledger.Journal.{Runtime, post_ledger_journal}
use wantmytime.Ledger.Balance.{posting, Others, post_ledger_journal-Posted}
use wantmytime.Ledger.Posting.{LedgerIsBalanced, journal_sum, post_ledger_journal-LedgerIsBalanced}
use wantmytime.Refunds.Refusal.{update_where-none}
use wantmytime.Payouts.{
  is_processing, mark_items, PayoutTransfer, is_sent, set_payout_paid, set_payout_paid_row,
  post_payout, paid_payout, mark_payout_paid,
}
use wantmytime.Payouts.Sound.{
  Book, BookFits, IsSound, PayoutsAreSound, TablesAreSound, paid_payout-IsSound,
  failed_payout-IsSound, cancelled_payout-IsSound, released_payout-IsSound,
}
use wantmytime.Payouts.Untouched.{
  mark_items-Untouched, enqueue_booking_event-Untouched, payout_failed_email-Untouched,
  lock_payout-Untouched, hold_of_payout-Untouched, find_payout_account-Untouched,
  take_recovery-Untouched,
}
use wantmytime.Payouts.Release.{
  PayoutDesk, Release, stay, send, wait, is_payout, payout_waits, lock_payout, refunded_share,
  refuses_amounts, released_payout, cancel_payout, start_payout, record_recovery, send_or_settle,
  release_to, check_account, release_amount, release_scheduled, release_locked, follow_release,
  release_payout,
}
use wantmytime.Payouts.Status.{set_payout_failed, fail_payout, apply_transfer_status}
use wantmytime.Payouts.Owed.{
  payout_lines-AmountsFit, recovery_take_fits, refunded_sum-pos, IsOwed, IsOwed-amount, total_fits,
  recovery_within,
}

module _ (book : Book) where
  abbrev pub PayoutsHold : Db → Type 0
  PayoutsHold d = LedgerIsBalanced d × PayoutsAreSound book d

  abbrev pub Tables : List LedgerEntry → List SellerPayout → List Refund → Type 0
  Tables es ps rs =
      ((j : String)
        → journal_sum j "debit" (map posting es) ≡ journal_sum j "credit" (map posting es))
      × TablesAreSound book es ps rs

  -- Every run keeps them, whether it succeeds or not.
  abbrev pub Keeps : {A : Type 0} → Tx A → Type 0
  Keeps m = Always PayoutsHold m

  -- Only a success has to: an error rolls back.
  abbrev pub KeepsIfOk : {A : Type 0} → Tx A → Type 0
  KeepsIfOk m = Ensures PayoutsHold m (λ _. PayoutsHold)

  pub next :
      {A B : Type 0} {m : Tx A} {f : A → Tx B}
      → Keeps m
      → ((a : A) → KeepsIfOk (f a))
      → KeepsIfOk (m >>= f)
  next h k = bind (Always-Ensures h) k

  pub post_ledger_journal-KeepsIfOk :
      (rt : Runtime) (source_type source_id currency description : String) (lines : List LedgerLine)
      → AmountsFit lines
      → KeepsIfOk (post_ledger_journal rt source_type source_id currency description lines)
  post_ledger_journal-KeepsIfOk rt source_type source_id currency description lines fits = record {
    run = λ s p.
        go s p (post_ledger_journal rt source_type source_id currency description lines s) refl;
  }
    where
      go :
          (s : Session)
          → PayoutsHold s.db
          → (r : Result String × Session)
          → post_ledger_journal rt source_type source_id currency description lines s ≡ r
          → Post (λ _. PayoutsHold) r
      go s p (err e, s') h = tt
      go s p (ok id, s') h =
          let posted =
            ensured
              (post_ledger_journal-Posted rt source_type source_id currency description lines s.db)
              refl h in
          (
            post_ledger_journal-LedgerIsBalanced rt source_type source_id currency description lines
                s s' fits p.0 h,
            elim posted.0.0 [
              | inl same ↦ subst (PayoutsAreSound book) (sym same) p.1
              | inr (_, o, _) ↦ rw (ap (λ (t : Others). t.6) o, ap (λ (t : Others). t.0) o) p.1
            ],
          )

  mark_items-Keeps : (state booking_id : String) → Keeps (mark_items state booking_id)
  mark_items-Keeps state booking_id = mark_items-Untouched Tables state booking_id

  -- An update of the payouts that keeps each row sound.
  pub updated :
      (d : Db) (p : SellerPayout → Bool) (f : SellerPayout → SellerPayout)
      → ((x : SellerPayout) → p x ≡ true → IsSound book x → IsSound book (f x))
      → PayoutsHold d
      → PayoutsHold (record d { seller_payouts = update_where p f d.seller_payouts })
  updated d p f k h = (h.0, (All-update_if (IsSound book) p f d.seller_payouts k h.1.0, h.1.1))

  pub payout_waits-Keeps :
      (id message : String) (seconds : ℕ) → Keeps (payout_waits id message seconds)
  unfolding payout_waits
  payout_waits-Keeps id message seconds = Always-exec _ (λ t d h.
      updated d _ _
        (λ x e s. record {
          booked = s.booked;
          entitled = s.entitled;
          referenced = s.referenced;
          amounts = s.amounts;
        })
        h)

  is_sent-processing :
      (id : String) (p : SellerPayout) → is_sent id p ≡ true → is_processing p.state ≡ true
  is_sent-processing id p h = ground (arith, h)

  set_payout_paid_row-kept :
      (id : String) (t : PayoutTransfer) (now : Time) (d : Db)
      → PayoutsHold d
      → PayoutsHold (set_payout_paid_row id t now d).1
  unfolding set_payout_paid_row
  set_payout_paid_row-kept id t now d h =
      let done =
        updated d (is_sent id) (paid_payout t now)
          (λ x e. paid_payout-IsSound book t now x (is_sent-processing id x e)) h in
      elim (Option-cases (find (is_sent id) d.seller_payouts)) [
        | inl n ↦ rw (set_payout_paid_row, n) h
        | inr (p, e) ↦
            elim (Option-cases
              (find (λ (sp : SellerProfile). str_eq sp.id p.seller_id) d.seller_profiles)) [
                | inl n ↦ rw (set_payout_paid_row, e, n) h
                | inr (sp, e2) ↦ elim (Option-cases p.amount_minor) [
                  | inl n ↦ rw (set_payout_paid_row, e, e2, n) h
                  | inr (amount, e3) ↦ rw (set_payout_paid_row, e, e2, e3) done
                ]
              ]
      ]

  set_payout_paid-Keeps : (id : String) (t : PayoutTransfer) → Keeps (set_payout_paid id t)
  unfolding set_payout_paid
  set_payout_paid-Keeps id t = Always-try_query _ (set_payout_paid_row-kept id t)

  post_payout-KeepsIfOk :
      (rt : Runtime) (id reference currency : String) (lines : List LedgerLine)
      → AmountsFit lines
      → KeepsIfOk (post_payout rt id reference currency lines)
  unfolding post_payout
  post_payout-KeepsIfOk rt id reference currency [] fits = Always-Ensures Always-pure
  post_payout-KeepsIfOk rt id reference currency (line ∷ lines) fits =
      bind (post_ledger_journal-KeepsIfOk _ _ _ _ _ _ fits) (λ _. Always-Ensures Always-pure)

  mark_payout_paid-KeepsIfOk :
      (desk : PayoutDesk) (id : String) (t : PayoutTransfer)
      → pos_part t.fee_minor < 2 ^ 63
      → KeepsIfOk (mark_payout_paid desk.settings desk.runtime id t)
  unfolding mark_payout_paid
  mark_payout_paid-KeepsIfOk desk id t fits = next (set_payout_paid-Keeps id t) (λ p.
      bind
        (post_payout-KeepsIfOk desk.runtime _ _ _ _
          (payout_lines-AmountsFit p.seller_id p.amount p.recovery t.fee_minor fits))
        (λ _.
          next (mark_items-Keeps _ _)
            (λ _. Always-Ensures (enqueue_booking_event-Untouched Tables _ _ _ _ _))))

  cancel_payout-Keeps : (id : String) → Keeps (cancel_payout id)
  unfolding cancel_payout
  cancel_payout-Keeps id =
      Always-exec _ (λ t d h. updated d _ _ (λ x e. cancelled_payout-IsSound book t x) h)

  -- The payout has an amount that its entitlement covers.
  abbrev Owes : String → ℤ → Type 0
  Owes id amount =
      (a : ℕ) × ((amount ≡ pos a) × (0 < a) × ((e : ℕ) × ((book id).1 ≡ pos e) × (a ≤ e)))

  started-IsSound :
      (id : String) (a : SellerPayoutAccount) (amount recovery : ℤ) (t : Time) (x : SellerPayout)
      → Owes id amount
      → refuses_amounts amount recovery ≡ false
      → is_payout id x ≡ true
      → IsSound book x
      → IsSound book (released_payout a amount recovery t x)
  started-IsSound id a amount recovery t x (n, (same, positive, (e, entitled, within))) allowed
        mine =
      let (r, (repaid, below)) = recovery_within amount recovery n same allowed in
      released_payout-IsSound book a amount recovery t x (
        n,
        (
          r,
          ap some same,
          repaid,
          positive,
          below,
          (e, ap (λ i. (book i).1) ((eq_iff x.id id).0 mine) ∙ entitled, within),
        ),
      )

  start_payout-Keeps :
      (id : String) (a : SellerPayoutAccount) (amount recovery : ℤ)
      → Owes id amount
      → Keeps (start_payout id a amount recovery)
  unfolding start_payout
  start_payout-Keeps id a amount recovery owes = Always-try_query _ (λ t d h.
      elim (Bool-cases (refuses_amounts amount recovery)) [
        | inr allowed ↦
            rw allowed (
              updated d _ _ (λ x mine. started-IsSound id a amount recovery t x owes allowed mine)
                h)
        | inl r ↦ elim (Bool-cases (any (is_payout id) d.seller_payouts)) [
          | inl e ↦ rw (r, e) h
          | inr e ↦
              rw
                (
                  r,
                  e,
                  update_where-none (is_payout id) (released_payout a amount recovery t)
                      d.seller_payouts e,
                )
                h
        ]
      ])

  record_recovery-KeepsIfOk :
      (desk : PayoutDesk) (p : SellerPayout) (recovery : ℤ)
      → pos_part recovery < 2 ^ 63
      → KeepsIfOk (record_recovery desk p recovery)
  record_recovery-KeepsIfOk desk p recovery fits =
      Ensures-if _
        (bind (post_ledger_journal-KeepsIfOk _ _ _ _ _ _ (fits, (fits, tt)))
          (λ _. Always-Ensures Always-pure))
        (Always-Ensures Always-pure)

  send_or_settle-KeepsIfOk :
      (desk : PayoutDesk) (p : SellerPayout) (amount recovery : ℤ)
      → KeepsIfOk (send_or_settle desk p amount recovery)
  send_or_settle-KeepsIfOk desk p amount recovery =
      Ensures-if _
        (bind (mark_payout_paid-KeepsIfOk desk _ _ (omega arith)) (λ _. Always-Ensures Always-pure))
        (Always-Ensures Always-pure)

  release_to-KeepsIfOk :
      (desk : PayoutDesk) (p : SellerPayout) (amount : ℤ) (a : SellerPayoutAccount)
      → Owes p.id amount
      → KeepsIfOk (release_to desk p amount a)
  unfolding release_to
  release_to-KeepsIfOk desk p amount a owes =
      bind
        (take_recovery-Untouched Tables (λ z. pos_part z < 2 ^ 63) desk.max_bps p.seller_id amount
          (omega arith) (λ rows. recovery_take_fits desk.max_bps rows amount))
        (λ recovery. given (λ fits. bind (record_recovery-KeepsIfOk desk p recovery fits) (λ _.
          next (start_payout-Keeps _ _ _ _ owes)
            (λ _. send_or_settle-KeepsIfOk desk p amount recovery))))

  check_account-KeepsIfOk :
      (desk : PayoutDesk) (p : SellerPayout) (amount : ℤ) (o : Option SellerPayoutAccount)
      → Owes p.id amount
      → KeepsIfOk (check_account desk p amount o)
  check_account-KeepsIfOk desk p amount none owes = Always-Ensures Always-pure
  check_account-KeepsIfOk desk p amount (some a) owes =
      next Always-clock (λ now.
        Ensures-if _ (Always-Ensures Always-pure) (release_to-KeepsIfOk desk p amount a owes))

  release_amount-KeepsIfOk :
      (desk : PayoutDesk) (p : SellerPayout) (amount : ℤ)
      → IsOwed (book p.id).1 amount
      → KeepsIfOk (release_amount desk p amount)
  unfolding release_amount
  release_amount-KeepsIfOk desk p amount owed = elim (Bool-cases (leb_ℤ amount (pos 0))) [
    | inl e ↦ rw e (
        next (Always-bind (cancel_payout-Keeps _) (λ _. mark_items-Keeps _ _))
          (λ _. Always-Ensures Always-pure))
    | inr e ↦ rw e (
        next (find_payout_account-Untouched Tables _)
          (λ a. check_account-KeepsIfOk desk p amount a (owed e)))
  ]

  lock_payout-Sound :
      (id : String) → Ensures PayoutsHold (lock_payout id) (λ p d. PayoutsHold d × IsSound book p)
  unfolding lock_payout
  lock_payout-Sound id =
      bind
        (Ensures-select {Q = λ row d. PayoutsHold d × (find (is_payout id) d.seller_payouts ≡ row)}
          _ (λ t d h. (h, refl)))
        (λ row. Ensures-one_row (λ p d e h.
          (h.0, find-All (IsSound book) (is_payout id) d.seller_payouts h.0.1.0 p (h.1 ∙ e))))

  refunded_share-Fits :
      (booking_id : String)
      → Ensures PayoutsHold
          (refunded_share booking_id)
          (λ r d. PayoutsHold d × ((n : ℕ) × ((r ≡ pos n) × (n < 2 ^ 63))))
  unfolding refunded_share
  refunded_share-Fits booking_id =
      bind
        (Ensures-select {Q = λ total d. PayoutsHold d × ((n : ℕ) × (total ≡ pos n))} _
          (λ t d h. (h, refunded_sum-pos booking_id d.refunds h.1.1)))
        (λ total. Ensures-lift (λ r d e (h, (n, same)). (h, (n, total_fits total r n same e))))

  module _ (fits : BookFits book) where
    release_scheduled-KeepsIfOk :
        (desk : PayoutDesk) (p : SellerPayout)
        → IsSound book p
        → KeepsIfOk (release_scheduled desk p)
    unfolding release_scheduled
    release_scheduled-KeepsIfOk desk p sound = next (hold_of_payout-Untouched Tables _ _) (λ held.
        Ensures-if _ (Always-Ensures Always-pure) (
          bind (refunded_share-Fits p.booking_id) (λ refunded. given (λ (r, (same, small)).
            let (e, entitled, bound) = fits p.id in
            release_amount-KeepsIfOk desk p _ (
              subst (λ x. IsOwed x (sub64 p.entitlement_minor refunded)) sound.entitled
                (IsOwed-amount e r p.entitlement_minor refunded (sound.entitled ∙ entitled) same
                  bound small))))))

    release_locked-KeepsIfOk :
        (desk : PayoutDesk) (p : SellerPayout) → IsSound book p → KeepsIfOk (release_locked desk p)
    unfolding release_locked
    release_locked-KeepsIfOk desk p sound =
        Ensures-if _ (release_scheduled-KeepsIfOk desk p sound) (Always-Ensures Always-pure)

    follow_release-Keeps : (id : String) (r : Release) → Keeps (follow_release id r)
    follow_release-Keeps id stay = Always-pure
    follow_release-Keeps id send = Always-pure
    follow_release-Keeps id (wait message seconds) =
        Always-bind (payout_waits-Keeps id message seconds) (λ _. Always-pure)

    pub release_payout-Keeps : (desk : PayoutDesk) (id : String) → Keeps (release_payout desk id)
    unfolding release_payout
    release_payout-Keeps desk id =
        Always-bind
          (Always-atomic (
            bind (lock_payout-Sound id)
              (λ p. given (λ sound. release_locked-KeepsIfOk desk p sound))))
          (follow_release-Keeps id)

  set_payout_failed-Keeps : (id message : String) → Keeps (set_payout_failed id message)
  unfolding set_payout_failed
  set_payout_failed-Keeps id message = Always-query _ (λ t d h.
      updated d _ _ (λ x e. failed_payout-IsSound book message t x (is_sent-processing id x e)) h)

  pub fail_payout-Keeps : (id message : String) → Keeps (fail_payout id message)
  unfolding fail_payout
  fail_payout-Keeps id message =
      Always-bind (set_payout_failed-Keeps id message)
        (λ changed. Always-if _ (payout_failed_email-Untouched Tables id) Always-pure)

  pub apply_transfer_status-Keeps :
      (desk : PayoutDesk) (id : String) (t : PayoutTransfer)
      → pos_part t.fee_minor < 2 ^ 63
      → Keeps (apply_transfer_status desk id t)
  unfolding apply_transfer_status
  apply_transfer_status-Keeps desk id t fits =
      Always-if _
        (Always-atomic (
          next (lock_payout-Untouched Tables id) (λ p.
            Ensures-if _ (mark_payout_paid-KeepsIfOk desk p.id t fits)
              (Always-Ensures Always-pure))))
        (Always-if _ (fail_payout-Keeps id t.message) (payout_waits-Keeps id "" 600))
