-- ===== src/Payouts/Runs.antt =====
-- The runs of the payouts' worker and of the check for reversals, with all that may happen between
-- them (payouts.go).
use wantmytime.Prelude.{
  ◌^◌, ◌<◌, Bool, true, false, not, ◌&&◌, ◌||◌, String, str_eq, Option, none, some, List, [], ◌∷◌,
  arith, if◌then◌else◌, Bool-cases, inl, inr,
}
use wantmytime.Prelude.Int64.{ℤ, pos_part, wrap64}
use wantmytime.Store.Schema.{SellerPayout}
use wantmytime.Store.Monad.{Result, ok, err, Tx, ◌>>◌, in_transaction}
use wantmytime.Store.Outside.{World, Job, continue_job, ◌>>=◌, done, tx}
use wantmytime.Payouts.{PayoutTransfer, is_processing}
use wantmytime.Payouts.Release.{release_payout}
use wantmytime.Payouts.Provider.{
  Answer, data_of, http_error, no_answer, KoraApi, KoraTransferData, PayoutTransferRequest, Lookup,
  found, unknown, unreachable, Sent, accepted, funds_pending, rejected, unanswered, normalized,
  provider_not_found, provider_rejected, contains, read_lookup, read_sent, find_transfer, transfer,
  invalid_request,
}
use wantmytime.Payouts.Send.{
  SendDesk, payout_to_send, request_for, opened_account, checked, follow_sent, send_to,
  follow_lookup, send_processing, send_payout,
}
use wantmytime.Payouts.Reversal.{
  follow_reversal, ask_provider, paid_under, check_payout_reversal, came_back,
}
use wantmytime.Payouts.Event.{insert_provider_event, follow_event, after_event, kora_webhook}
use wantmytime.Payouts.Retry.{auto_retry_failed_payouts}
use wantmytime.Payouts.Worker.{advance_payout, advance_all, claim_due_payouts, process_payouts}
use wantmytime.Payouts.Sound.{Book, BookFits}
use wantmytime.Payouts.Kept.{
  PayoutsHold, Keeps, payout_waits-Keeps, fail_payout-Keeps, release_payout-Keeps,
  apply_transfer_status-Keeps,
}
use wantmytime.Payouts.Again.{
  auto_retry_failed_payouts-Keeps, record_reversal-Keeps, claim_due_payouts-Keeps,
  payout_to_send-Keeps, paid_under-Keeps, store_event-Keeps,
}

wrap64_bound : (z : ℤ) → pos_part (wrap64 z) < 2 ^ 63
unfolding wrap64
wrap64_bound z = ground arith

-- The fee of a transfer is an int64.
abbrev FeeFits : PayoutTransfer → Type 0
FeeFits t = pos_part t.fee_minor < 2 ^ 63

abbrev LookupFits : Lookup → Type 0
LookupFits (found t) = FeeFits t
LookupFits unknown = Unit
LookupFits unreachable = Unit

abbrev SentFits : Sent → Type 0
SentFits (accepted t) = FeeFits t
SentFits funds_pending = Unit
SentFits (rejected message) = Unit
SentFits unanswered = Unit

module _ {Bank : Type 0} (kora : KoraApi Bank) where
  normalized-FeeFits : (d : KoraTransferData) → FeeFits (normalized kora d)
  unfolding normalized
  normalized-FeeFits d = ground (arith, wrap64_bound d.fee)

  read_lookup-Fits : (reference : String) (a : Answer) → LookupFits (read_lookup kora reference a)
  unfolding read_lookup
  read_lookup-Fits reference (data_of d) = elim (Bool-cases (str_eq d.reference reference)) [
    | inl e ↦ rw e (normalized-FeeFits d)
    | inr e ↦ rw e tt
  ]
  read_lookup-Fits reference (http_error status message) =
      elim (Bool-cases (provider_not_found kora status message)) [
        | inl e ↦ rw e tt
        | inr e ↦ rw e tt
      ]
  read_lookup-Fits reference no_answer = tt

  find_transfer-Fits :
      (reference : String) (b : Bank) → LookupFits (find_transfer kora reference b).0
  unfolding find_transfer
  find_transfer-Fits reference b = read_lookup-Fits reference _

  read_sent-Fits : (reference : String) (a : Answer) → SentFits (read_sent kora reference a)
  unfolding read_sent
  read_sent-Fits reference (data_of d) =
      elim (Bool-cases (not (str_eq d.reference "") && not (str_eq d.reference reference))) [
        | inl e ↦ rw e tt
        | inr e ↦ rw e (normalized-FeeFits d)
      ]
  read_sent-Fits reference (http_error status message) =
      let msg = kora.to_lower message in
      elim (Bool-cases (contains msg "insufficient" || contains msg "balance")) [
        | inl e ↦ rw e tt
        | inr e ↦ elim (Bool-cases (provider_rejected status)) [
          | inl r ↦ rw (e, r) tt
          | inr r ↦ rw (e, r) tt
        ]
      ]
  read_sent-Fits reference no_answer = tt

  transfer-Fits : (q : PayoutTransferRequest) (b : Bank) → SentFits (transfer kora q b).0
  unfolding transfer
  transfer-Fits q b = elim (Bool-cases (invalid_request kora q)) [
    | inl e ↦ rw e tt
    | inr e ↦ rw e (read_sent-Fits q.reference _)
  ]

  checked-FeeFits :
      (t : PayoutTransfer) (l : Lookup) → FeeFits t → LookupFits l → FeeFits (checked t l)
  checked-FeeFits t (found u) h k = k
  checked-FeeFits t unknown h k = h
  checked-FeeFits t unreachable h k = h

  module _ (book : Book) (fits : BookFits book) (desk : SendDesk) where
    -- Every run keeps the ledger balanced and every payout sound.
    abbrev pub JobKeeps : {A : Type 0} → Job Bank A → Type 0
    JobKeeps m =
        (w : World Bank) → PayoutsHold book w.session.db → PayoutsHold book (m w).1.session.db

    tx-JobKeeps : {A : Type 0} {m : Tx A} → Keeps book m → JobKeeps (tx m)
    tx-JobKeeps k w h = k.run w.session h

    then-JobKeeps :
        {A B : Type 0} (m : Job Bank A) (f : A → Job Bank B)
        → JobKeeps m
        → ((a : A) → JobKeeps (f a))
        → JobKeeps (m >>= f)
    then-JobKeeps {A} {B} m f k l w h = go (m w) (k w h)
      where
        go :
            (r : Result A × World Bank)
            → PayoutsHold book r.1.session.db
            → PayoutsHold book (continue_job f r).1.session.db
        go (ok a, w1) p = l a w1 p
        go (err e, w1) p = p

    follow_sent-JobKeeps :
        (p : SellerPayout) (sent : Sent) → SentFits sent → JobKeeps (follow_sent kora desk p sent)
    follow_sent-JobKeeps p (accepted t) k w h =
        let again = find_transfer kora p.reference w.outside in
        (apply_transfer_status-Keeps book desk.payouts p.id (checked t again.0)
            (checked-FeeFits t again.0 k (find_transfer-Fits p.reference w.outside))).run
          w.session h
    follow_sent-JobKeeps p funds_pending k w h = (payout_waits-Keeps book _ _ _).run w.session h
    follow_sent-JobKeeps p (rejected message) k w h = (fail_payout-Keeps book _ _).run w.session h
    follow_sent-JobKeeps p unanswered k w h = (payout_waits-Keeps book _ _ _).run w.session h

    send_to-JobKeeps :
        (p : SellerPayout) (email : String) (o : Option String)
        → JobKeeps (send_to kora desk p email o)
    send_to-JobKeeps p email none w h = (fail_payout-Keeps book _ _).run w.session h
    send_to-JobKeeps p email (some account) w h =
        let q = request_for desk p email account in
        follow_sent-JobKeeps p (transfer kora q w.outside).0 (transfer-Fits q w.outside)
          (record w { outside = (transfer kora q w.outside).1 }) h

    follow_lookup-JobKeeps :
        (p : SellerPayout) (email : String) (l : Lookup)
        → LookupFits l
        → JobKeeps (follow_lookup kora desk p email l)
    follow_lookup-JobKeeps p email unreachable k = tx-JobKeeps (payout_waits-Keeps book _ _ _)
    follow_lookup-JobKeeps p email (found t) k =
        tx-JobKeeps (apply_transfer_status-Keeps book desk.payouts p.id t k)
    follow_lookup-JobKeeps p email unknown k = send_to-JobKeeps p email (opened_account desk p)

    send_processing-JobKeeps :
        (row : SellerPayout × String) → JobKeeps (send_processing kora desk row)
    unfolding send_processing
    send_processing-JobKeeps (p, email) w h = elim (Bool-cases (is_processing p.state)) [
      | inr e ↦ rw e h
      | inl e ↦
          let looked = find_transfer kora p.reference w.outside in
          rw e (
            follow_lookup-JobKeeps p email looked.0 (find_transfer-Fits p.reference w.outside)
              (record w { outside = looked.1 }) h)
    ]

    send_payout-JobKeeps : (id : String) → JobKeeps (send_payout kora desk id)
    unfolding send_payout
    send_payout-JobKeeps id =
        then-JobKeeps (tx (payout_to_send id)) _ (tx-JobKeeps (payout_to_send-Keeps book id))
          send_processing-JobKeeps

    advance_payout-JobKeeps : (id : String) → JobKeeps (advance_payout kora desk id)
    unfolding advance_payout
    advance_payout-JobKeeps id =
        then-JobKeeps (tx (release_payout desk.payouts id)) _
          (tx-JobKeeps (release_payout-Keeps book fits desk.payouts id)) (λ ready. sent_if ready)
      where
        sent_if : (ready : Bool) → JobKeeps (if ready then send_payout kora desk id else done tt)
        sent_if true w h = send_payout-JobKeeps id w h
        sent_if false w h = h

    advance_all-JobKeeps : (ids : List String) → JobKeeps (advance_all kora desk ids)
    unfolding advance_all
    advance_all-JobKeeps [] w h = h
    advance_all-JobKeeps (id ∷ ids) w h =
        advance_all-JobKeeps ids (advance_payout kora desk id w).1 (advance_payout-JobKeeps id w h)

    pub process_payouts-JobKeeps :
        (on client : Bool) → JobKeeps (process_payouts kora desk on client)
    unfolding process_payouts
    process_payouts-JobKeeps false client w h = h
    process_payouts-JobKeeps true false w h = h
    process_payouts-JobKeeps true true w h =
        then-JobKeeps (tx (claim_due_payouts desk.payouts.delay)) (advance_all kora desk)
          (tx-JobKeeps (claim_due_payouts-Keeps book desk.payouts.delay)) advance_all-JobKeeps
          (record w { session = (auto_retry_failed_payouts w.session).1 })
          ((auto_retry_failed_payouts-Keeps book).run w.session h)

    ask_provider-JobKeeps :
        (client : Bool) (o : Option SellerPayout)
        → JobKeeps (ask_provider kora desk.payouts client o)
    ask_provider-JobKeeps client none w h = h
    ask_provider-JobKeeps false (some p) w h = h
    ask_provider-JobKeeps true (some p) w h =
        let looked = find_transfer kora p.reference w.outside in
        followed looked.0 (record w { outside = looked.1 }) h
      where
        followed : (l : Lookup) → JobKeeps (follow_reversal kora desk.payouts p l)
        followed unreachable w h = h
        followed unknown w h = h
        followed (found t) w h = elim (Bool-cases (came_back t)) [
          | inl e ↦ rw e ((record_reversal-Keeps book desk.payouts p).run w.session h)
          | inr e ↦ rw e h
        ]

    pub check_payout_reversal-JobKeeps :
        (client : Bool) (reference : String)
        → JobKeeps (check_payout_reversal kora desk.payouts client reference)
    unfolding check_payout_reversal
    check_payout_reversal-JobKeeps client reference =
        then-JobKeeps (tx (paid_under reference)) _ (tx-JobKeeps (paid_under-Keeps book reference))
          (ask_provider-JobKeeps client)

    pub kora_webhook-JobKeeps :
        (client : Bool) (event reference : String)
        → JobKeeps (kora_webhook kora desk.payouts client event reference)
    unfolding kora_webhook
    kora_webhook-JobKeeps client event reference =
        then-JobKeeps (tx (in_transaction (insert_provider_event >> follow_event event reference)))
          (λ u. after_event kora desk.payouts client event reference)
          (tx-JobKeeps (store_event-Keeps book event reference))
          (λ u w h. elim (Bool-cases (str_eq event "transfer.failed")) [
            | inl e ↦ rw e (check_payout_reversal-JobKeeps client reference w h)
            | inr e ↦ rw e h
          ])
