-- ===== src/Payouts/Once.antt =====
-- A payout's money is sent once for each reference: sendPayout looks for a transfer before it sends
-- one (payouts.go and payout_provider.go).
use mathlib.Core.Path.{subst}
use wantmytime.Prelude.{
  ◌≡◌, refl, sym, ◌∙◌, ◌⊎◌, inl, inr, Bool, true, false, String, str_eq, Option, none, some, List,
  [], ◌∷◌, find, Unit0, Bool-cases, arith, if◌then◌else◌, ap, ℕ,
}
use wantmytime.Prelude.Int64.{ℤ}
use wantmytime.Store.Schema.{Db, SellerPayout}
use wantmytime.Store.Monad.{Result, ok, err, Session, ◌>>◌, in_transaction}
use wantmytime.Store.Logic.{Ensures, ensured, bind, Ensures-select, Ensures-one_row}
use wantmytime.Store.Outside.{World, Job, continue_job, done}
use wantmytime.Refunds.Statements.{any}
use wantmytime.Payouts.{is_processing}
use wantmytime.Payouts.Release.{is_payout, release_payout}
use wantmytime.Payouts.Provider.{
  Answer, data_of, http_error, no_answer, KoraApi, PayoutTransferRequest, Lookup, found, unknown,
  unreachable, Sent, accepted, funds_pending, rejected, unanswered, provider_not_found, read_lookup,
  find_transfer, transfer, invalid_request,
}
use wantmytime.Payouts.Send.{
  SendDesk, find_sending, payout_to_send, net_of, request_for, opened_account, follow_sent, send_to,
  follow_lookup, send_processing, send_payout,
}
use wantmytime.Payouts.Reversal.{
  follow_reversal, ask_provider, paid_under, check_payout_reversal, came_back,
}
use wantmytime.Payouts.Event.{insert_provider_event, follow_event, after_event, kora_webhook}
use wantmytime.Payouts.Retry.{auto_retry_failed_payouts}
use wantmytime.Payouts.Worker.{advance_payout, advance_all, process_payouts, claim_due_payouts}

-- Transfers that Kora took on, by reference and amount, the last one first.
abbrev pub Disbursements : Type 0
Disbursements = List (String × ℤ)

abbrev pub is_used : String → Disbursements → Bool
is_used reference l = any (λ (t : String × ℤ). str_eq t.0 reference) l

-- What the code relies on: a lookup sends nothing, a reference that Kora answers not to know was not
-- used, and a request is taken on at most once, as it was made.
pub record KoraLaws {Bank : Type 0} (kora : KoraApi Bank) (disbursed : Bank → Disbursements)
    : Type 0 where
  pub lookup_keeps :
      (reference : String) (b : Bank) → disbursed (kora.get_transaction reference b).1 ≡ disbursed b
  pub unknown_is_unused :
      (reference : String) (b : Bank) (status : ℕ) (message : String)
      → (kora.get_transaction reference b).0 ≡ http_error status message
      → provider_not_found kora status message ≡ true
      → is_used reference (disbursed b) ≡ false
  pub request_adds :
      (q : PayoutTransferRequest) (b : Bank)
      → (disbursed (kora.disburse q b).1 ≡ disbursed b)
        ⊎ (disbursed (kora.disburse q b).1 ≡ (q.reference, q.amount_minor) ∷ disbursed b)

-- No reference is used twice.
abbrev pub AreOnce : Disbursements → Type 0
AreOnce [] = Unit
AreOnce ((reference, amount) ∷ l) = (is_used reference l ≡ false) × AreOnce l

module _ {Bank : Type 0} (kora : KoraApi Bank) (disbursed : Bank → Disbursements)
    (laws : KoraLaws kora disbursed) where
  find_transfer-keeps :
      (reference : String) (b : Bank) → disbursed (find_transfer kora reference b).1 ≡ disbursed b
  unfolding find_transfer
  find_transfer-keeps reference b = laws.lookup_keeps reference b

  find_transfer-unknown :
      (reference : String) (b : Bank)
      → (find_transfer kora reference b).0 ≡ unknown
      → is_used reference (disbursed b) ≡ false
  unfolding find_transfer read_lookup
  find_transfer-unknown reference b h = go (kora.get_transaction reference b).0 refl h
    where
      go :
          (a : Answer)
          → (kora.get_transaction reference b).0 ≡ a
          → read_lookup kora reference a ≡ unknown
          → is_used reference (disbursed b) ≡ false
      go (data_of d) e h = ground (arith, h)
      go (http_error status message) e h =
          laws.unknown_is_unused reference b status message e (ground (arith, h))
      go no_answer e h = cc

  transfer-adds :
      (q : PayoutTransferRequest) (b : Bank)
      → (disbursed (transfer kora q b).1 ≡ disbursed b)
        ⊎ (disbursed (transfer kora q b).1 ≡ (q.reference, q.amount_minor) ∷ disbursed b)
  unfolding transfer
  transfer-adds q b = elim (Bool-cases (invalid_request kora q)) [
    | inl e ↦ inl (rw e refl)
    | inr e ↦ rw e (laws.request_adds q b)
  ]

  module _ (desk : SendDesk) where
    follow_sent-keeps :
        (p : SellerPayout) (sent : Sent) (w : World Bank)
        → disbursed (follow_sent kora desk p sent w).1.outside ≡ disbursed w.outside
    follow_sent-keeps p (accepted t) w = find_transfer-keeps p.reference w.outside
    follow_sent-keeps p funds_pending w = refl
    follow_sent-keeps p (rejected message) w = refl
    follow_sent-keeps p unanswered w = refl

    -- Nothing is sent, or the net amount of the payout under its unused reference.
    abbrev SendsOnce : SellerPayout → Disbursements → Disbursements → Type 0
    SendsOnce p l l' =
        (l' ≡ l) ⊎ ((is_used p.reference l ≡ false) × (l' ≡ (p.reference, net_of p) ∷ l))

    send_to-SendsOnce :
        (p : SellerPayout) (email : String) (o : Option String) (w : World Bank)
        → is_used p.reference (disbursed w.outside) ≡ false
        → SendsOnce p (disbursed w.outside) (disbursed (send_to kora desk p email o w).1.outside)
    send_to-SendsOnce p email none w h = inl refl
    send_to-SendsOnce p email (some account) w h =
        let q = request_for desk p email account in
        let kept =
          follow_sent-keeps p (transfer kora q w.outside).0
            (record w { outside = (transfer kora q w.outside).1 }) in
        elim (transfer-adds q w.outside) [
          | inl same ↦ inl (kept ∙ same)
          | inr added ↦ inr (h, kept ∙ added)
        ]

    follow_lookup-SendsOnce :
        (p : SellerPayout) (email : String) (looked : Lookup) (w : World Bank)
        → (looked ≡ unknown → is_used p.reference (disbursed w.outside) ≡ false)
        → SendsOnce p
            (disbursed w.outside)
            (disbursed (follow_lookup kora desk p email looked w).1.outside)
    follow_lookup-SendsOnce p email (found t) w h = inl refl
    follow_lookup-SendsOnce p email unreachable w h = inl refl
    follow_lookup-SendsOnce p email unknown w h =
        send_to-SendsOnce p email (opened_account desk p) w (h refl)

    -- What a run for the payout does outside: nothing, or one transfer, of the net amount of the
    -- payout, which is processing, under its reference, which was not used.
    abbrev pub SendsPayout : String → Db → Disbursements → Disbursements → Type 0
    SendsPayout id d l l' =
        (l' ≡ l)
        ⊎ ((p : SellerPayout) × (find (is_payout id) d.seller_payouts ≡ some p)
            × (is_processing p.state ≡ true)
            × (is_used p.reference l ≡ false)
            × (l' ≡ (p.reference, net_of p) ∷ l))

    find_sending-payout :
        (id : String) (d : Db) (r : SellerPayout × String)
        → find_sending id d ≡ some r
        → find (is_payout id) d.seller_payouts ≡ some r.0
    unfolding find_sending
    find_sending-payout id d r h = ground (arith, h)

    payout_to_send-found :
        (id : String) (d0 : Db)
        → Ensures
            (λ d. d ≡ d0)
            (payout_to_send id)
            (λ r d. find (is_payout id) d0.seller_payouts ≡ some r.0)
    unfolding payout_to_send
    payout_to_send-found id d0 =
        bind
          (Ensures-select {Q = λ row d. find_sending id d0 ≡ row} _
            (λ t d e. ap (find_sending id) (sym e)))
          (λ row. Ensures-one_row (λ r d e h. find_sending-payout id d0 r (h ∙ e)))

    send_processing-SendsPayout :
        (id : String) (d : Db) (r : SellerPayout × String) (w : World Bank)
        → find (is_payout id) d.seller_payouts ≡ some r.0
        → SendsPayout id d
            (disbursed w.outside)
            (disbursed (send_processing kora desk r w).1.outside)
    unfolding send_processing
    send_processing-SendsPayout id d (p, email) w h = elim (Bool-cases (is_processing p.state)) [
      | inr e ↦ inl (rw e refl)
      | inl e ↦
          let b = find_transfer kora p.reference w.outside in
          let same = find_transfer-keeps p.reference w.outside in
          let w1 : World Bank = record w { outside = b.1 } in
          rw e
            (elim (follow_lookup-SendsOnce p email b.0 w1 (λ u.
              ap (is_used p.reference) same ∙ find_transfer-unknown p.reference w.outside u)) [
                | inl kept ↦ inl (kept ∙ same)
                | inr (unused, added) ↦ inr (
                  p,
                  h,
                  e,
                  sym (ap (is_used p.reference) same) ∙ unused,
                  added ∙ ap (λ l. (p.reference, net_of p) ∷ l) same,
                )
              ])
    ]

    -- A run of sendPayout sends nothing, or once the net amount of the payout in the table, which is
    -- processing, under a reference that was not used before.
    pub send_payout_once :
        (id : String) (w : World Bank)
        → SendsPayout id w.session.db
            (disbursed w.outside)
            (disbursed (send_payout kora desk id w).1.outside)
    unfolding send_payout
    send_payout_once id w = go (payout_to_send id w.session) refl
      where
        go :
            (r : Result (SellerPayout × String) × Session)
            → payout_to_send id w.session ≡ r
            → SendsPayout id w.session.db (disbursed w.outside) (
                disbursed
                  (continue_job
                    (send_processing kora desk)
                    (r.0, record w { session = r.1 })).1.outside)
        go (err e, s) h = inl refl
        go (ok row, s) h =
            send_processing-SendsPayout id w.session.db row (record w { session = s })
              (ensured (payout_to_send-found id w.session.db) refl h)

    abbrev pub KeepsOnce : Job Bank Unit0 → Type 0
    KeepsOnce m =
        (w : World Bank) → AreOnce (disbursed w.outside) → AreOnce (disbursed (m w).1.outside)

    once_added :
        (id : String) (d : Db) (l l' : Disbursements)
        → SendsPayout id d l l'
        → AreOnce l
        → AreOnce l'
    once_added id d l l' (inl same) h = subst AreOnce (sym same) h
    once_added id d l l' (inr (p, found_p, sent, unused, added)) h =
        subst AreOnce (sym added) (unused, h)

    advance_payout-KeepsOnce : (id : String) → KeepsOnce (advance_payout kora desk id)
    unfolding advance_payout
    advance_payout-KeepsOnce id w h = go (release_payout desk.payouts id w.session)
      where
        go :
            (r : Result Bool × Session)
            → AreOnce (
                disbursed
                  (continue_job
                    (λ ready. if ready then send_payout kora desk id else done tt)
                    (r.0, record w { session = r.1 })).1.outside)
        go (err e, s) = h
        go (ok false, s) = h
        go (ok true, s) =
            let w1 : World Bank = record w { session = s } in
            once_added id s.db _ _ (send_payout_once id w1) h

    advance_all-KeepsOnce : (ids : List String) → KeepsOnce (advance_all kora desk ids)
    unfolding advance_all
    advance_all-KeepsOnce [] w h = h
    advance_all-KeepsOnce (id ∷ ids) w h =
        advance_all-KeepsOnce ids (advance_payout kora desk id w).1
          (advance_payout-KeepsOnce id w h)

    pub process_payouts-KeepsOnce :
        (on client : Bool) → KeepsOnce (process_payouts kora desk on client)
    unfolding process_payouts
    process_payouts-KeepsOnce false client w h = h
    process_payouts-KeepsOnce true false w h = h
    process_payouts-KeepsOnce true true w h =
        go (claim_due_payouts desk.payouts.delay (auto_retry_failed_payouts w.session).1)
      where
        go :
            (r : Result (List String) × Session)
            → AreOnce (
                disbursed
                  (continue_job
                    (λ ids. advance_all kora desk ids)
                    (r.0, record w { session = r.1 })).1.outside)
        go (err e, s) = h
        go (ok ids, s) = advance_all-KeepsOnce ids (record w { session = s }) h

    pub check_payout_reversal-KeepsOnce :
        (client : Bool) (reference : String)
        → KeepsOnce (check_payout_reversal kora desk.payouts client reference)
    unfolding check_payout_reversal
    check_payout_reversal-KeepsOnce client reference w h = go (paid_under reference w.session)
      where
        looked_up :
            (p : SellerPayout) (l : Lookup) (w1 : World Bank)
            → AreOnce (disbursed w1.outside)
            → AreOnce (disbursed (follow_reversal kora desk.payouts p l w1).1.outside)
        looked_up p unreachable w1 h1 = h1
        looked_up p unknown w1 h1 = h1
        looked_up p (found t) w1 h1 = elim (Bool-cases (came_back t)) [
          | inl e ↦ rw e h1
          | inr e ↦ rw e h1
        ]

        asked :
            (client : Bool) (o : Option SellerPayout) (s : Session)
            → AreOnce (
                disbursed
                  (ask_provider kora desk.payouts client o (record w { session = s })).1.outside)
        asked client none s = h
        asked false (some p) s = h
        asked true (some p) s =
            let b = find_transfer kora p.reference w.outside in
            looked_up p b.0 (record w { session = s; outside = b.1 })
              (subst AreOnce (sym (find_transfer-keeps p.reference w.outside)) h)

        go :
            (r : Result (Option SellerPayout) × Session)
            → AreOnce (
                disbursed
                  (continue_job
                    (ask_provider kora desk.payouts client)
                    (r.0, record w { session = r.1 })).1.outside)
        go (err e, s) = h
        go (ok o, s) = asked client o s

    pub kora_webhook-KeepsOnce :
        (client : Bool) (event reference : String)
        → KeepsOnce (kora_webhook kora desk.payouts client event reference)
    unfolding kora_webhook
    kora_webhook-KeepsOnce client event reference w h =
        go (in_transaction (insert_provider_event >> follow_event event reference) w.session)
      where
        go :
            (r : Result Unit0 × Session)
            → AreOnce (
                disbursed
                  (continue_job
                    (λ u. after_event kora desk.payouts client event reference)
                    (r.0, record w { session = r.1 })).1.outside)
        go (err e, s) = h
        go (ok u, s) = elim (Bool-cases (str_eq event "transfer.failed")) [
          | inl e ↦
              rw e (check_payout_reversal-KeepsOnce client reference (record w { session = s }) h)
          | inr e ↦ rw e h
        ]
