-- ===== src/Payouts/Cooldown.antt =====
-- A payout account that replaces another one is not used for 24 hours (payouts.go,
-- setPayoutAccount).
use mathlib.Core.Path.{subst}
use wantmytime.Prelude.{
  ◌+◌, ◌*◌, ◌++◌, ◌≡◌, refl, sym, ◌∙◌, ap, ◌⊎◌, inl, inr, Bool, true, false, String, str_eq, eq_iff,
  some, List, [], ◌∷◌, find, Bool-cases, arith, if◌then◌else◌,
}
use wantmytime.Prelude.Time.{Time, hour}
use wantmytime.Prelude.Tables.{any, update_where}
use wantmytime.Store.Schema.{Db, SellerPayoutAccount}
use wantmytime.Store.Monad.{Error, Result, ok, err, invalid_account, Session, Tx, try_query}
use wantmytime.Store.Clock.{
  StandsStill, EnsuresAt, StandsStill-select, StandsStill-lift, StandsStill-bind, at_clock, bind_at,
  lift_at, in_transaction_at,
}
use wantmytime.Refunds.Operator.{insert_audit_event}
use wantmytime.Payouts.AccountInput.{PayoutAccountInput, valid_account}
use wantmytime.Store.Logic.{
  Post, given, Ensures-pure, Ensures, bind, Ensures-query, Ensures-lift, Ensures-exec,
  Ensures-select,
}
use wantmytime.Payouts.Account.{
  upsert_account, write_account, four_digits, last4, open_seller, audit_opened, save_account,
  account_replaced, or_answer, answered, some_or, account_to_save, seller_market,
  set_payout_account, SavedAccount, AccountDesk, of_seller, updated_account, put_account,
  usable_time, replaces,
}

-- The account is the one before with its time, or another one that is usable 24 hours from now.
abbrev pub CoolsDown : Time → SellerPayoutAccount → SellerPayoutAccount → Type 0
CoolsDown now a b =
    ((b.account_fingerprint ≡ a.account_fingerprint) × (b.usable_from ≡ a.usable_from))
    ⊎ ((str_eq a.account_fingerprint b.account_fingerprint ≡ false)
        × (b.usable_from ≡ now + 24 * hour))

-- Each seller that had an account has one that has cooled down or will.
abbrev pub AccountsCoolDown : Time → List SellerPayoutAccount → List SellerPayoutAccount → Type 0
AccountsCoolDown now old new =
    (seller_id : String) (a : SellerPayoutAccount)
    → find (of_seller seller_id) old ≡ some a
    → (b : SellerPayoutAccount) × (find (of_seller seller_id) new ≡ some b) × CoolsDown now a b

find-append :
    {A : Type 0} (p : A → Bool) (l m : List A) (a : A)
    → find p l ≡ some a
    → find p (l ++ m) ≡ some a
find-append p [] m a h = absurd (cc)
find-append p (x ∷ l) m a h = ground (arith, h, find-append p l m a)

any-found :
    {A : Type 0} (p q : A → Bool) (l : List A) (a : A)
    → find p l ≡ some a
    → q a ≡ true
    → any q l ≡ true
any-found p q [] a h e = absurd (cc)
any-found p q (x ∷ l) a h e = ground (arith, h, e, any-found p q l a)

module _ (v : SavedAccount) (usable t : Time) where
  abbrev after_update : SellerPayoutAccount → SellerPayoutAccount
  after_update a = if of_seller v.seller_id a then updated_account v usable t a else a

  of_seller-after_update :
      (x : String) (a : SellerPayoutAccount) → of_seller x (after_update a) ≡ of_seller x a
  of_seller-after_update x a = elim (Bool-cases (of_seller v.seller_id a)) [
    | inl e ↦ rw e (ap (λ s. str_eq s x) (sym ((eq_iff a.seller_id v.seller_id).0 e)))
    | inr e ↦ rw e refl
  ]

  find-update_where :
      (x : String) (l : List SellerPayoutAccount) (a : SellerPayoutAccount)
      → find (of_seller x) l ≡ some a
      → find (of_seller x) (update_where (of_seller v.seller_id) (updated_account v usable t) l)
        ≡ some (after_update a)
  find-update_where x [] a h = absurd (cc)
  find-update_where x (y ∷ l) a h = elim (Bool-cases (of_seller x y)) [
    | inl e ↦
        rw (of_seller-after_update x y, e) (ap (λ z. some (after_update z)) (ground (arith, h, e)))
    | inr e ↦ rw (of_seller-after_update x y, e) (find-update_where x l a (ground (arith, h, e)))
  ]

  after_update-CoolsDown :
      (now : Time) (l : List SellerPayoutAccount) (x : String) (a : SellerPayoutAccount)
      → usable ≡ usable_time (any (replaces v) l) now
      → find (of_seller x) l ≡ some a
      → CoolsDown now a (after_update a)
  after_update-CoolsDown now l x a same h = elim (Bool-cases (of_seller v.seller_id a)) [
    | inr e ↦ rw e (inl (refl, refl))
    | inl e ↦ rw e (elim (Bool-cases (str_eq a.account_fingerprint v.fingerprint)) [
      | inl f ↦ inl (sym ((eq_iff a.account_fingerprint v.fingerprint).0 f), rw f refl)
      | inr f ↦
          let replaced = any-found (of_seller x) (replaces v) l a h (ground (arith, e, f)) in
          inr (f, rw f (same ∙ ap (λ r. usable_time r now) replaced))
    ])
  ]

  put_account-CoolsDown :
      (now : Time) (l : List SellerPayoutAccount)
      → usable ≡ usable_time (any (replaces v) l) now
      → AccountsCoolDown now l (put_account v usable t l)
  put_account-CoolsDown now l same x a h = elim (Bool-cases (any (of_seller v.seller_id) l)) [
    | inl e ↦
        rw e (after_update a, find-update_where x l a h, after_update-CoolsDown now l x a same h)
    | inr e ↦ rw e (a, find-append (of_seller x) l _ a h, inl (refl, refl))
  ]

upsert_account-CoolsDown :
    (v : SavedAccount) (now : Time) (l : List SellerPayoutAccount)
    → Ensures
        (λ d. d.seller_payout_accounts ≡ l)
        (upsert_account v (usable_time (any (replaces v) l) now))
        (λ _ d. AccountsCoolDown now l d.seller_payout_accounts)
unfolding upsert_account try_query
upsert_account-CoolsDown v now l =
    bind {Q = λ r d. (r ≡ ok tt → AccountsCoolDown now l d.seller_payout_accounts)}
      (Ensures-query _ (λ t d e. elim (Bool-cases (four_digits (last4 v.input.account_number))) [
        | inl f ↦ rw f (λ _.
            let usable = usable_time (any (replaces v) l) now in
            subst (λ m. AccountsCoolDown now l (put_account v usable t m)) (sym e)
              (put_account-CoolsDown v usable t now l refl))
        | inr f ↦ rw f (λ h. absurd (cc))
      ]))
      (λ r. Ensures-lift (λ u d same h. h same))

insert_audit_event-keeps :
    (P : List SellerPayoutAccount → Type 0) (actor action target reason : String)
    → Ensures
        (λ d. P d.seller_payout_accounts)
        (insert_audit_event actor action target reason)
        (λ _ d. P d.seller_payout_accounts)
unfolding insert_audit_event
insert_audit_event-keeps P actor action target reason = Ensures-exec _ (λ t d h. h)

audit_opened-keeps :
    (P : List SellerPayoutAccount → Type 0) (user_id : String) (opened : Bool)
    → Ensures
        (λ d. P d.seller_payout_accounts)
        (audit_opened user_id opened)
        (λ _ d. P d.seller_payout_accounts)
unfolding audit_opened
audit_opened-keeps P user_id false = Ensures-pure (λ d h. h)
audit_opened-keeps P user_id true = insert_audit_event-keeps P _ _ _ _

open_seller-keeps :
    (P : List SellerPayoutAccount → Type 0) (seller_id : String)
    → Ensures
        (λ d. P d.seller_payout_accounts)
        (open_seller seller_id)
        (λ _ d. P d.seller_payout_accounts)
unfolding open_seller
open_seller-keeps P seller_id = Ensures-query _ (λ t d h. h)

write_account-CoolsDown :
    (user_id : String) (v : SavedAccount) (now : Time) (l : List SellerPayoutAccount)
    → Ensures
        (λ d. d.seller_payout_accounts ≡ l)
        (write_account user_id v (usable_time (any (replaces v) l) now))
        (λ _ d. AccountsCoolDown now l d.seller_payout_accounts)
unfolding write_account
write_account-CoolsDown user_id v now l =
    let P = AccountsCoolDown now l in
    bind (upsert_account-CoolsDown v now l) (λ _.
      bind (insert_audit_event-keeps P _ _ _ _)
        (λ _. bind (open_seller-keeps P _) (audit_opened-keeps P user_id)))

save_account-CoolsDown :
    (user_id : String) (v : SavedAccount) (now : Time) (l : List SellerPayoutAccount)
    → EnsuresAt now
        (λ d. d.seller_payout_accounts ≡ l)
        (save_account user_id v)
        (λ _ d. AccountsCoolDown now l d.seller_payout_accounts)
unfolding save_account account_replaced
save_account-CoolsDown user_id v now l = in_transaction_at (
    bind_at (StandsStill-select _)
      (Ensures-select {Q = λ r d. (d.seller_payout_accounts ≡ l) × (any (replaces v) l ≡ r)} _
        (λ t d e. (e, ap (any (replaces v)) (sym e))))
      (λ r.
        at_clock (λ t. write_account user_id v (usable_time r t))
          (given (λ e.
            subst
              (λ b.
                Ensures (λ d. d.seller_payout_accounts ≡ l)
                  (write_account user_id v (usable_time b now))
                  (λ _ d. AccountsCoolDown now l d.seller_payout_accounts))
              e (write_account-CoolsDown user_id v now l)))))

module _ {A : Type 0} (e : Error) where
  StandsStill-or_answer : {m : Tx A} → StandsStill m → StandsStill (or_answer e m)
  StandsStill-or_answer {m} h = record { run = λ s. go (m s) s.now (h.run s) }
    where
      go : (r : Result A × Session) (t : Time) → r.1.now ≡ t → (answered e r).1.now ≡ t
      go (ok a, s) t h = h
      go (err x, s) t h = h

  Ensures-or_answer :
      {P : Db → Type 0} {Q : A → Db → Type 0} {m : Tx A}
      → Ensures P m Q
      → Ensures P (or_answer e m) Q
  Ensures-or_answer {P} {Q} {m} h = record { run = λ s p. go (m s) (h.run s p) }
    where
      go : (r : Result A × Session) → Post Q r → Post Q (answered e r)
      go (ok a, s) q = q
      go (err x, s) q = tt

module _ (desk : AccountDesk) (user_id : String) where
  seller_market-StandsStill : StandsStill (seller_market desk user_id)
  unfolding seller_market
  seller_market-StandsStill = StandsStill-bind (StandsStill-select _) (λ row. StandsStill-lift)

  seller_market-keeps : (P : Db → Type 0) → Ensures P (seller_market desk user_id) (λ _. P)
  unfolding seller_market
  seller_market-keeps P =
      bind (Ensures-select {Q = λ _. P} _ (λ t d p. p)) (λ row. Ensures-lift (λ m d e p. p))

  -- Saving a payout account succeeds only so: every seller who had an account has it still, with the
  -- time from which it is used, or has another one that is used 24 hours from now.
  pub payout_account_cools_down :
      (input : PayoutAccountInput) (s s' : Session)
      → set_payout_account desk user_id input s ≡ (ok tt, s')
      → AccountsCoolDown s.now s.db.seller_payout_accounts s'.db.seller_payout_accounts
  unfolding set_payout_account
  payout_account_cools_down input s s' h =
      let l = s.db.seller_payout_accounts in
      let P : Db → Type 0 = λ d. d.seller_payout_accounts ≡ l in
      let saved : EnsuresAt s.now P (set_payout_account desk user_id input)
          (λ _ d. AccountsCoolDown s.now l d.seller_payout_accounts) =
        bind_at (StandsStill-or_answer _ seller_market-StandsStill)
          (Ensures-or_answer _ (seller_market-keeps P))
          (λ found.
            lift_at (some_or invalid_account (valid_account desk.unicode found.1 input)) (λ q.
              lift_at (account_to_save desk found.0 found.1 q)
                (λ v. save_account-CoolsDown user_id v s.now l))) in
      subst (Post (λ _ d. AccountsCoolDown s.now l d.seller_payout_accounts)) h
        (saved.run s refl refl)
