-- ===== src/Ledger/Booked.antt =====
-- The accounts that the entries of a journal are booked to (ledger.go, postLedgerJournal).
use mathlib.Core.List.{append_assoc, append-nil}
use wantmytime.Prelude.{
  ◌≡◌, refl, sym, ◌∙◌, true, String, eq_iff, Option, none, some, List, [], ◌∷◌, ◌++◌, find, arith,
  inl, inr, Bool-cases, ap,
}
use wantmytime.Prelude.Options.{some_inj}
use wantmytime.Prelude.Tables.{Some}
use wantmytime.Store.Schema.{Db, LedgerAccount, LedgerEntry}
use wantmytime.Store.Logic.{
  Ensures, bind, weaken, pointwise, Ensures-query, Ensures-select, Ensures-pure, Ensures-one_row,
  Ensures-exec,
}
use wantmytime.Ledger.Totals.{LedgerLine}
use wantmytime.Ledger.Journal.{
  Runtime, scope_key, is_account, insert_ledger_account, insert_ledger_account_row,
  insert_ledger_entry, account_of, insert_lines, find_ledger_account,
}

-- Some account has the id, and the code of the line, the currency, and the scope of the line.
abbrev pub HasAccount : String → LedgerLine → String → List LedgerAccount → Type 0
HasAccount currency line id accounts =
    Some
      (λ (a : LedgerAccount).
        (a.id ≡ id)
        × (a.account_code ≡ line.account_code)
        × (a.currency ≡ currency)
        × (scope_key a.scope_id ≡ scope_key line.scope_id))
      accounts

-- The entries are those of the lines, one by one: each has the journal, the side and the amount of its
-- line, and an account of its code, its scope and the currency.
abbrev pub AreEntriesOf :
    String → String → List LedgerAccount → List LedgerLine → List LedgerEntry → Type 0
AreEntriesOf journal_id currency accounts [] [] = Unit
AreEntriesOf journal_id currency accounts [] (e ∷ es) = ⊥
AreEntriesOf journal_id currency accounts (line ∷ lines) [] = ⊥
AreEntriesOf journal_id currency accounts (line ∷ lines) (e ∷ es) =
    (e.journal_id ≡ journal_id)
    × (e.side ≡ line.side)
    × (e.amount_minor ≡ line.amount)
    × HasAccount currency line e.account_id accounts
    × AreEntriesOf journal_id currency accounts lines es

-- The entries of the lines were added.
abbrev pub Adds : String → String → List LedgerLine → List LedgerEntry → Db → Type 0
Adds journal_id currency lines before d =
    (new : List LedgerEntry) × (d.ledger_entries ≡ before ++ new)
    × AreEntriesOf journal_id currency d.ledger_accounts lines new

-- The account that a search finds.
find-HasAccount :
    (currency : String) (line : LedgerLine) (l : List LedgerAccount) (a : LedgerAccount)
    → find (is_account line.account_code currency line.scope_id) l ≡ some a
    → HasAccount currency line a.id l
find-HasAccount currency line [] a h = absurd (cc)
find-HasAccount currency line (x ∷ l) a h =
    elim (Bool-cases (is_account line.account_code currency line.scope_id x)) [
      | inl e ↦ inl (
        ap (λ (y : LedgerAccount). y.id) (found_first e),
        (eq_iff x.account_code line.account_code).0 (ground (arith, e)),
        (eq_iff x.currency currency).0 (ground (arith, e)),
        (eq_iff (scope_key x.scope_id) (scope_key line.scope_id)).0 (ground (arith, e)),
      )
      | inr e ↦ inr (find-HasAccount currency line l a (ground (arith, h, e)))
    ]
  where
    found_first : is_account line.account_code currency line.scope_id x ≡ true → x ≡ a
    found_first e = some_inj (ground (arith, h, e))

module _ (rt : Runtime) (currency : String) where
  -- After the insertion of an account: the entries and the property of the accounts are kept, and an
  -- inserted id is one of the line's account.
  abbrev Opened :
      List LedgerEntry → (List LedgerAccount → Type 0) → LedgerLine → Option String → Db → Type 0
  Opened es K line none d = (d.ledger_entries ≡ es) × K d.ledger_accounts
  Opened es K line (some id) d =
      (d.ledger_entries ≡ es)
      × (K d.ledger_accounts × HasAccount currency line id d.ledger_accounts)

  module _ (K : List LedgerAccount → Type 0)
      (grows : (a : LedgerAccount) (l : List LedgerAccount) → K l → K (a ∷ l))
      (es : List LedgerEntry) (line : LedgerLine) where
    insert_ledger_account-Opened :
        Ensures
          (λ d. (d.ledger_entries ≡ es) × K d.ledger_accounts)
          (insert_ledger_account rt line.account_code currency line.scope_id)
          (Opened es K line)
    unfolding insert_ledger_account insert_ledger_account_row
    insert_ledger_account-Opened = Ensures-query _ (λ t d h. row d _ h)
      where
        row :
            (d : Db) (found : Option LedgerAccount)
            → (d.ledger_entries ≡ es) × K d.ledger_accounts
            → let r =
                insert_ledger_account_row rt line.account_code currency line.scope_id d found in
              Opened es K line r.0 r.1
        row d none h = (h.0, (grows _ _ h.1, inl (refl, refl, refl, refl)))
        row d (some a) h = h

    account_of-HasAccount :
        (inserted : Option String)
        → Ensures (Opened es K line inserted) (account_of rt currency line inserted) (λ id d.
          (d.ledger_entries ≡ es)
          × (K d.ledger_accounts × HasAccount currency line id d.ledger_accounts))
    unfolding account_of find_ledger_account
    account_of-HasAccount (some id) = Ensures-pure (λ d h. h)
    account_of-HasAccount none =
        bind
          (Ensures-select
            {Q = λ row d.
              ((d.ledger_entries ≡ es) × K d.ledger_accounts)
              × (find (is_account line.account_code currency line.scope_id) d.ledger_accounts
                  ≡ row)}
            _ (λ t d h. (h, refl)))
          (λ row.
            bind
              (Ensures-one_row
                {Q = λ a d.
                  (d.ledger_entries ≡ es)
                  × (K d.ledger_accounts × HasAccount currency line a.id d.ledger_accounts)}
                (λ a d e (h, found).
                  (h.0, (h.1, find-HasAccount currency line d.ledger_accounts a (found ∙ e)))))
              (λ a. Ensures-pure (λ d h. h)))

  module _ (journal_id : String) where
    pub insert_lines-Adds :
        (lines : List LedgerLine) (K : List LedgerAccount → Type 0)
        → ((a : LedgerAccount) (l : List LedgerAccount) → K l → K (a ∷ l))
        → (es : List LedgerEntry)
        → Ensures
            (λ d. (d.ledger_entries ≡ es) × K d.ledger_accounts)
            (insert_lines rt journal_id currency lines)
            (λ _ d. Adds journal_id currency lines es d × K d.ledger_accounts)
    unfolding insert_lines insert_ledger_entry
    insert_lines-Adds [] K grows es =
        Ensures-pure (λ d h. (([], h.0 ∙ sym (append-nil es), tt), h.1))
    insert_lines-Adds (line ∷ lines) K grows es =
        bind (insert_ledger_account-Opened K grows es line) (λ inserted.
          bind (account_of-HasAccount K grows es line inserted) (λ account. pointwise (λ d0 h0.
            let entry : LedgerEntry = record {
              id = rt.random_uuid d0.draws;
              journal_id = journal_id;
              account_id = account;
              side = line.side;
              amount_minor = line.amount;
            } in
            let Now : List LedgerAccount → Type 0 = λ l. K l × HasAccount currency line account l in
            bind
              (Ensures-exec
                {Q = λ _ d. (d.ledger_entries ≡ es ++ (entry ∷ [])) × Now d.ledger_accounts} _
                (λ t d same. rw same (ap (λ l. l ++ (entry ∷ [])) h0.0, h0.1)))
              (λ _.
                weaken
                  {R = λ _ d. Adds journal_id currency (line ∷ lines) es d × K d.ledger_accounts}
                  (insert_lines-Adds lines Now (λ a l (k, has). (grows a l k, inr has))
                    (es ++ (entry ∷ [])))
                  (λ _ d ((new, added, are), (k, has)). (
                    (
                      entry ∷ new,
                      added ∙ append_assoc es (entry ∷ []) new,
                      (refl, refl, refl, has, are),
                    ),
                    k,
                  ))))))
