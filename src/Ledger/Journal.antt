-- ===== src/Ledger/Journal.antt =====
-- ledger.go, postLedgerJournal, and the statements of ledger.sql.go that it runs.
use Prim.Native.String.{len}
use wantmytime.Prelude.{
  ℕ, suc, ◌++◌, Bool, not, ◌&&◌, ◌||◌, String, str_eq, Option, none, some, List, [], ◌∷◌, find,
  length, Unit0, ltb, ◌==◌, if◌then◌else◌,
}
use wantmytime.Prelude.Int64.{ℤ, pos, eqb_ℤ}
use wantmytime.Store.Schema.{Db, LedgerAccount, LedgerJournal}
use wantmytime.Store.Monad.{
  Result, ok, err, Tx, ◌>>=◌, ◌>>◌, pure, guard, lift, query, select, exec, one_row,
  invalid_journal_identity, unbalanced_journal, source_identity_reused,
}
use wantmytime.Ledger.Bytes.{equal_bytes}
use wantmytime.Ledger.Totals.{LedgerLine, ledger_totals}

-- What the code takes from outside of the repository: the uuids that PostgreSQL's gen_random_uuid()
-- draws, and sha256 of the JSON of a journal's currency, description and lines.
pub record Runtime : Type 0 where
  pub random_uuid : ℕ → String
  pub journal_digest : String → String → List LedgerLine → List ℕ

-- COALESCE(scope_id, the nil uuid)
abbrev pub scope_key : Option String → String
scope_key none = "00000000-0000-0000-0000-000000000000"
scope_key (some scope) = scope

abbrev pub is_source : String → String → LedgerJournal → Bool
is_source source_type source_id j = str_eq j.source_type source_type && str_eq j.source_id source_id

abbrev pub is_account : String → String → Option String → LedgerAccount → Bool
is_account account_code currency scope_id a =
    str_eq a.account_code account_code
    && str_eq a.currency currency
    && str_eq (scope_key a.scope_id) (scope_key scope_id)

module _ (rt : Runtime) where
  -- INSERT … ON CONFLICT (source_type, source_id) DO NOTHING RETURNING id
  unfoldable pub insert_ledger_journal_row :
      String → String → String → String → List ℕ → Db → Option LedgerJournal → Option String × Db
  insert_ledger_journal_row source_type source_id currency description digest d (some _) = (none, d)
  insert_ledger_journal_row source_type source_id currency description digest d none =
      let id = rt.random_uuid d.draws in
      (
        some id,
        record d {
          draws = suc d.draws;
          ledger_journals =
              record {
                id = id;
                source_type = source_type;
                source_id = source_id;
                currency = currency;
                description = description;
                request_digest = digest;
              }
              ∷ d.ledger_journals;
        },
      )

  unfoldable pub insert_ledger_journal :
      String → String → String → String → List ℕ → Tx (Option String)
  unfolding insert_ledger_journal_row
  insert_ledger_journal source_type source_id currency description digest = query (λ t d.
      insert_ledger_journal_row source_type source_id currency description digest d
        (find (is_source source_type source_id) d.ledger_journals))

  -- INSERT … ON CONFLICT DO NOTHING RETURNING id, under the unique index ledger_accounts_identity
  unfoldable pub insert_ledger_account_row :
      String → String → Option String → Db → Option LedgerAccount → Option String × Db
  insert_ledger_account_row account_code currency scope_id d (some _) = (none, d)
  insert_ledger_account_row account_code currency scope_id d none =
      let id = rt.random_uuid d.draws in
      (
        some id,
        record d {
          draws = suc d.draws;
          ledger_accounts =
              record {
                id = id;
                account_code = account_code;
                currency = currency;
                scope_id = scope_id;
              }
              ∷ d.ledger_accounts;
        },
      )

  unfoldable pub insert_ledger_account : String → String → Option String → Tx (Option String)
  unfolding insert_ledger_account_row
  insert_ledger_account account_code currency scope_id = query (λ t d.
      insert_ledger_account_row account_code currency scope_id d
        (find (is_account account_code currency scope_id) d.ledger_accounts))

  unfoldable pub insert_ledger_entry : String → String → String → ℤ → Tx Unit0
  insert_ledger_entry journal_id account_id side amount = exec (λ t d. record d {
    draws = suc d.draws;
    ledger_entries =
        d.ledger_entries
        ++ (record {
          id = rt.random_uuid d.draws;
          journal_id = journal_id;
          account_id = account_id;
          side = side;
          amount_minor = amount;
        }
            ∷ []);
  })

unfoldable pub ledger_journal_by_source : String → String → Tx LedgerJournal
ledger_journal_by_source source_type source_id = do
  row ← select (λ t d. find (is_source source_type source_id) d.ledger_journals)
  one_row row

unfoldable pub find_ledger_account : String → String → Option String → Tx String
find_ledger_account account_code currency scope_id = do
  row ← select (λ t d. find (is_account account_code currency scope_id) d.ledger_accounts)
  account ← one_row row
  pure account.id

-- The checks before anything is written.
unfoldable pub check_journal : String → String → String → List LedgerLine → Result Unit0
check_journal source_type source_id currency lines =
    if str_eq source_type ""
      || str_eq source_id ""
      || not (len currency == 3)
      || ltb (length lines) 2
    then err invalid_journal_identity
    else elim (ledger_totals lines (pos 0) (pos 0)) [
      | ok (debit, credit) ↦
          if eqb_ℤ debit credit then ok tt else err (unbalanced_journal debit credit)
      | err e ↦ err e
    ]

module _ (rt : Runtime) where
  -- The account of a line, made if it is not there.
  unfoldable pub account_of : String → LedgerLine → Option String → Tx String
  account_of currency line (some id) = pure id
  account_of currency line none = find_ledger_account line.account_code currency line.scope_id

  unfoldable pub insert_lines : String → String → List LedgerLine → Tx Unit0
  unfolding account_of
  insert_lines journal_id currency [] = pure tt
  insert_lines journal_id currency (line ∷ lines) = do
    inserted ← insert_ledger_account rt line.account_code currency line.scope_id
    account_id ← account_of currency line inserted
    insert_ledger_entry rt journal_id account_id line.side line.amount
    insert_lines journal_id currency lines

  -- The journal was new, or its source has one already.
  unfoldable pub finish_journal :
      String → String → String → List ℕ → List LedgerLine → Option String → Tx String
  unfolding insert_lines
  finish_journal source_type source_id currency digest lines (some journal_id) = do
    insert_lines journal_id currency lines
    pure journal_id
  finish_journal source_type source_id currency digest lines none = do
    existing ← ledger_journal_by_source source_type source_id
    guard (equal_bytes existing.request_digest digest) source_identity_reused
    pure existing.id

  unfoldable pub post_ledger_journal :
      String → String → String → String → List LedgerLine → Tx String
  unfolding finish_journal
  post_ledger_journal source_type source_id currency description lines = do
    lift (check_journal source_type source_id currency lines)
    let digest = rt.journal_digest currency description lines
    inserted ← insert_ledger_journal rt source_type source_id currency description digest
    finish_journal source_type source_id currency digest lines inserted
