-- ===== src/Ledger/Posting.antt =====
-- The contract of postLedgerJournal: double entry, and one journal for a source.
use wantmytime.Prelude.{
  ℕ, ◌+◌, ◌≡◌, ◌≢◌, refl, ◌∙◌, ◌⊎◌, inl, inr, ◌&&◌, String, str_eq, List, [], some, ◌∷◌, ◌++◌, map,
  if◌then◌else◌, arith, find,
}
use wantmytime.Prelude.Int64.{pos_part}
use wantmytime.Store.Schema.{Db, LedgerJournal}
use wantmytime.Store.Monad.{Session, ok, err, source_identity_reused, query, select}
use wantmytime.Store.Logic.{ensured}
use wantmytime.Ledger.Bytes.{equal_bytes, equal_bytes_iff}
use wantmytime.Ledger.Totals.{LedgerLine}
use wantmytime.Ledger.Sums.{side_sum, AmountsFit}
use wantmytime.Ledger.Journal.{
  Runtime, is_source, check_journal, insert_ledger_journal, insert_ledger_journal_row,
  ledger_journal_by_source, finish_journal, post_ledger_journal,
}
use wantmytime.Ledger.Booked.{Adds}
use wantmytime.Ledger.Balance.{
  Posting, postings, line_posting, others, IsBalanced, check_journal-IsBalanced,
  post_ledger_journal-Posted,
}

-- The sum of the amounts on one side of one journal.
abbrev pub journal_sum : String → String → List Posting → ℕ
journal_sum journal_id side [] = 0
journal_sum journal_id side ((j, s, amount) ∷ ps) =
    (if str_eq j journal_id && str_eq s side then pos_part amount else 0)
    + journal_sum journal_id side ps

-- In every journal the debits and the credits have the same sum.
abbrev pub LedgerIsBalanced : Db → Type 0
LedgerIsBalanced d =
    (journal_id : String)
    → journal_sum journal_id "debit" (postings d) ≡ journal_sum journal_id "credit" (postings d)

journal_sum-append :
    (j side : String) (ps qs : List Posting)
    → journal_sum j side (ps ++ qs) ≡ journal_sum j side ps + journal_sum j side qs
journal_sum-append j side [] qs = omega arith
journal_sum-append j side ((i, s, a) ∷ ps) qs = omega (arith, journal_sum-append j side ps qs)

journal_sum-lines :
    (j side id : String) (lines : List LedgerLine)
    → journal_sum j side (map (line_posting id) lines)
      ≡ (if str_eq id j then side_sum side lines else 0)
journal_sum-lines j side id [] = ground arith
journal_sum-lines j side id (line ∷ lines) = ground (arith, journal_sum-lines j side id lines)

balanced_append :
    (j id : String) (lines : List LedgerLine) (ps : List Posting)
    → journal_sum j "debit" ps ≡ journal_sum j "credit" ps
    → side_sum "debit" lines ≡ side_sum "credit" lines
    → journal_sum j "debit" (ps ++ map (line_posting id) lines)
      ≡ journal_sum j "credit" (ps ++ map (line_posting id) lines)
balanced_append j id lines ps h k = ground (
  arith,
  journal_sum-append j "debit" ps (map (line_posting id) lines),
  journal_sum-append j "credit" ps (map (line_posting id) lines),
  journal_sum-lines j "debit" id lines,
  journal_sum-lines j "credit" id lines,
)

-- A journal that is posted with success, its amounts being int64 values, has debits and credits of
-- the same sum and only positive amounts; and either nothing changed, the source having this journal
-- already, or exactly its lines were added to the entries, one entry for each line, with the
-- journal's id, the line's side and amount, and an account of the line's code and scope and of the
-- journal's currency, and no table outside of the ledger changed.
pub post_ledger_journal_effect :
    (rt : Runtime) (source_type source_id currency description : String) (lines : List LedgerLine)
    (s s' : Session) {id : String}
    → AmountsFit lines
    → post_ledger_journal rt source_type source_id currency description lines s ≡ (ok id, s')
    → ((s'.db ≡ s.db)
        ⊎ ((postings s'.db ≡ postings s.db ++ map (line_posting id) lines)
            × (others s'.db ≡ others s.db)
            × Adds id currency lines s.db.ledger_entries s'.db))
      × IsBalanced lines
post_ledger_journal_effect rt source_type source_id currency description lines s s' fits e =
    let posted =
      ensured (post_ledger_journal-Posted rt source_type source_id currency description lines s.db)
        refl e in
    (posted.0.0, check_journal-IsBalanced source_type source_id currency lines fits posted.1)

-- Posting keeps the ledger balanced, journal by journal.
pub post_ledger_journal-LedgerIsBalanced :
    (rt : Runtime) (source_type source_id currency description : String) (lines : List LedgerLine)
    (s s' : Session) {id : String}
    → AmountsFit lines
    → LedgerIsBalanced s.db
    → post_ledger_journal rt source_type source_id currency description lines s ≡ (ok id, s')
    → LedgerIsBalanced s'.db
post_ledger_journal-LedgerIsBalanced rt source_type source_id currency description lines s s' {id}
      fits h e j =
    let (effect, sums) =
      post_ledger_journal_effect rt source_type source_id currency description lines s s' fits e in
    elim effect [
      | inl same ↦ rw same (h j)
      | inr (added, _, _) ↦ rw added (balanced_append j id lines (postings s.db) (h j) sums.0)
    ]

module _ (rt : Runtime) (source_type source_id currency description : String)
    (lines : List LedgerLine) (s : Session) (j : LedgerJournal)
    (checked : check_journal source_type source_id currency lines ≡ ok tt)
    (found : find (is_source source_type source_id) s.db.ledger_journals ≡ some j)
    (working : s.faults ≡ []) where
  -- The source has a journal: its digest decides.
  post_ledger_journal_known :
      post_ledger_journal rt source_type source_id currency description lines s ≡ (
        if equal_bytes j.request_digest (rt.journal_digest currency description lines)
            then ok j.id
            else err source_identity_reused,
        s,
      )
  unfolding post_ledger_journal insert_ledger_journal insert_ledger_journal_row finish_journal
      ledger_journal_by_source query select
  post_ledger_journal_known = ground arith

-- A post that succeeded, repeated while the database answers, gives the same journal id and changes
-- nothing.
pub post_ledger_journal_retry :
    (rt : Runtime) (source_type source_id currency description : String) (lines : List LedgerLine)
    (s s' : Session) {id : String}
    → post_ledger_journal rt source_type source_id currency description lines s ≡ (ok id, s')
    → s'.faults ≡ []
    → post_ledger_journal rt source_type source_id currency description lines s' ≡ (ok id, s')
post_ledger_journal_retry rt source_type source_id currency description lines s s' {id} e working =
    let ((_, (j, found, named, digest)), checked) =
      ensured (post_ledger_journal-Posted rt source_type source_id currency description lines s.db)
        refl e in
    post_ledger_journal_known rt source_type source_id currency description lines s' j checked found
      working
    ∙ ground
        (arith, equal_bytes_iff j.request_digest (rt.journal_digest currency description lines))

-- After a post that succeeded, while the database answers, another journal of the same source, which
-- the checks accept and which has another digest, is refused and changes nothing.
pub post_ledger_journal_reuse :
    (rt : Runtime) (source_type source_id currency currency' description description' : String)
    (lines lines' : List LedgerLine) (s s' : Session) {id : String}
    → post_ledger_journal rt source_type source_id currency description lines s ≡ (ok id, s')
    → s'.faults ≡ []
    → check_journal source_type source_id currency' lines' ≡ ok tt
    → rt.journal_digest currency' description' lines' ≢ rt.journal_digest currency description lines
    → post_ledger_journal rt source_type source_id currency' description' lines' s'
      ≡ (err source_identity_reused, s')
post_ledger_journal_reuse rt source_type source_id currency currency' description description' lines
      lines' s s' e working checked' differs =
    let ((_, (j, found, named, digest)), _) =
      ensured (post_ledger_journal-Posted rt source_type source_id currency description lines s.db)
        refl e in
    post_ledger_journal_known rt source_type source_id currency' description' lines' s' j checked'
      found working
    ∙ ground
        (arith, equal_bytes_iff j.request_digest (rt.journal_digest currency' description' lines'))
