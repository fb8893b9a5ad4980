-- ===== src/Store/Transaction.antt =====
-- Transactions as a whole: all or nothing.
use wantmytime.Prelude.{Unit0, ap, ◌∙◌, Bool, true, false, List, [], ◌∷◌, ◌≡◌, refl}
use wantmytime.Prelude.Time.{Time}
use wantmytime.Store.Schema.{Db}
use wantmytime.Store.Monad.{
  Error, Result, ok, err, Session, Tx, continue, query, statement, in_transaction, finish, commit,
}
use wantmytime.Store.Logic.{Ensures, Post, bind, Ensures-query}

commit-Post :
    {A : Type 0} (Q : A → Db → Type 0) (before : Db) (a : A) (s : Session) (faults : List Bool)
    → Q a s.db
    → Post Q (commit before a s faults)
unfolding commit
commit-Post Q before a s [] h = h
commit-Post Q before a s (true ∷ l) h = tt
commit-Post Q before a s (false ∷ l) h = h

pub finish-Post :
    {A : Type 0} (Q : A → Db → Type 0) (before : Db) (r : Result A × Session)
    → Post Q r
    → Post Q (finish before r)
unfolding finish
finish-Post Q before (ok a, s) h = commit-Post Q before a s s.faults h
finish-Post Q before (err e, s) h = tt

pub Ensures-in_transaction :
    {A : Type 0} {P : Db → Type 0} {Q : A → Db → Type 0} {m : Tx A}
    → Ensures P m Q
    → Ensures P (in_transaction m) Q
unfolding in_transaction
Ensures-in_transaction {P} {Q} {m} h =
    bind {Q = λ _. P} (Ensures-query _ (λ t d p. p))
      (λ _. record { run = λ s p. finish-Post Q s.db (m s) (h.run s p) })

-- The database after an error is the one before.
abbrev Restored : {A : Type 0} → Db → Result A × Session → Type 0
Restored before (ok a, s) = Unit
Restored before (err e, s) = s.db ≡ before

commit-Restored :
    {A : Type 0} (before : Db) (a : A) (s : Session) (faults : List Bool)
    → Restored before (commit before a s faults)
unfolding commit
commit-Restored before a s [] = tt
commit-Restored before a s (true ∷ l) = refl
commit-Restored before a s (false ∷ l) = tt

finish-Restored :
    {A : Type 0} (before : Db) (r : Result A × Session) → Restored before (finish before r)
unfolding finish
finish-Restored before (ok a, s) = commit-Restored before a s s.faults
finish-Restored before (err e, s) = refl

transaction-Restored :
    {A : Type 0} (m : Tx A) (s : Session) (faults : List Bool)
    → Restored s.db (continue (λ u s'. finish s'.db (m s')) (statement (λ t d. (tt, d)) s faults))
transaction-Restored m s [] = finish-Restored s.db (m s)
transaction-Restored m s (true ∷ l) = refl
transaction-Restored m s (false ∷ l) = finish-Restored s.db (m (record s { faults = l }))

pub in_transaction_rollback :
    {A : Type 0} (m : Tx A) (s s' : Session) (e : Error)
    → in_transaction m s ≡ (err e, s')
    → s'.db ≡ s.db
unfolding in_transaction query
in_transaction_rollback m s s' e h = rw h at (transaction-Restored m s s.faults)

-- A statement while the database answers.
pub query_working :
    {A : Type 0} (f : Time → Db → A × Db) (s : Session)
    → s.faults ≡ []
    → query f s ≡ (ok (f s.now s.db).0, record s { db = (f s.now s.db).1 })
unfolding query
query_working f s working = ap (statement f s) working

begin-noop : (s : Session) → s.faults ≡ [] → query {A = Unit0} (λ t d. (tt, d)) s ≡ (ok tt, s)
begin-noop s working = query_working (λ t d. (tt, d)) s working

-- What is refused in the transaction, is refused.
pub in_transaction-err :
    {A : Type 0} (m : Tx A) (s : Session) (e : Error)
    → m s ≡ (err e, s)
    → s.faults ≡ []
    → in_transaction m s ≡ (err e, s)
unfolding in_transaction finish
in_transaction-err {A} m s e h working =
    ap (continue (λ (_ : Unit0) s'. finish s'.db (m s'))) (begin-noop s working) ∙ rw h refl
