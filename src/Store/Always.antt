-- ===== src/Store/Always.antt =====
-- What every run of a transaction keeps, whether it succeeds or not.
use wantmytime.Prelude.{Bool, true, false, List, [], ◌∷◌, Option, none, some, if◌then◌else◌}
use wantmytime.Prelude.Time.{Time}
use wantmytime.Store.Schema.{Db}
use wantmytime.Store.Monad.{
  Error, Result, ok, err, Session, Tx, continue, ◌>>=◌, query, select, exec, try_query, one_row,
  guard, lift, pure, fail, clock, statement, in_transaction, finish, commit,
}
use wantmytime.Store.Logic.{Ensures, Post}

-- From a database with P, a run ends with P.
pub record Always {A : Type 0} (P : Db → Type 0) (m : Tx A) : Type 0 where
  pub run : (s : Session) → P s.db → P (m s).1.db

module _ {P : Db → Type 0} where
  pub Always-Ensures : {A : Type 0} {m : Tx A} → Always P m → Ensures P m (λ _. P)
  Always-Ensures {A} {m} h = record { run = λ s p. go (m s) (h.run s p) }
    where
      go : (r : Result A × Session) → P r.1.db → Post (λ _. P) r
      go (ok a, s) p = p
      go (err e, s) p = tt

  pub Always-bind :
      {A B : Type 0} {m : Tx A} {f : A → Tx B}
      → Always P m
      → ((a : A) → Always P (f a))
      → Always P (m >>= f)
  Always-bind {A} {B} {m} {f} h k = record { run = λ s p. go (m s) (h.run s p) }
    where
      go : (r : Result A × Session) → P r.1.db → P (continue f r).1.db
      go (ok a, s) p = (k a).run s p
      go (err e, s) p = p

  pub Always-query :
      {A : Type 0} (f : Time → Db → A × Db)
      → ((t : Time) (d : Db) → P d → P (f t d).1)
      → Always P (query f)
  unfolding query
  Always-query f h = record { run = λ s p. go s p s.faults }
    where
      go : (s : Session) → P s.db → (l : List Bool) → P (statement f s l).1.db
      go s p [] = h s.now s.db p
      go s p (true ∷ l) = p
      go s p (false ∷ l) = h s.now s.db p

  pub Always-lift : {A : Type 0} {r : Result A} → Always P (lift r)
  Always-lift = record { run = λ s p. p }

  pub Always-pure : {A : Type 0} {a : A} → Always P (pure a)
  Always-pure = record { run = λ s p. p }

  pub Always-fail : {A : Type 0} {e : Error} → Always P (fail {A = A} e)
  Always-fail = record { run = λ s p. p }

  pub Always-clock : Always P clock
  Always-clock = record { run = λ s p. p }

  pub Always-select : {A : Type 0} (f : Time → Db → A) → Always P (select f)
  unfolding select
  Always-select f = Always-query _ (λ t d p. p)

  pub Always-exec :
      (f : Time → Db → Db) → ((t : Time) (d : Db) → P d → P (f t d)) → Always P (exec f)
  unfolding exec
  Always-exec f h = Always-query _ h

  pub Always-try_query :
      {A : Type 0} (f : Time → Db → Result A × Db)
      → ((t : Time) (d : Db) → P d → P (f t d).1)
      → Always P (try_query f)
  unfolding try_query
  Always-try_query f h = Always-bind (Always-query f h) (λ r. Always-lift)

  pub Always-one_row : {A : Type 0} (o : Option A) → Always P (one_row o)
  Always-one_row none = Always-fail
  Always-one_row (some a) = Always-pure

  pub Always-guard : (b : Bool) (e : Error) → Always P (guard b e)
  Always-guard true e = Always-pure
  Always-guard false e = Always-fail

  pub Always-if :
      {A : Type 0} (b : Bool) {m n : Tx A} → Always P m → Always P n → Always P (if b then m else n)
  Always-if true h k = h
  Always-if false h k = k

  -- A commit that fails, or an error, goes back to where the transaction began.
  pub Always-in_transaction : {A : Type 0} {m : Tx A} → Always P m → Always P (in_transaction m)
  unfolding in_transaction finish commit
  Always-in_transaction {A} {m} h =
      Always-bind (Always-query _ (λ t d p. p))
        (λ _. record { run = λ s p. go s.db p (m s) (h.run s p) })
    where
      committed :
          (before : Db)
          → P before
          → (a : A) (s : Session) → P s.db
          → (l : List Bool) → P (commit before a s l).1.db
      committed before b a s p [] = p
      committed before b a s p (true ∷ l) = b
      committed before b a s p (false ∷ l) = p

      go : (before : Db) → P before → (r : Result A × Session) → P r.1.db → P (finish before r).1.db
      go before b (ok a, s) p = committed before b a s p s.faults
      go before b (err e, s) p = b

  -- What holds after a success is kept by a transaction: an error rolls back.
  pub Always-atomic : {A : Type 0} {m : Tx A} → Ensures P m (λ _. P) → Always P (in_transaction m)
  unfolding in_transaction finish commit
  Always-atomic {A} {m} h =
      Always-bind (Always-query _ (λ t d p. p))
        (λ _. record { run = λ s p. go s.db p (m s) (h.run s p) })
    where
      committed :
          (before : Db)
          → P before
          → (a : A) (s : Session) → P s.db
          → (l : List Bool) → P (commit before a s l).1.db
      committed before b a s p [] = p
      committed before b a s p (true ∷ l) = b
      committed before b a s p (false ∷ l) = p

      go :
          (before : Db)
          → P before
          → (r : Result A × Session) → Post (λ _. P) r
          → P (finish before r).1.db
      go before b (ok a, s) p = committed before b a s p s.faults
      go before b (err e, s) p = b

  -- A fact about the value of the first step, for the second one.
  pub Always-after :
      {A B : Type 0} {m : Tx A} {f : A → Tx B} (F : A → Type 0)
      → Always P m
      → Ensures P m (λ a d. F a)
      → ((a : A) → F a → Always P (f a))
      → Always P (m >>= f)
  Always-after {A} {B} {m} {f} F h v k = record { run = λ s p. go (m s) (h.run s p) (v.run s p) }
    where
      go : (r : Result A × Session) → P r.1.db → Post (λ a d. F a) r → P (continue f r).1.db
      go (ok a, s) p x = (k a x).run s p
      go (err e, s) p x = p
