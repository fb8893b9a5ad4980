-- ===== src/Store/Clock.antt =====
-- Rules for transactions that read the clock: what holds of a run that begins at a given time.
use mathlib.Core.Path.{subst}
use wantmytime.Prelude.{◌≡◌, refl, sym, ◌∙◌, Bool, true, false, List, [], ◌∷◌, Option, none, some}
use wantmytime.Prelude.Time.{Time}
use wantmytime.Store.Schema.{Db}
use wantmytime.Store.Monad.{
  Result, ok, err, Session, Tx, continue, ◌>>=◌, clock, query, select, lift, one_row, statement,
  in_transaction, finish,
}
use wantmytime.Store.Logic.{Ensures, Post}
use wantmytime.Store.Transaction.{finish-Post}

-- The clock stands still.
pub record StandsStill {A : Type 0} (m : Tx A) : Type 0 where
  pub run : (s : Session) → (m s).1.now ≡ s.now

-- From a database with P at the time `now`, a run that succeeds ends with Q.
pub record EnsuresAt {A : Type 0} (now : Time) (P : Db → Type 0) (m : Tx A) (Q : A → Db → Type 0)
    : Type 0 where
  pub run : (s : Session) → s.now ≡ now → P s.db → Post Q (m s)

module _ {A : Type 0} where
  pub StandsStill-query : (f : Time → Db → A × Db) → StandsStill (query f)
  unfolding query
  StandsStill-query f = record { run = λ s. go s s.faults }
    where
      go : (s : Session) (l : List Bool) → (statement f s l).1.now ≡ s.now
      go s [] = refl
      go s (true ∷ l) = refl
      go s (false ∷ l) = refl

  pub StandsStill-select : (f : Time → Db → A) → StandsStill (select f)
  unfolding select
  StandsStill-select f = StandsStill-query _

  pub StandsStill-lift : {r : Result A} → StandsStill (lift r)
  StandsStill-lift = record { run = λ s. refl }

  pub StandsStill-one_row : (o : Option A) → StandsStill (one_row o)
  StandsStill-one_row none = record { run = λ s. refl }
  StandsStill-one_row (some a) = record { run = λ s. refl }

  pub StandsStill-bind :
      {B : Type 0} {m : Tx A} {f : A → Tx B}
      → StandsStill m
      → ((a : A) → StandsStill (f a))
      → StandsStill (m >>= f)
  StandsStill-bind {B} {m} {f} h k = record { run = λ s. go (m s) s.now (h.run s) }
    where
      go : (r : Result A × Session) (t : Time) → r.1.now ≡ t → (continue f r).1.now ≡ t
      go (ok a, s) t e = (k a).run s ∙ e
      go (err x, s) t e = e

  pub EnsuresAt-Ensures :
      {now : Time} {P : Db → Type 0} {m : Tx A} {Q : A → Db → Type 0}
      → Ensures P m Q
      → EnsuresAt now P m Q
  EnsuresAt-Ensures h = record { run = λ s e p. h.run s p }

  pub at_clock :
      {now : Time} {P : Db → Type 0} {Q : A → Db → Type 0} (f : Time → Tx A)
      → Ensures P (f now) Q
      → EnsuresAt now P (clock >>= f) Q
  at_clock {P} {Q} f h = record { run = λ s e p. subst (λ t. Post Q (f t s)) (sym e) (h.run s p) }

  pub bind_at :
      {B : Type 0} {now : Time} {P : Db → Type 0} {Q : A → Db → Type 0} {R : B → Db → Type 0}
      {m : Tx A} {f : A → Tx B}
      → StandsStill m
      → Ensures P m Q
      → ((a : A) → EnsuresAt now (Q a) (f a) R)
      → EnsuresAt now P (m >>= f) R
  bind_at {B} {now} {Q} {R} {m} {f} still h k = record {
    run = λ s e p. go (m s) (still.run s ∙ e) (h.run s p);
  }
    where
      go : (r : Result A × Session) → r.1.now ≡ now → Post Q r → Post R (continue f r)
      go (ok a, s) e q = (k a).run s e q
      go (err x, s) e q = tt

  pub in_transaction_at :
      {now : Time} {P : Db → Type 0} {m : Tx A} {Q : A → Db → Type 0}
      → EnsuresAt now P m Q
      → EnsuresAt now P (in_transaction m) Q
  unfolding in_transaction query
  in_transaction_at {now} {P} {m} {Q} h = record { run = λ s e p. go s s.faults e p }
    where
      go :
          (s : Session) (l : List Bool)
          → s.now ≡ now
          → P s.db
          → Post Q (continue (λ _ s'. finish s'.db (m s')) (statement (λ t d. (tt, d)) s l))
      go s [] e p = finish-Post Q s.db (m s) (h.run s e p)
      go s (true ∷ l) e p = tt
      go s (false ∷ l) e p = finish-Post Q s.db _ (h.run (record s { faults = l }) e p)

  pub lift_at :
      {B : Type 0} {now : Time} {P : Db → Type 0} {R : B → Db → Type 0} {f : A → Tx B}
      (r : Result A)
      → ((a : A) → EnsuresAt now P (f a) R)
      → EnsuresAt now P (lift r >>= f) R
  lift_at (ok a) k = record { run = λ s e p. (k a).run s e p }
  lift_at (err x) k = record { run = λ s e p. tt }
