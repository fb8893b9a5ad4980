-- ===== src/Store/Logic.antt =====
-- Rules for transactions: what holds of the database when a transaction succeeds.
use mathlib.Core.Path.{subst}
use wantmytime.Prelude.{
  Unit0, Bool, true, false, List, [], ◌∷◌, Option, none, some, ◌≡◌, refl, if◌then◌else◌,
}
use wantmytime.Prelude.Time.{Time}
use wantmytime.Store.Schema.{Db}
use wantmytime.Store.Monad.{
  fail, clock, Error, Result, ok, err, Session, Tx, continue, ◌>>=◌, query, select, exec, one_row,
  guard, lift, pure, statement,
}

-- What a finished run has to satisfy: nothing is asked of an error.
abbrev pub Post : {A : Type 0} → (A → Db → Type 0) → Result A × Session → Type 0
Post Q (ok a, s) = Q a s.db
Post Q (err _, s) = Unit

-- From a database with P, a run that succeeds ends with Q, whatever statements fail.
pub record Ensures {A : Type 0} (P : Db → Type 0) (m : Tx A) (Q : A → Db → Type 0) : Type 0 where
  pub run : (s : Session) → P s.db → Post Q (m s)

module _ {A B : Type 0} where
  Post-continue :
      {Q : A → Db → Type 0} {R : B → Db → Type 0} {f : A → Tx B}
      → ((a : A) → Ensures (Q a) (f a) R)
      → (r : Result A × Session) → Post Q r
      → Post R (continue f r)
  Post-continue hf (ok a, s) q = (hf a).run s q
  Post-continue hf (err e, s) q = tt

  pub bind :
      {P : Db → Type 0} {Q : A → Db → Type 0} {R : B → Db → Type 0} {m : Tx A} {f : A → Tx B}
      → Ensures P m Q
      → ((a : A) → Ensures (Q a) (f a) R)
      → Ensures P (m >>= f) R
  bind {Q} {m} hm hf = record { run = λ s p. Post-continue {Q = Q} hf (m s) (hm.run s p) }

module _ {A : Type 0} where
  pub Ensures-query :
      {P : Db → Type 0} {Q : A → Db → Type 0} (f : Time → Db → A × Db)
      → ((t : Time) (d : Db) → P d → Q (f t d).0 (f t d).1)
      → Ensures P (query f) Q
  unfolding query
  Ensures-query {P} {Q} f h = record { run = λ s p. go s p s.faults }
    where
      go : (s : Session) → P s.db → (l : List Bool) → Post Q (statement f s l)
      go s p [] = h s.now s.db p
      go s p (true ∷ l) = tt
      go s p (false ∷ l) = h s.now s.db p

  pub Ensures-select :
      {P : Db → Type 0} {Q : A → Db → Type 0} (f : Time → Db → A)
      → ((t : Time) (d : Db) → P d → Q (f t d) d)
      → Ensures P (select f) Q
  unfolding select
  Ensures-select f h = Ensures-query _ h

  pub Ensures-lift :
      {P : Db → Type 0} {Q : A → Db → Type 0} {r : Result A}
      → ((a : A) (d : Db) → r ≡ ok a → P d → Q a d)
      → Ensures P (lift r) Q
  Ensures-lift {P} {Q} {r} h = record { run = λ s p. go r h s p }
    where
      go :
          (r : Result A)
          → ((a : A) (d : Db) → r ≡ ok a → P d → Q a d)
          → (s : Session) → P s.db
          → Post Q (r, s)
      go (ok a) h s p = h a s.db refl p
      go (err e) h s p = tt

  pub Ensures-pure :
      {P : Db → Type 0} {Q : A → Db → Type 0} {a : A}
      → ((d : Db) → P d → Q a d)
      → Ensures P (pure a) Q
  Ensures-pure h = record { run = λ s p. h s.db p }

  pub Ensures-one_row :
      {P : Db → Type 0} {Q : A → Db → Type 0} {o : Option A}
      → ((a : A) (d : Db) → o ≡ some a → P d → Q a d)
      → Ensures P (one_row o) Q
  Ensures-one_row {P} {Q} {o} h = record { run = λ s p. go o h s p }
    where
      go :
          (o : Option A)
          → ((a : A) (d : Db) → o ≡ some a → P d → Q a d)
          → (s : Session) → P s.db
          → Post Q (one_row o s)
      go none h s p = tt
      go (some a) h s p = h a s.db refl p

pub Ensures-exec :
    {P : Db → Type 0} {Q : Unit0 → Db → Type 0} (f : Time → Db → Db)
    → ((t : Time) (d : Db) → P d → Q tt (f t d))
    → Ensures P (exec f) Q
unfolding exec
Ensures-exec f h = Ensures-query _ h

pub Ensures-guard :
    {P : Db → Type 0} {Q : Unit0 → Db → Type 0} (b : Bool) (e : Error)
    → ((d : Db) → b ≡ true → P d → Q tt d)
    → Ensures P (guard b e) Q
Ensures-guard {P} {Q} b e h = record { run = λ s p. go b h s p }
  where
    go :
        (b : Bool)
        → ((d : Db) → b ≡ true → P d → Q tt d)
        → (s : Session) → P s.db
        → Post Q (guard b e s)
    go true h s p = h s.db refl p
    go false h s p = tt

-- The rule at one run that succeeded.
pub ensured :
    {A : Type 0} {P : Db → Type 0} {Q : A → Db → Type 0} {m : Tx A} {s s' : Session} {a : A}
    → Ensures P m Q
    → P s.db
    → m s ≡ (ok a, s')
    → Q a s'.db
ensured {Q} {s} h p e = subst (Post Q) e (h.run s p)

-- A weaker end.
pub weaken :
    {A : Type 0} {P : Db → Type 0} {Q R : A → Db → Type 0} {m : Tx A}
    → Ensures P m Q
    → ((a : A) (d : Db) → Q a d → R a d)
    → Ensures P m R
weaken {A} {Q} {R} {m} h k = record { run = λ s p. go (m s) (h.run s p) }
  where
    go : (r : Result A × Session) → Post Q r → Post R r
    go (ok a, s) q = k a s.db q
    go (err e, s) q = tt

-- A fact about values, found on the way, serves the steps that follow.
pub given :
    {A : Type 0} {F : Type 0} {P : Db → Type 0} {Q : A → Db → Type 0} {m : Tx A}
    → (F → Ensures P m Q)
    → Ensures (λ d. P d × F) m Q
given h = record { run = λ s p. (h p.1).run s p.0 }

pub conj :
    {A : Type 0} {F : Type 0} {P : Db → Type 0} {Q : A → Db → Type 0} {m : Tx A}
    → F
    → Ensures P m Q
    → Ensures P m (λ a d. Q a d × F)
conj {F} {Q} f h = weaken {R = λ a d. Q a d × F} h (λ a d q. (q, f))

pub Ensures-if :
    {A : Type 0} {P : Db → Type 0} {Q : A → Db → Type 0} {m n : Tx A} (b : Bool)
    → Ensures P m Q
    → Ensures P n Q
    → Ensures P (if b then m else n) Q
Ensures-if true h k = h
Ensures-if false h k = k

-- What holds of both outcomes of a test holds of the one it picks.
pub either : (P : Db → Type 0) (b : Bool) {d e : Db} → P d → P e → P (if b then d else e)
either P true h k = h
either P false h k = k

-- To reason from each database by itself.
pub pointwise :
    {A : Type 0} {P : Db → Type 0} {Q : A → Db → Type 0} {m : Tx A}
    → ((d0 : Db) → P d0 → Ensures (λ d. d ≡ d0) m Q)
    → Ensures P m Q
pointwise h = record { run = λ s p. (h s.db p).run s refl }

-- A stronger start.
pub strengthen :
    {A : Type 0} {P P' : Db → Type 0} {Q : A → Db → Type 0} {m : Tx A}
    → ((d : Db) → P' d → P d)
    → Ensures P m Q
    → Ensures P' m Q
strengthen k h = record { run = λ s p. h.run s (k s.db p) }

pub Ensures-clock : {P : Db → Type 0} → Ensures P clock (λ t. P)
Ensures-clock = record { run = λ s p. p }

pub Ensures-fail :
    {A : Type 0} {P : Db → Type 0} {Q : A → Db → Type 0} {e : Error} → Ensures P (fail {A = A} e) Q
Ensures-fail = record { run = λ s p. tt }

-- Two rules about one transaction.
pub both :
    {A : Type 0} {P P' : Db → Type 0} {Q Q' : A → Db → Type 0} {m : Tx A}
    → Ensures P m Q
    → Ensures P' m Q'
    → Ensures (λ d. P d × P' d) m (λ a d. Q a d × Q' a d)
both {A} {P} {P'} {Q} {Q'} {m} h k = record { run = λ s p. go (m s) (h.run s p.0) (k.run s p.1) }
  where
    go : (r : Result A × Session) → Post Q r → Post Q' r → Post (λ a d. Q a d × Q' a d) r
    go (ok a, s) q q' = (q, q')
    go (err e, s) q q' = tt
