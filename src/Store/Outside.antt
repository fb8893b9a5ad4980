-- ===== src/Store/Outside.antt =====
-- What a worker does between transactions: it calls a provider, whose state is `Outside`.
use wantmytime.Prelude.{Unit0}
use wantmytime.Store.Monad.{Error, Result, ok, err, Session, Tx}

pub record World (Outside : Type 0) : Type 0 where
  pub session : Session
  pub outside : Outside

abbrev pub Job : Type 0 → Type 0 → Type 0
Job Outside A = World Outside → Result A × World Outside

module _ {Outside : Type 0} where
  abbrev pub continue_job :
      {A B : Type 0} → (A → Job Outside B) → Result A × World Outside → Result B × World Outside
  continue_job f (ok a, w) = f a w
  continue_job f (err e, w) = (err e, w)

  infixl 5 ◌>>=◌ ◌>>◌
  abbrev pub ◌>>=◌ : {A B : Type 0} → Job Outside A → (A → Job Outside B) → Job Outside B
  ◌>>=◌ m f w = continue_job f (m w)

  abbrev pub ◌>>◌ : {A B : Type 0} → Job Outside A → Job Outside B → Job Outside B
  m >> k = m >>= λ _. k

  abbrev pub done : {A : Type 0} → A → Job Outside A
  done a w = (ok a, w)

  abbrev pub refuse : {A : Type 0} → Error → Job Outside A
  refuse e w = (err e, w)

  -- Statements and transactions.
  abbrev pub tx : {A : Type 0} → Tx A → Job Outside A
  tx m w = ((m w.session).0, record w { session = (m w.session).1 })

  abbrev pub call : {A : Type 0} → (Outside → A × Outside) → Job Outside A
  call f w = (ok (f w.outside).0, record w { outside = (f w.outside).1 })

  -- An error is logged and dropped.
  abbrev pub logged : {A : Type 0} → Job Outside A → Job Outside Unit0
  logged m w = (ok tt, (m w).1)
