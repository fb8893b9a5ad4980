-- ===== src/Store/Monad.antt =====
-- A transaction: it reads and changes the database, and each of its statements may fail. What fails
-- is given beforehand by a schedule, so a theorem over every schedule covers every failure.
use wantmytime.Prelude.{String, Unit0, Option, none, some, List, [], ◌∷◌, Bool, true, false}
use wantmytime.Prelude.Int64.{ℤ}
use wantmytime.Prelude.Time.{Time}
use wantmytime.Store.Schema.{Db}

-- The errors of the Go code, the answers of its handlers that refuse included: `no_rows` is pgx.ErrNoRows, `unique_violation` PostgreSQL's 23505, and
-- `database_error` any other failure of a statement.
pub data Error : Type 0 where
  database_error no_rows unique_violation : Error
  invalid_journal_identity invalid_ledger_entry ledger_total_overflow invalid_ledger_side : Error
  unbalanced_journal : ℤ → ℤ → Error
  source_identity_reused no_verified_payment : Error
  invalid_cancellation refund_changed invalid_refund refund_too_large reason_required : Error
  automatic_refunds_off refund_state_changed : Error
  cancellation_unavailable : String → Error
  invalid_availability invalid_timezone overlapping_windows profile_not_found : Error
  exclusion_violation missing_snapshot invalid_snapshot offer_changed : Error
  invalid_override date_out_of_range : Error
  payout_not_retryable payout_account_required payouts_unavailable provider_unreachable : Error
  seller_required invalid_account invalid_bank account_not_found account_name_required : Error

pub data Result (A : Type 0) : Type 0 where
  ok : A → Result A
  err : Error → Result A

-- The connection: the database, which of the coming statements fail (`true`; none once the list is
-- empty), and now().
pub record Session : Type 0 where
  pub db : Db
  pub faults : List Bool
  pub now : Time

abbrev pub Tx : Type 0 → Type 0
Tx A = Session → Result A × Session

abbrev pub pure : {A : Type 0} → A → Tx A
pure a s = (ok a, s)

abbrev pub fail : {A : Type 0} → Error → Tx A
fail e s = (err e, s)

-- time.Now() and now(), one clock that stands still during a transaction.
abbrev pub clock : Tx Time
clock s = (ok s.now, s)

-- A computation that does not use the database.
abbrev pub lift : {A : Type 0} → Result A → Tx A
lift r s = (r, s)

-- What follows a finished run: the next step, or the error.
abbrev pub continue : {A B : Type 0} → (A → Tx B) → Result A × Session → Result B × Session
continue f (ok a, s) = f a s
continue f (err e, s) = (err e, s)

infixl 5 ◌>>=◌ ◌>>◌
abbrev pub ◌>>=◌ : {A B : Type 0} → Tx A → (A → Tx B) → Tx B
◌>>=◌ m f s = continue f (m s)

abbrev pub ◌>>◌ : {A B : Type 0} → Tx A → Tx B → Tx B
m >> k = m >>= λ _. k

abbrev pub guard : Bool → Error → Tx Unit0
guard true e = pure tt
guard false e = fail e

-- One statement. It fails if the schedule says so, and then changes nothing.
abbrev pub statement :
    {A : Type 0} → (Time → Db → A × Db) → Session → List Bool → Result A × Session
statement f s [] = let (a, d) = f s.now s.db in (ok a, record s { db = d })
statement f s (true ∷ rest) = (err database_error, record s { faults = rest })
statement f s (false ∷ rest) =
    let (a, d) = f s.now s.db in (ok a, record s { db = d; faults = rest })

unfoldable pub query : {A : Type 0} → (Time → Db → A × Db) → Tx A
query f s = statement f s s.faults

unfoldable pub select : {A : Type 0} → (Time → Db → A) → Tx A
unfolding query
select f = query (λ t d. (f t d, d))

unfoldable pub exec : (Time → Db → Db) → Tx Unit0
unfolding query
exec f = query (λ t d. (tt, f t d))

-- A statement that a constraint of the table may refuse; it changes nothing then.
unfoldable pub try_query : {A : Type 0} → (Time → Db → Result A × Db) → Tx A
unfolding query
try_query f = query f >>= lift

-- Scanning one row: pgx.ErrNoRows if there is none.
abbrev pub one_row : {A : Type 0} → Option A → Tx A
one_row none = fail no_rows
one_row (some a) = pure a

-- Begin, the body, and commit; an error in the body or in the commit rolls back.
unfoldable pub commit : {A : Type 0} → Db → A → Session → List Bool → Result A × Session
commit before a s [] = (ok a, s)
commit before a s (true ∷ rest) = (err database_error, record s { db = before; faults = rest })
commit before a s (false ∷ rest) = (ok a, record s { faults = rest })

unfoldable pub finish : {A : Type 0} → Db → Result A × Session → Result A × Session
unfolding commit
finish before (ok a, s) = commit before a s s.faults
finish before (err e, s) = (err e, record s { db = before })

unfoldable pub in_transaction : {A : Type 0} → Tx A → Tx A
unfolding query finish
in_transaction m s = (query (λ t d. (tt, d)) >>= λ _ s'. finish s'.db (m s')) s
