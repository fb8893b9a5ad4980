-- ===== src/Refunds/Recovery.antt =====
-- What a seller owes for refunds that were paid out of the platform's money, and how a payout
-- repays it: refunds.go, applyRecovery, and payouts.go, takeRecovery.
use wantmytime.Prelude.{Bool, ◌&&◌, ◌||◌, String, str_eq, List, [], ◌∷◌, Unit0, if◌then◌else◌}
use wantmytime.Prelude.Int64.{
  ℤ, pos, ltb_ℤ, leb_ℤ, min_ℤ, ◌+ℤ◌, ◌-ℤ◌, add64, sub64, mul64, div64, rem64,
}
use wantmytime.Store.Schema.{Db, SellerRecovery}
use wantmytime.Store.Monad.{
  Result, ok, err, database_error, Tx, ◌>>=◌, ◌>>◌, pure, lift, select, try_query,
}
use wantmytime.Refunds.Statements.{any, update_where}

-- LockOpenRecoveriesRow
pub record OpenRecovery : Type 0 where
  pub id : String
  pub outstanding : ℤ

abbrev pub is_owed : String → SellerRecovery → Bool
is_owed seller_id r = str_eq r.seller_id seller_id && ltb_ℤ r.recovered_minor r.amount_minor

abbrev pub open_rows : String → List SellerRecovery → List OpenRecovery
open_rows seller_id [] = []
open_rows seller_id (r ∷ rs) =
    let rest = open_rows seller_id rs in
    if is_owed seller_id r
    then record { id = r.id; outstanding = r.amount_minor -ℤ r.recovered_minor } ∷ rest
    else rest

-- The scan of `outstanding` into an int32, which fails on a larger value.
abbrev pub scan_open : List OpenRecovery → Result (List OpenRecovery)
scan_open [] = ok []
scan_open (r ∷ rs) = elim (scan_open rs) [
  | err e ↦ err e
  | ok scanned ↦
      if ltb_ℤ (pos 2_147_483_647) r.outstanding then err database_error else ok (r ∷ scanned)
]

unfoldable pub lock_open_recoveries : String → Tx (List OpenRecovery)
lock_open_recoveries seller_id = do
  rows ← select (λ t d. open_rows seller_id d.seller_recoveries)
  lift (scan_open rows)

abbrev credited : ℤ → SellerRecovery → SellerRecovery
credited amount r = record r { recovered_minor = r.recovered_minor +ℤ amount }

-- The check constraint recovered_minor >= 0 AND recovered_minor <= amount_minor.
abbrev breaks_check : SellerRecovery → Bool
breaks_check r = ltb_ℤ r.recovered_minor (pos 0) || ltb_ℤ r.amount_minor r.recovered_minor

abbrev pub add_recovered_row : ℤ → String → Db → Result Unit0 × Db
add_recovered_row amount id d =
    if any (λ r. str_eq r.id id && breaks_check (credited amount r)) d.seller_recoveries
    then (err database_error, d)
    else (
      ok tt,
      record d {
        seller_recoveries =
            update_where (λ r. str_eq r.id id) (credited amount) d.seller_recoveries;
      },
    )

-- The statement ApplyRecovery.
unfoldable pub add_recovered : ℤ → String → Tx Unit0
add_recovered amount id = try_query (λ t. add_recovered_row amount id)

-- The loop over the open recoveries.
unfoldable pub repay : List OpenRecovery → ℤ → Tx Unit0
repay [] amount = pure tt
repay (row ∷ rows) amount = if leb_ℤ amount (pos 0) then pure tt else do
  let take = min_ℤ amount row.outstanding
  add_recovered take row.id
  repay rows (sub64 amount take)

unfoldable pub apply_recovery : String → ℤ → Tx Unit0
apply_recovery seller_id amount =
    if leb_ℤ amount (pos 0)
    then pure tt
    else do rows ← lock_open_recoveries seller_id; repay rows amount

abbrev pub owed_total : List OpenRecovery → ℤ → ℤ
owed_total [] owed = owed
owed_total (r ∷ rs) owed = owed_total rs (add64 owed r.outstanding)

-- The share of a payout that may go to earlier refunds.
unfoldable pub recovery_limit : ℤ → ℤ → ℤ
recovery_limit max_bps amount =
    add64 (mul64 (div64 amount (pos 10000)) max_bps)
      (div64 (mul64 (rem64 amount (pos 10000)) max_bps) (pos 10000))

-- What is taken: nothing where nothing is rows.
unfoldable pub recovery_take : ℤ → List OpenRecovery → ℤ → ℤ
recovery_take max_bps [] amount = pos 0
recovery_take max_bps (r ∷ rs) amount =
    let take = min_ℤ (owed_total (r ∷ rs) (pos 0)) (recovery_limit max_bps amount) in
    if leb_ℤ take (pos 0) then pos 0 else take

-- `max_bps` is what recovery_max_bps says.
unfoldable pub take_recovery : ℤ → String → ℤ → Tx ℤ
take_recovery max_bps seller_id amount = do
  rows ← lock_open_recoveries seller_id
  let take = recovery_take max_bps rows amount
  if leb_ℤ take (pos 0) then pure (pos 0) else do apply_recovery seller_id take; pure take
