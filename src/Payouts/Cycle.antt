-- ===== src/Payouts/Cycle.antt =====
-- Every sequence of runs of the payouts' worker and of the check for reversals (payouts.go) and of
-- koraWebhook (checkout.go), with time that passes, a database that fails, and Kora that moves on
-- between two of them.
use wantmytime.Prelude.{◌≡◌, sym, Bool, String, List}
use mathlib.Core.Path.{subst}
use wantmytime.Prelude.Time.{Time}
use wantmytime.Store.Outside.{World}
use wantmytime.Ledger.Posting.{LedgerIsBalanced}
use wantmytime.Payouts.Provider.{KoraApi}
use wantmytime.Payouts.Send.{SendDesk}
use wantmytime.Payouts.Event.{kora_webhook}
use wantmytime.Payouts.Reversal.{check_payout_reversal}
use wantmytime.Payouts.Worker.{process_payouts}
use wantmytime.Payouts.Once.{
  Disbursements, KoraLaws, AreOnce, process_payouts-KeepsOnce, check_payout_reversal-KeepsOnce,
  kora_webhook-KeepsOnce,
}
use wantmytime.Payouts.Sound.{Book, BookFits, PayoutsAreSound}
use wantmytime.Payouts.Runs.{
  process_payouts-JobKeeps, check_payout_reversal-JobKeeps, kora_webhook-JobKeeps,
}

module _ {Bank : Type 0} (kora : KoraApi Bank) (disbursed : Bank → Disbursements)
    (desk : SendDesk) where
  pub data Step (w : World Bank) : World Bank → Type 0 where
    -- processPayouts, from the worker's schedule
    work : (on client : Bool) → Step w (process_payouts kora desk on client w).1
    -- a notice of Kora's, of any kind, through koraWebhook
    event :
        (client : Bool) (kind reference : String)
        → Step w (kora_webhook kora desk.payouts client kind reference w).1
    -- checkPayoutReversal, by itself
    reversal :
        (client : Bool) (reference : String)
        → Step w (check_payout_reversal kora desk.payouts client reference w).1
    -- the clock, and which of the coming statements fail
    wait :
        (now : Time) (faults : List Bool)
        → Step w (record w { session = record w.session { now = now; faults = faults } })
    -- Kora processes what it has taken on.
    settle : (b : Bank) → disbursed b ≡ disbursed w.outside → Step w (record w { outside = b })

  pub data Reach (w : World Bank) : World Bank → Type 0 where
    here : Reach w w
    next : {u v : World Bank} → Reach w u → Step u v → Reach w v

  -- The ledger is balanced, every payout is sound, and no reference was paid out twice.
  abbrev pub IsGood : Book → World Bank → Type 0
  IsGood book w =
      (LedgerIsBalanced w.session.db × PayoutsAreSound book w.session.db)
      × AreOnce (disbursed w.outside)

  module _ (laws : KoraLaws kora disbursed) (book : Book) (fits : BookFits book) where
    Step-IsGood : {u v : World Bank} → Step u v → IsGood book u → IsGood book v
    Step-IsGood {u} (work on client) (h, once) = (
      process_payouts-JobKeeps kora book fits desk on client u h,
      process_payouts-KeepsOnce kora disbursed laws desk on client u once,
    )
    Step-IsGood {u} (reversal client reference) (h, once) = (
      check_payout_reversal-JobKeeps kora book fits desk client reference u h,
      check_payout_reversal-KeepsOnce kora disbursed laws desk client reference u once,
    )
    Step-IsGood {u} (event client kind reference) (h, once) = (
      kora_webhook-JobKeeps kora book fits desk client kind reference u h,
      kora_webhook-KeepsOnce kora disbursed laws desk client kind reference u once,
    )
    Step-IsGood (wait now faults) h = h
    Step-IsGood (settle b same) (h, once) = (h, subst AreOnce (sym same) once)

    -- In every sequence of runs of the payouts' worker, notices that koraWebhook takes and checks for a
    -- reversal, with any passing of time, any failing statements and any progress at Kora's between
    -- them: the ledger stays balanced, every payout stays sound, and no reference is paid out twice,
    -- if Kora keeps its laws and every entitlement is an int64 that is not negative. No step is the
    -- verification of a charge, the worker of refunds, a cancellation or an operator's action. Sound
    -- means: the payout has the booking and the entitlement that it was made with, its reference is
    -- the one of its generation, it has no amount while it is scheduled, the amount 0 if it is
    -- cancelled, and else an amount above 0 and not above its entitlement, with a recovery that is not
    -- above the amount.
    pub Reach-IsGood : {w v : World Bank} → Reach w v → IsGood book w → IsGood book v
    Reach-IsGood here h = h
    Reach-IsGood (next r s) h = Step-IsGood s (Reach-IsGood r h)
