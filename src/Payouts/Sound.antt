-- ===== src/Payouts/Sound.antt =====
-- What holds of every payout, in each of its states (payouts.go and the table seller_payouts).
use Prim.Native.Nat.{◌≤◌, ◌<◌}
use wantmytime.Prelude.{ℕ, ◌^◌, ◌≡◌, refl, ◌∙◌, sym, true, String, Option, none, some, List, ap}
use wantmytime.Prelude.Int64.{ℤ, pos}
use wantmytime.Prelude.Tables.{All}
use wantmytime.Prelude.Time.{Time}
use wantmytime.Store.Schema.{
  Db, PayoutState, scheduled, processing, paid, payout_failed, cancelled, SellerPayout,
  SellerPayoutAccount, LedgerEntry, Refund,
}
use wantmytime.Payouts.{PayoutTransfer, is_processing, paid_payout}
use wantmytime.Payouts.Reference.{payout_reference}
use wantmytime.Payouts.Release.{cancelled_payout, released_payout}
use wantmytime.Payouts.Status.{failed_payout}
use wantmytime.Payouts.Reversal.{is_paid}
use wantmytime.Payouts.Retry.{is_failed, retried_payout}

-- The booking and the entitlement that each payout was made for, by its id.
abbrev pub Book : Type 0
Book = String → String × ℤ

-- Every entitlement is a number from 0 to 2^63 - 1.
abbrev pub BookFits : Book → Type 0
BookFits book = (id : String) → (e : ℕ) × ((book id).1 ≡ pos e) × (e < 2 ^ 63)

-- A fixed amount: more than nothing, not more than the entitlement e, with a recovery within it.
abbrev pub AmountIsFixed : ℤ → Option ℤ → ℤ → Type 0
AmountIsFixed entitlement amount recovery =
    (a : ℕ) × ((r : ℕ) × (amount ≡ some (pos a))
      × (recovery ≡ pos r)
      × (0 < a)
      × (r ≤ a)
      × ((e : ℕ) × (entitlement ≡ pos e) × (a ≤ e)))

-- What a payout's amount is in each state.
abbrev pub AmountsOf : PayoutState → ℤ → Option ℤ → ℤ → Type 0
AmountsOf scheduled e amount recovery = amount ≡ none
AmountsOf cancelled e amount recovery = amount ≡ some (pos 0)
AmountsOf processing e amount recovery = AmountIsFixed e amount recovery
AmountsOf paid e amount recovery = AmountIsFixed e amount recovery
AmountsOf payout_failed e amount recovery = AmountIsFixed e amount recovery

pub record IsSound (book : Book) (p : SellerPayout) : Type 0 where
  pub booked : p.booking_id ≡ (book p.id).0
  pub entitled : p.entitlement_minor ≡ (book p.id).1
  pub referenced : p.reference ≡ payout_reference p.booking_id p.generation
  pub amounts : AmountsOf p.state (book p.id).1 p.amount_minor p.recovery_minor

-- Refunds take no negative share, as the check of their table says.
abbrev pub SharesArePositive : List Refund → Type 0
SharesArePositive rs = All (λ (r : Refund). (n : ℕ) × (r.seller_share_minor ≡ pos n)) rs

abbrev pub TablesAreSound : Book → List LedgerEntry → List SellerPayout → List Refund → Type 0
TablesAreSound book es ps rs = All (IsSound book) ps × SharesArePositive rs

-- Every payout is sound, and no refund takes a negative share.
abbrev pub PayoutsAreSound : Book → Db → Type 0
PayoutsAreSound book d = TablesAreSound book d.ledger_entries d.seller_payouts d.refunds

processing_amounts :
    (s : PayoutState) (e : ℤ) (amount : Option ℤ) (recovery : ℤ)
    → is_processing s ≡ true
    → AmountsOf s e amount recovery
    → AmountIsFixed e amount recovery
processing_amounts processing e amount recovery h a = a
processing_amounts scheduled e amount recovery h a = absurd (cc)
processing_amounts paid e amount recovery h a = absurd (cc)
processing_amounts payout_failed e amount recovery h a = absurd (cc)
processing_amounts cancelled e amount recovery h a = absurd (cc)

paid_amounts :
    (s : PayoutState) (e : ℤ) (amount : Option ℤ) (recovery : ℤ)
    → is_paid s ≡ true
    → AmountsOf s e amount recovery
    → AmountIsFixed e amount recovery
paid_amounts paid e amount recovery h a = a
paid_amounts scheduled e amount recovery h a = absurd (cc)
paid_amounts processing e amount recovery h a = absurd (cc)
paid_amounts payout_failed e amount recovery h a = absurd (cc)
paid_amounts cancelled e amount recovery h a = absurd (cc)

failed_amounts :
    (s : PayoutState) (e : ℤ) (amount : Option ℤ) (recovery : ℤ)
    → is_failed s ≡ true
    → AmountsOf s e amount recovery
    → AmountIsFixed e amount recovery
failed_amounts payout_failed e amount recovery h a = a
failed_amounts scheduled e amount recovery h a = absurd (cc)
failed_amounts processing e amount recovery h a = absurd (cc)
failed_amounts paid e amount recovery h a = absurd (cc)
failed_amounts cancelled e amount recovery h a = absurd (cc)

module _ (book : Book) where
  pub paid_payout-IsSound :
      (t : PayoutTransfer) (now : Time) (p : SellerPayout)
      → is_processing p.state ≡ true
      → IsSound book p
      → IsSound book (paid_payout t now p)
  paid_payout-IsSound t now p e h = record {
    booked = h.booked;
    entitled = h.entitled;
    referenced = h.referenced;
    amounts = processing_amounts p.state _ _ _ e h.amounts;
  }

  pub failed_payout-IsSound :
      (message : String) (t : Time) (p : SellerPayout)
      → is_processing p.state ≡ true
      → IsSound book p
      → IsSound book (failed_payout message t p)
  failed_payout-IsSound message t p e h = record {
    booked = h.booked;
    entitled = h.entitled;
    referenced = h.referenced;
    amounts = processing_amounts p.state _ _ _ e h.amounts;
  }

  pub returned_payout-IsSound :
      (message : String) (t : Time) (p : SellerPayout)
      → is_paid p.state ≡ true
      → IsSound book p
      → IsSound book (failed_payout message t p)
  returned_payout-IsSound message t p e h = record {
    booked = h.booked;
    entitled = h.entitled;
    referenced = h.referenced;
    amounts = paid_amounts p.state _ _ _ e h.amounts;
  }

  pub cancelled_payout-IsSound :
      (t : Time) (p : SellerPayout) → IsSound book p → IsSound book (cancelled_payout t p)
  cancelled_payout-IsSound t p h = record {
    booked = h.booked;
    entitled = h.entitled;
    referenced = h.referenced;
    amounts = refl;
  }

  pub released_payout-IsSound :
      (a : SellerPayoutAccount) (amount recovery : ℤ) (t : Time) (p : SellerPayout)
      → AmountIsFixed (book p.id).1 (some amount) recovery
      → IsSound book p
      → IsSound book (released_payout a amount recovery t p)
  released_payout-IsSound a amount recovery t p fixed h = record {
    booked = h.booked;
    entitled = h.entitled;
    referenced = h.referenced;
    amounts = fixed;
  }

  pub retried_payout-IsSound :
      (a : SellerPayoutAccount) (generation : ℤ) (booking_id : String) (t : Time) (p : SellerPayout)
      → is_failed p.state ≡ true
      → (book p.id).0 ≡ booking_id
      → IsSound book p
      → IsSound book (retried_payout a generation (payout_reference booking_id generation) t p)
  retried_payout-IsSound a generation booking_id t p e same h = record {
    booked = h.booked;
    entitled = h.entitled;
    referenced = ap (λ b. payout_reference b generation) (sym (h.booked ∙ same));
    amounts = failed_amounts p.state _ _ _ e h.amounts;
  }
