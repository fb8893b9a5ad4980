-- ===== src/Payouts/Reasons.antt =====
-- Why a payout is held back, in the words of the tables, and what is taken back from it (payouts.go,
-- payoutHoldSQL, payoutReleaseAtSQL and releasePayout).
use wantmytime.Prelude.{
  ℕ, ◌+◌, ◌*◌, ◌≤◌, ◌≡◌, refl, ◌⊎◌, inl, inr, Bool, true, false, String, str_eq, eq_iff, eq_refl,
  Option, none, some, List, [], ◌∷◌, find, Bool-cases, arith, leb, ap,
}
use wantmytime.Prelude.Int64.{pos}
use wantmytime.Prelude.Tables.{any, Some}
use wantmytime.Prelude.Time.{Time, minute}
use wantmytime.Store.Schema.{Db, Booking, SellerPayout, NoShowReport, Refund, RefundState, failed}
use wantmytime.Refunds.Statements.{has_state, text_or_empty}
use wantmytime.Refunds.Refusal.{is_failed_state}
use wantmytime.Payouts.Hold.{
  is_set, is_missing, by_buyer, is_open_or_disputed, has_problem, reports_seller, is_unfinished,
  payout_hold, payout_release_at, find_hold,
}
use wantmytime.Payouts.Release.{takes_from, refunded_sum}

-- A problem that the buyer reported, or nobody in particular, and that is not resolved.
abbrev pub HasOpenProblem : Booking → Type 0
HasOpenProblem b =
    (reason : String) × (b.issue_reason ≡ some reason)
    × (b.issue_resolved_at ≡ none)
    × ((b.issue_reported_by ≡ none) ⊎ (b.issue_reported_by ≡ some "buyer"))

-- An open or disputed report that the seller of the booking did not appear.
abbrev pub IsOpenReport : String → NoShowReport → Type 0
IsOpenReport booking_id r =
    (r.booking_id ≡ booking_id)
    × (r.absent_role ≡ "seller")
    × ((r.state ≡ "open") ⊎ (r.state ≡ "disputed"))

-- A refund of the booking that failed, and that the payout bears.
abbrev pub IsFailedRefund : String → Refund → Type 0
IsFailedRefund booking_id r =
    (text_or_empty r.booking_id ≡ booking_id)
    × (r.state ≡ failed)
    × (r.seller_liability ≡ "payable")

abbrev pub HasReason : Db → Booking → Type 0
HasReason d b =
    HasOpenProblem b
    ⊎ (Some (IsOpenReport b.id) d.no_show_reports ⊎ Some (IsFailedRefund b.id) d.refunds)

Some→any :
    {A : Type 0} (P : A → Type 0) (q : A → Bool) (l : List A)
    → ((x : A) → P x → q x ≡ true)
    → Some P l
    → any q l ≡ true
Some→any P q [] f h = absurd h
Some→any P q (x ∷ l) f (inl p) = rw (f x p) refl
Some→any P q (x ∷ l) f (inr h) = ground (arith, Some→any P q l f h)

any→Some :
    {A : Type 0} (P : A → Type 0) (q : A → Bool) (l : List A)
    → ((x : A) → q x ≡ true → P x)
    → any q l ≡ true
    → Some P l
any→Some P q [] f h = absurd (cc)
any→Some P q (x ∷ l) f h = elim (Bool-cases (q x)) [
  | inl e ↦ inl (f x e)
  | inr e ↦ inr (any→Some P q l f (ground (arith, h, e)))
]

report_counts : (id : String) (r : NoShowReport) → IsOpenReport id r → reports_seller id r ≡ true
report_counts id r (named, seller, inl opened) = rw (named, seller, opened) (rw (eq_refl id) refl)
report_counts id r (named, seller, inr disputed) =
    rw (named, seller, disputed) (rw (eq_refl id) refl)

refund_counts : (id : String) (r : Refund) → IsFailedRefund id r → is_unfinished id r ≡ true
refund_counts id r (named, state, borne) = rw (named, state, borne) (rw (eq_refl id) refl)

problem_counts : (b : Booking) → HasOpenProblem b → has_problem b ≡ true
problem_counts b (reason, given, unsolved, inl nobody) = rw (given, unsolved, nobody) refl
problem_counts b (reason, given, unsolved, inr buyer) = rw (given, unsolved, buyer) refl

-- A reason holds the payout back.
pub held_for_reason : (d : Db) (b : Booking) → HasReason d b → str_eq (payout_hold d b) "" ≡ false
unfolding payout_hold
held_for_reason d b (inl problem) = rw (problem_counts b problem) refl
held_for_reason d b (inr (inl report)) =
    let reported = Some→any _ (reports_seller b.id) d.no_show_reports (report_counts b.id) report in
    elim (Bool-cases (has_problem b)) [ inl e ↦ rw e refl | inr e ↦ rw (e, reported) refl ]
held_for_reason d b (inr (inr refund)) =
    let unfinished = Some→any _ (is_unfinished b.id) d.refunds (refund_counts b.id) refund in
    elim (Bool-cases (has_problem b)) [
      | inl e ↦ rw e refl
      | inr e ↦ elim (Bool-cases (any (reports_seller b.id) d.no_show_reports)) [
        | inl f ↦ rw (e, f) refl
        | inr f ↦ rw (e, f, unfinished) refl
      ]
    ]

is_given-some : (o : Option String) → is_set o ≡ true → (x : String) × (o ≡ some x)
is_given-some none h = absurd (cc)
is_given-some (some x) h = (x, refl)

is_missing-none : (o : Option Time) → is_missing o ≡ true → o ≡ none
is_missing-none none h = refl
is_missing-none (some x) h = absurd (cc)

by_buyer_cases : (o : Option String) → by_buyer o ≡ true → (o ≡ none) ⊎ (o ≡ some "buyer")
by_buyer_cases none h = inl refl
by_buyer_cases (some role) h = inr (ap some ((eq_iff role "buyer").0 h))

state_cases : (s : String) → is_open_or_disputed s ≡ true → (s ≡ "open") ⊎ (s ≡ "disputed")
state_cases s h = elim (Bool-cases (str_eq s "open")) [
  | inl e ↦ inl ((eq_iff s "open").0 e)
  | inr e ↦ inr ((eq_iff s "disputed").0 (ground (arith, h, e)))
]

problem_found : (b : Booking) → has_problem b ≡ true → HasOpenProblem b
problem_found b h =
    let (reason, given) = is_given-some b.issue_reason (ground (arith, h)) in
    (
      reason,
      given,
      is_missing-none b.issue_resolved_at (ground (arith, h)),
      by_buyer_cases b.issue_reported_by (ground (arith, h)),
    )

report_found : (id : String) (r : NoShowReport) → reports_seller id r ≡ true → IsOpenReport id r
report_found id r h = (
  (eq_iff r.booking_id id).0 (ground (arith, h)),
  (eq_iff r.absent_role "seller").0 (ground (arith, h)),
  state_cases r.state (ground (arith, h)),
)

refund_found : (id : String) (r : Refund) → is_unfinished id r ≡ true → IsFailedRefund id r
refund_found id r h = (
  (eq_iff (text_or_empty r.booking_id) id).0 (ground (arith, h)),
  is_failed_state r.state (ground (arith, h)),
  (eq_iff r.seller_liability "payable").0 (ground (arith, h)),
)

not_so : (b : Bool) → (b ≡ true → ⊥) → b ≡ false
not_so true h = absurd (h refl)
not_so false h = refl

-- Without a reason nothing holds it back.
pub not_held : (d : Db) (b : Booking) → (HasReason d b → ⊥) → payout_hold d b ≡ ""
unfolding payout_hold
not_held d b h =
    let no_problem = not_so (has_problem b) (λ e. h (inl (problem_found b e))) in
    let no_report = not_so (any (reports_seller b.id) d.no_show_reports) (λ e.
      h (inr (inl (any→Some (IsOpenReport b.id) _ d.no_show_reports (report_found b.id) e)))) in
    let no_refund =
      not_so (any (is_unfinished b.id) d.refunds)
        (λ e. h (inr (inr (any→Some (IsFailedRefund b.id) _ d.refunds (refund_found b.id) e)))) in
    rw (no_problem, no_report, no_refund) refl

-- The booking ended the delay ago, and the buyer's money is there.
abbrev pub IsDueAt : ℕ → Booking → SellerPayout → Time → Type 0
IsDueAt delay b p t =
    (m : ℕ) × (b.duration_minutes ≡ pos m)
    × (b.starts_at + (m + delay) * minute ≤ t)
    × (p.funds_available_at ≤ t)

due_at-release :
    (delay : ℕ) (b : Booking) (p : SellerPayout) (t : Time)
    → IsDueAt delay b p t
    → leb (payout_release_at delay b p) t ≡ true
unfolding payout_release_at
due_at-release delay b p t (m, long, ended, funded) = ground (arith, long, ended, funded)

-- The hold that the handler reads, where the booking and its payout are in the tables.
pub find_hold-due :
    (delay : ℕ) (t : Time) (d : Db) (p : SellerPayout) (b : Booking)
    → find (λ (x : Booking). str_eq x.id p.booking_id) d.bookings ≡ some b
    → find (λ (x : SellerPayout). str_eq x.booking_id b.id) d.seller_payouts ≡ some p
    → (HasReason d b → ⊥)
    → IsDueAt delay b p t
    → find_hold delay p.booking_id t d ≡ some ("", true)
unfolding find_hold
find_hold-due delay t d p b booked paid free due =
    rw (find_hold, booked) (rw paid (rw (not_held d b free, due_at-release delay b p t due) refl))

-- A refund that the payout bears, and that did not fail.
abbrev pub IsBorne : String → Refund → Type 0
IsBorne booking_id r =
    (text_or_empty r.booking_id ≡ booking_id)
    × (r.seller_liability ≡ "payable")
    × (r.state ≡ failed → ⊥)

-- What such refunds take from the seller adds up to r.
abbrev pub TakesInAll : String → List Refund → ℕ → Type 0
TakesInAll booking_id [] r = r ≡ 0
TakesInAll booking_id (x ∷ l) r =
    (IsBorne booking_id x
      × ((n : ℕ) × (m : ℕ) × (x.seller_share_minor ≡ pos n)
          × (r ≡ n + m)
          × TakesInAll booking_id l m))
    ⊎ ((IsBorne booking_id x → ⊥) × TakesInAll booking_id l r)

IsBorne-takes_from : (id : String) (x : Refund) → IsBorne id x → takes_from id x ≡ true
IsBorne-takes_from id x (named, borne, standing) =
    let stands = not_so (has_state x.state failed) (λ e. standing (is_failed_state x.state e)) in
    rw (named, borne, stands) (rw (eq_refl id) refl)

failed_number : (s : RefundState) → s ≡ failed → has_state s failed ≡ true
failed_number s h = rw h refl

takes_from-IsBorne : (id : String) (x : Refund) → takes_from id x ≡ true → IsBorne id x
takes_from-IsBorne id x h = (
  (eq_iff (text_or_empty x.booking_id) id).0 (ground (arith, h)),
  (eq_iff x.seller_liability "payable").0 (ground (arith, h)),
  λ e. absurd (ground (arith, h, failed_number x.state e)),
)

pub refunded_sum-total :
    (id : String) (l : List Refund) (r : ℕ) → TakesInAll id l r → refunded_sum id l ≡ pos r
refunded_sum-total id [] r h = rw h refl
refunded_sum-total id (x ∷ l) r (inl (borne, (n, m, share, total, rest))) =
    rw (IsBorne-takes_from id x borne, share, refunded_sum-total id l m rest, total) (ground arith)
refunded_sum-total id (x ∷ l) r (inr (other, rest)) =
    let passed = not_so (takes_from id x) (λ e. other (takes_from-IsBorne id x e)) in
    rw passed (refunded_sum-total id l r rest)
