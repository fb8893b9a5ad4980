-- ===== src/Refunds/Queue.antt =====
-- refunds.sql.go, ClaimDueRefunds: a worker takes the refunds that are due.
use Prim.Native.String.{compare as compare_text}
use Prim.Native.Nat.{Ordering}
use wantmytime.Prelude.{
  ℕ, zero, suc, ◌+◌, ◌*◌, ◌≤◌, ◌≡◌, refl, ap, Bool, true, false, ◌&&◌, ◌||◌, String, str_eq, Option,
  none, some, List, [], ◌∷◌, find, map, length, ltb, leb, ◌==◌, arith, if◌then◌else◌,
}
use wantmytime.Prelude.Int64.{pos, add64}
use wantmytime.Prelude.Time.{Time, minute}
use wantmytime.Store.Schema.{Db, Refund, PaymentAttempt}
use wantmytime.Store.Monad.{Tx, query}
use wantmytime.Refunds.Statements.{update_where, any, is_open, text_or_empty}
use wantmytime.Refunds.Worker.{ClaimedRefund}

abbrev pub is_due : Time → Refund → Bool
is_due t r = is_open r && leb r.next_attempt_at t

abbrev is_before : Ordering → Bool
is_before Ordering.lt = true
is_before Ordering.eq = false
is_before Ordering.gt = false

-- ORDER BY next_attempt_at, id
abbrev goes_first : Refund → Refund → Bool
goes_first a b =
    ltb a.next_attempt_at b.next_attempt_at
    || (a.next_attempt_at == b.next_attempt_at && is_before (compare_text a.id b.id))

abbrev insert_due : Refund → List Refund → List Refund
insert_due r [] = r ∷ []
insert_due r (x ∷ xs) =
    let rest = insert_due r xs in if goes_first r x then r ∷ x ∷ xs else x ∷ rest

abbrev sorted_due : Time → List Refund → List Refund
sorted_due t [] = []
sorted_due t (r ∷ rs) = let rest = sorted_due t rs in if is_due t r then insert_due r rest else rest

-- LIMIT n
abbrev limit_to : ℕ → List Refund → List Refund
limit_to zero rs = []
limit_to (suc n) [] = []
limit_to (suc n) (r ∷ rs) = r ∷ limit_to n rs

abbrev pub due_refunds : ℕ → Time → List Refund → List Refund
due_refunds n t rs = limit_to n (sorted_due t rs)

abbrev pub is_among : List Refund → Refund → Bool
is_among due r = any (λ x. str_eq x.id r.id) due

abbrev postponed : Time → Refund → Refund
postponed t r = record r { next_attempt_at = t + 5 * minute; attempts = add64 r.attempts (pos 1) }

abbrev reference_of : Option PaymentAttempt → String
reference_of none = ""
reference_of (some a) = a.merchant_reference

-- The columns of the result that advanceRefund reads.
abbrev claimed : Db → Time → Refund → ClaimedRefund
claimed d t r = record {
  id = r.id;
  state = r.state;
  attempts = (postponed t r).attempts;
  amount_minor = r.amount_minor;
  reference = reference_of (
      find (λ (a : PaymentAttempt). str_eq a.id (text_or_empty r.payment_attempt_id))
        d.payment_attempts);
}

unfoldable pub claim_due_rows : ℕ → Time → Db → List ClaimedRefund × Db
claim_due_rows batch_size t d =
    let due = due_refunds batch_size t d.refunds in
    (
      map (claimed d t) due,
      record d { refunds = update_where (is_among due) (postponed t) d.refunds },
    )

unfoldable pub claim_due_refunds : ℕ → Tx (List ClaimedRefund)
unfolding claim_due_rows
claim_due_refunds batch_size = query (claim_due_rows batch_size)

limit_to-length : (n : ℕ) (rs : List Refund) → length (limit_to n rs) ≤ n
limit_to-length zero rs = omega arith
limit_to-length (suc n) [] = omega arith
limit_to-length (suc n) (r ∷ rs) = omega (arith, limit_to-length n rs)

length-map : (f : Refund → ClaimedRefund) (rs : List Refund) → length (map f rs) ≡ length rs
length-map f [] = refl
length-map f (r ∷ rs) = ap suc (length-map f rs)

any-postponed :
    (p q : Refund → Bool) (f : Refund → Refund) (rs : List Refund)
    → ((r : Refund) → p (f r) ≡ p r)
    → ((r : Refund) → q (f r) ≡ false)
    → any (λ r. p r && q r) (update_where p f rs) ≡ false
any-postponed p q f [] same gone = refl
any-postponed p q f (r ∷ rs) same gone =
    ground (arith, same r, gone r, any-postponed p q f rs same gone)

postponed_not_due : (t : Time) (r : Refund) → is_due t (postponed t r) ≡ false
postponed_not_due t r = ground arith

-- At most as many refunds are claimed as were asked for, and at the time of the claim none of the
-- claimed ones is due any more, so another worker does not take them too.
pub claim_due_rows_once :
    (batch_size : ℕ) (t : Time) (d : Db)
    → (length (claim_due_rows batch_size t d).0 ≤ batch_size)
      × (any
            (λ r. is_among (due_refunds batch_size t d.refunds) r && is_due t r)
            (claim_due_rows batch_size t d).1.refunds
          ≡ false)
unfolding claim_due_rows
claim_due_rows_once batch_size t d =
    let due = due_refunds batch_size t d.refunds in
    (
      omega (
        arith,
        length-map (claimed d t) due,
        limit_to-length batch_size (sorted_due t d.refunds),
      ),
      any-postponed (is_among due) (is_due t) (postponed t) d.refunds (λ r. refl)
          (postponed_not_due t),
    )
