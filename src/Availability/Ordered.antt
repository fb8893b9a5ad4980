-- ===== src/Availability/Ordered.antt =====
-- The order of the weekly windows (availability.go): sorting changes neither what is in a list nor
-- what holds of all of it.
use wantmytime.Prelude.{
  ◌≡◌, refl, ◌∙◌, ap, inl, inr, Bool, ◌||◌, String, List, [], ◌∷◌, arith, Bool-cases,
}
use wantmytime.Prelude.Chars.{leb_text}
use wantmytime.Prelude.Tables.{any, All}
use wantmytime.Availability.Slots.{insert_by_start, order_by_start}

abbrev Texts : Type 0
Texts = String × String

any-insert_by_start :
    (p : Texts → Bool) (w : Texts) (l : List Texts) → any p (insert_by_start w l) ≡ p w || any p l
any-insert_by_start p w [] = refl
any-insert_by_start p w (x ∷ l) = elim (Bool-cases (leb_text w.0 x.0)) [
  | inl e ↦ rw e refl
  | inr e ↦ rw (e, any-insert_by_start p w l) (swap (p x) (p w) (any p l))
]
  where
    swap : (a b c : Bool) → a || (b || c) ≡ b || (a || c)
    swap a b c = ground arith

pub any-order_by_start : (p : Texts → Bool) (l : List Texts) → any p (order_by_start l) ≡ any p l
unfolding order_by_start
any-order_by_start p [] = refl
any-order_by_start p (w ∷ l) =
    any-insert_by_start p w (order_by_start l) ∙ ap (λ b. p w || b) (any-order_by_start p l)

All-insert_by_start :
    (P : Texts → Type 0) (w : Texts) (l : List Texts) → P w → All P l → All P (insert_by_start w l)
All-insert_by_start P w [] p h = (p, tt)
All-insert_by_start P w (x ∷ l) p h = elim (Bool-cases (leb_text w.0 x.0)) [
  | inl e ↦ rw e (p, h)
  | inr e ↦ rw e (h.0, All-insert_by_start P w l p h.1)
]

pub All-order_by_start : (P : Texts → Type 0) (l : List Texts) → All P l → All P (order_by_start l)
unfolding order_by_start
All-order_by_start P [] h = tt
All-order_by_start P (w ∷ l) h =
    All-insert_by_start P w (order_by_start l) h.0 (All-order_by_start P l h.1)
