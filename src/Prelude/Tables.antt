-- ===== src/Prelude/Tables.antt =====
-- Tables as lists of rows, with what the statements do to them.
use mathlib.Core.Path.{◌≡◌, refl, subst}
use mathlib.Core.Option.{some}
use mathlib.Core.Bool.{Bool, true, false, ◌||◌, ◌&&◌}
use mathlib.Core.Logic.{◌⊎◌, inl, inr}
use mathlib.Core.List.{List, [], ◌∷◌, ◌++◌, map}
use native.Mathlib.Omega.{arith}
use wantmytime.Prelude.Lists.{find}
use wantmytime.Prelude.Options.{some_inj}
use wantmytime.Prelude.Tests.{if◌then◌else◌, Bool-cases}

module _ {A : Type 0} where
  abbrev pub any : (A → Bool) → List A → Bool
  any p [] = false
  any p (x ∷ xs) = p x || any p xs

  -- UPDATE … SET … WHERE …
  abbrev pub update_where : (A → Bool) → (A → A) → List A → List A
  update_where p f [] = []
  update_where p f (x ∷ xs) = (if p x then f x else x) ∷ update_where p f xs

  -- DELETE … WHERE …
  abbrev pub without : (A → Bool) → List A → List A
  without p [] = []
  without p (x ∷ l) = let rest = without p l in if p x then rest else x ∷ rest

  -- SELECT … WHERE …
  abbrev pub keep_if : (A → Bool) → List A → List A
  keep_if p [] = []
  keep_if p (x ∷ l) = let rest = keep_if p l in if p x then x ∷ rest else rest

  pub any-append : (p : A → Bool) (l m : List A) → any p (l ++ m) ≡ any p l || any p m
  any-append p [] m = refl
  any-append p (x ∷ l) m = ground (arith, any-append p l m)

  pub any-keep_if : (p q : A → Bool) (l : List A) → any p (keep_if q l) ≡ any (λ x. p x && q x) l
  any-keep_if p q [] = refl
  any-keep_if p q (x ∷ l) = ground (arith, any-keep_if p q l)

  pub any-some : (p : A → Bool) (l : List A) → any p l ≡ true → (x : A) × (p x ≡ true)
  any-some p [] h = cc
  any-some p (x ∷ l) h = elim (Bool-cases (p x)) [
    | inl e ↦ (x, e)
    | inr e ↦ any-some p l (ground (arith, h, e))
  ]

  pub any-implies :
      (p q : A → Bool) (l : List A)
      → ((x : A) → p x ≡ true → q x ≡ true)
      → any p l ≡ true
      → any q l ≡ true
  any-implies p q [] f h = h
  any-implies p q (x ∷ l) f h = ground (arith, any-implies p q l f, f x)

  -- What holds of every row, one after the other.
  abbrev pub All : (A → Type 0) → List A → Type 0
  All P [] = Unit
  All P (x ∷ l) = P x × All P l

  pub All-append : (P : A → Type 0) (l m : List A) → All P l → All P m → All P (l ++ m)
  All-append P [] m hl hm = hm
  All-append P (x ∷ l) m hl hm = (hl.0, All-append P l m hl.1 hm)

  pub All-without : (P : A → Type 0) (p : A → Bool) (l : List A) → All P l → All P (without p l)
  All-without P p [] h = tt
  All-without P p (x ∷ l) h = elim (Bool-cases (p x)) [
    | inl e ↦ rw e (All-without P p l h.1)
    | inr e ↦ rw e (h.0, All-without P p l h.1)
  ]

  pub All-update_if :
      (P : A → Type 0) (p : A → Bool) (f : A → A) (l : List A)
      → ((x : A) → p x ≡ true → P x → P (f x))
      → All P l
      → All P (update_where p f l)
  All-update_if P p f [] k h = tt
  All-update_if P p f (x ∷ l) k h = elim (Bool-cases (p x)) [
    | inl e ↦ rw e (k x e h.0, All-update_if P p f l k h.1)
    | inr e ↦ rw e (h.0, All-update_if P p f l k h.1)
  ]

  pub All-update_where :
      (P : A → Type 0) (p : A → Bool) (f : A → A) (l : List A)
      → ((x : A) → P x → P (f x))
      → All P l
      → All P (update_where p f l)
  All-update_where P p f [] k h = tt
  All-update_where P p f (x ∷ l) k h = elim (Bool-cases (p x)) [
    | inl e ↦ rw e (k x h.0, All-update_where P p f l k h.1)
    | inr e ↦ rw e (h.0, All-update_where P p f l k h.1)
  ]

  pub All-keep_if : (P : A → Type 0) (p : A → Bool) (l : List A) → All P l → All P (keep_if p l)
  All-keep_if P p [] h = tt
  All-keep_if P p (x ∷ l) h = elim (Bool-cases (p x)) [
    | inl e ↦ rw e (h.0, All-keep_if P p l h.1)
    | inr e ↦ rw e (All-keep_if P p l h.1)
  ]

  -- A row that passes a test, with what holds of every row.
  pub any-All :
      (P : A → Type 0) (p : A → Bool) (l : List A)
      → All P l
      → any p l ≡ true
      → (x : A) × (p x ≡ true) × P x
  any-All P p [] a h = cc
  any-All P p (x ∷ l) a h = elim (Bool-cases (p x)) [
    | inl e ↦ (x, e, a.0)
    | inr e ↦ any-All P p l a.1 (ground (arith, h, e))
  ]

module _ {A B : Type 0} where
  pub All-map : (P : B → Type 0) (f : A → B) (l : List A) → All (λ x. P (f x)) l → All P (map f l)
  All-map P f [] h = tt
  All-map P f (x ∷ l) h = (h.0, All-map P f l h.1)

  abbrev pub append_all : (A → List B) → List A → List B
  append_all f [] = []
  append_all f (x ∷ xs) = f x ++ append_all f xs

  pub any-append_all :
      (p : B → Bool) (f : A → List B) (l : List A)
      → any p (append_all f l) ≡ any (λ x. any p (f x)) l
  any-append_all p f [] = refl
  any-append_all p f (x ∷ l) = rw (any-append p (f x) (append_all f l), any-append_all p f l) refl

  pub any-map : (p : B → Bool) (f : A → B) (l : List A) → any p (map f l) ≡ any (λ x. p (f x)) l
  any-map p f [] = refl
  any-map p f (x ∷ l) = rw (any-map p f l) refl

-- Some row has a property.
abbrev pub Some : {A : Type 0} → (A → Type 0) → List A → Type 0
Some P [] = ⊥
Some P (x ∷ l) = P x ⊎ Some P l

module _ {A : Type 0} where
  pub Some-any :
      (P B : A → Type 0) (q : A → Bool) (l : List A)
      → ((x : A) → P x → B x → q x ≡ true)
      → Some P l
      → All B l
      → any q l ≡ true
  Some-any P B q [] f h a = absurd h
  Some-any P B q (x ∷ l) f (inl p) a = rw (f x p a.0) refl
  Some-any P B q (x ∷ l) f (inr h) a = or_later (q x) (any q l) (Some-any P B q l f h a.1)
    where
      or_later : (a b : Bool) → b ≡ true → a || b ≡ true
      or_later true b e = refl
      or_later false b e = e

  pub Some-one : (P B : A → Type 0) (l : List A) → Some P l → All B l → (x : A) × P x × B x
  Some-one P B [] h a = absurd h
  Some-one P B (x ∷ l) (inl p) a = (x, p, a.0)
  Some-one P B (x ∷ l) (inr h) a = Some-one P B l h a.1

  pub find-All :
      (P : A → Type 0) (p : A → Bool) (l : List A) → All P l → (x : A) → find p l ≡ some x → P x
  find-All P p [] a x e = cc
  find-All P p (y ∷ l) a x e = elim (Bool-cases (p y)) [
    | inl h ↦ subst P (some_inj (rw h at e)) a.0
    | inr h ↦ find-All P p l a.1 x (rw h at e)
  ]

  pub Some-map : {P Q : A → Type 0} → ((x : A) → P x → Q x) → (l : List A) → Some P l → Some Q l
  Some-map f [] h = h
  Some-map f (x ∷ l) (inl p) = inl (f x p)
  Some-map f (x ∷ l) (inr h) = inr (Some-map f l h)
