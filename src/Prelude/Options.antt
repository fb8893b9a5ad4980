-- ===== src/Prelude/Options.antt =====
-- Chains of fallible steps: the first that fails ends them.
use mathlib.Core.Option.{Option, none, some}
use mathlib.Core.Path.{◌≡◌, refl, subst}
use mathlib.Core.Bool.{Bool, true, false}

infixl 5 ◌>>=◌ ◌>>◌
abbrev pub ◌>>=◌ : {A B : Type 0} → Option A → (A → Option B) → Option B
◌>>=◌ none f = none
◌>>=◌ (some a) f = f a

abbrev pub ◌>>◌ : {A B : Type 0} → Option A → Option B → Option B
m >> k = m >>= λ _. k

-- Goes on where a test holds.
abbrev pub require : Bool → Option (Unit {0})
require true = some tt
require false = none

pub some_inj : {A : Type 0} {a b : A} → some a ≡ some b → a ≡ b
some_inj h = cc

-- What a chain gives, if it gives something.
pub record Gives {A : Type 0} (Q : A → Type 0) (o : Option A) : Type 0 where
  pub value : (a : A) → o ≡ some a → Q a

module _ {B : Type 0} {Q : B → Type 0} where
  pub each :
      {A : Type 0} (m : Option A) {f : A → Option B} → ((a : A) → Gives Q (f a)) → Gives Q (m >>= f)
  each m h = record { value = λ b e. go m h b e }
    where
      go :
          {A : Type 0} {f : A → Option B} (m : Option A)
          → ((a : A) → Gives Q (f a))
          → (b : B) → (m >>= f) ≡ some b
          → Q b
      go none h b e = cc
      go (some a) h b e = (h a).value b e

  pub where_true : (t : Bool) {m : Option B} → (t ≡ true → Gives Q m) → Gives Q (require t >> m)
  where_true t h = record { value = λ b e. go t h b e }
    where
      go :
          {m : Option B} (t : Bool)
          → (t ≡ true → Gives Q m)
          → (b : B) → (require t >> m) ≡ some b
          → Q b
      go true h b e = (h refl).value b e
      go false h b e = cc

  pub gives : {b : B} → Q b → Gives Q (some b)
  gives q = record { value = λ a e. subst Q (some_inj e) q }

  -- A step of which something is known.
  pub each_with :
      {A : Type 0} {P : A → Type 0} {m : Option A} {f : A → Option B}
      → Gives P m
      → ((a : A) → P a → Gives Q (f a))
      → Gives Q (m >>= f)
  each_with {A} {P} {m} g h = record { value = λ b e. go m g h b e }
    where
      go :
          {f : A → Option B} (m : Option A)
          → Gives P m
          → ((a : A) → P a → Gives Q (f a))
          → (b : B) → (m >>= f) ≡ some b
          → Q b
      go none g h b e = cc
      go (some a) g h b e = (h a (g.value a refl)).value b e
