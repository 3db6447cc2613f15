-- ===== src/Common/Effects.antt =====
-- Asynchronous code that may throw: a state monad over a world with an exception.
use mathlib.Core.Path.{◌≡◌, refl, subst}
use mathlib.Core.Logic.{◌⊎◌, inl, inr}
use mathlib.Core.Bool.{Bool, true, false}
use mathlib.Core.Option.{Option, none, some}
use urlfy_cc.Common.Tests.{if◌then◌else◌}

-- What an awaited call yields: a value, or the thrown error.
pub data Outcome {ℓ} (E A : Type ℓ) : Type ℓ where
  returned : A → Outcome E A
  threw : E → Outcome E A

-- A world is all that the injected services share; a call moves it.
abbrev pub Eff : Type 0 → Type 0 → Type 0 → Type 0
Eff W E A = W → Outcome E A × W

pub returned_injective {ℓ} :
    {E A : Type ℓ} {a b : A} → ◌≡◌ {A = Outcome E A} (returned a) (returned b) → a ≡ b
returned_injective e = cc

module _ {W E : Type 0} where
  abbrev pub pure : {A : Type 0} → A → Eff W E A
  pure a w = (returned a, w)

  abbrev pub throw : {A : Type 0} → E → Eff W E A
  throw e w = (threw e, w)

  abbrev pub bind_outcome : {A B : Type 0} → Outcome E A × W → (A → Eff W E B) → Outcome E B × W
  bind_outcome (returned a, w) k = k a w
  bind_outcome (threw e, w) k = (threw e, w)

  infixl 5 ◌>>=◌ ◌>>◌
  abbrev pub ◌>>=◌ : {A B : Type 0} → Eff W E A → (A → Eff W E B) → Eff W E B
  ◌>>=◌ m k w = bind_outcome (m w) k

  abbrev pub ◌>>◌ : {A B : Type 0} → Eff W E A → Eff W E B → Eff W E B
  m >> k = m >>= λ _. k

  abbrev pub handle_outcome : {A : Type 0} → Outcome E A × W → (E → Eff W E A) → Outcome E A × W
  handle_outcome (returned a, w) k = (returned a, w)
  handle_outcome (threw e, w) k = k e w

  -- `try { m } catch (error) { k(error) }`
  abbrev pub catch : {A : Type 0} → Eff W E A → (E → Eff W E A) → Eff W E A
  catch m k w = handle_outcome (m w) k

  -- The outcome of the body, unless the `finally` block throws.
  abbrev pub keep_outcome : {A : Type 0} → Outcome E A → Outcome E (Unit {0}) × W → Outcome E A × W
  keep_outcome r (returned _, w) = (r, w)
  keep_outcome r (threw e, w) = (threw e, w)

  -- `try { m } finally { k }`
  abbrev pub finally : {A : Type 0} → Eff W E A → Eff W E (Unit {0}) → Eff W E A
  finally m k w = let (r, w') = m w in keep_outcome r (k w')

  -- To split on what a call came to and keep the equation.
  pub Outcome-cases :
      {A : Type 0} (r : Outcome E A × W)
      → ((a : A) × (w : W) × (r ≡ (returned a, w))) ⊎ ((e : E) × (w : W) × (r ≡ (threw e, w)))
  Outcome-cases (returned a, w) = inl (a, w, refl)
  Outcome-cases (threw e, w) = inr (e, w, refl)

  -- Inversion of a sequence that returned.
  pub bind_outcome-returned :
      {A B : Type 0} (r : Outcome E A × W) (k : A → Eff W E B) (b : B) (w' : W)
      → bind_outcome r k ≡ (returned b, w')
      → (a : A) × (w : W) × (r ≡ (returned a, w)) × (k a w ≡ (returned b, w'))
  bind_outcome-returned (returned a, w) k b w' h = (a, w, refl, h)
  bind_outcome-returned (threw e, w) k b w' h = cc

  -- Where an error becomes `none`, what is some was returned.
  pub caught-some :
      {A : Type 0} (r : Outcome E (Option A) × W) (a : A) (w' : W)
      → handle_outcome r (λ _. pure none) ≡ (returned (some a), w')
      → r ≡ (returned (some a), w')
  caught-some (returned _, w) a w' h = h
  caught-some (threw e, w) a w' h = cc

  -- What is returned, if anything is, satisfies `P`.
  abbrev pub Ensures : {A : Type 0} → (A → Type 0) → Outcome E A × W → Type 0
  Ensures P (returned a, w) = P a
  Ensures P (threw e, w) = Unit

  pub Ensures-bind :
      {A B : Type 0} (Q : B → Type 0) (r : Outcome E A × W) (k : A → Eff W E B)
      → ((a : A) (w : W) → r ≡ (returned a, w) → Ensures Q (k a w))
      → Ensures Q (bind_outcome r k)
  Ensures-bind Q (returned a, w) k h = h a w refl
  Ensures-bind Q (threw e, w) k h = tt

  pub Ensures-handle :
      {A : Type 0} (Q : A → Type 0) (r : Outcome E A × W) (k : E → Eff W E A)
      → Ensures Q r
      → ((e : E) (w : W) → Ensures Q (k e w))
      → Ensures Q (handle_outcome r k)
  Ensures-handle Q (returned a, w) k h j = h
  Ensures-handle Q (threw e, w) k h j = j e w

  pub Ensures-keep_outcome :
      {A : Type 0} (Q : A → Type 0) (r : Outcome E A) (w : W) (after : Outcome E (Unit {0}) × W)
      → Ensures Q (r, w)
      → Ensures Q (keep_outcome r after)
  Ensures-keep_outcome Q (returned a) w (returned _, w') h = h
  Ensures-keep_outcome Q (threw e) w (returned _, w') h = tt
  Ensures-keep_outcome Q r w (threw e, w') h = tt

  pub Ensures-eq :
      {A : Type 0} (Q : A → Type 0) (r : Outcome E A × W) (a : A)
      → Ensures Q r
      → r.0 ≡ returned a
      → Q a
  Ensures-eq Q (returned b, w) a h e = subst Q (returned_injective e) h
  Ensures-eq Q (threw x, w) a h e = cc

  pub Ensures-map :
      {A : Type 0} (P Q : A → Type 0) (r : Outcome E A × W)
      → ((a : A) → P a → Q a)
      → Ensures P r
      → Ensures Q r
  Ensures-map P Q (returned a, w) f h = f a h
  Ensures-map P Q (threw e, w) f h = tt

  pub Ensures-if :
      {A : Type 0} (P : A → Type 0) (b : Bool) (m k : Eff W E A) (w : W)
      → (b ≡ true → Ensures P (m w))
      → (b ≡ false → Ensures P (k w))
      → Ensures P ((if b then m else k) w)
  Ensures-if P true m k w yes_case no_case = yes_case refl
  Ensures-if P false m k w yes_case no_case = no_case refl
