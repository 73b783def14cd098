-- ===== src/Base/Exec.antt =====
-- Methods that change an object and may raise. What was written before a raise stays written, so
-- the state comes back beside the error too.
pub mod Preserves
pub mod Returns
use mathlib.Core.Path.{◌≡◌, refl}
use mathlib.Core.Logic.{◌⊎◌, inl, inr}
use mathlib.Core.Bool.{Bool}
use cyber_core.Base.Tests.{if◌then◌else◌}

pub data Result (E A : Type 0) : Type 0 where
  ok : A → Result E A
  err : E → Result E A

abbrev pub Exec : Type 0 → Type 0 → Type 0 → Type 0
Exec E S A = S → Result E A × S

-- `if refused: raise e`
pub raise_if : {E S : Type 0} → Bool → E → Exec E S Unit
raise_if refused e state = (if refused then err e else ok tt, state)

pub modify : {E S : Type 0} → (S → S) → Exec E S Unit
modify write state = (ok tt, write state)

module _ {E S A : Type 0} where
  pub reads : (S → A) → Exec E S A
  reads field state = (ok (field state), state)

  pub raise : E → Exec E S A
  raise e state = (err e, state)

  pub pure : A → Exec E S A
  pure a state = (ok a, state)

-- A method of a part of the object, run on that part.
pub zoom : {E S T A : Type 0} → (S → T) → (T → S → S) → Exec E T A → Exec E S A
zoom part put method state = let (r, t) = method (part state) in (r, put t state)

module _ {E S A B : Type 0} where
  abbrev pub continue : Result E A → (A → Exec E S B) → Exec E S B
  continue (ok a) rest state = rest a state
  continue (err e) rest state = (err e, state)

  infixl 5 ◌>>=◌ ◌>>◌
  -- Opening this opens the other ways to build a method too.
  unfoldable pub ◌>>=◌ : Exec E S A → (A → Exec E S B) → Exec E S B
  unfolding pure raise reads modify raise_if zoom
  ◌>>=◌ method rest state = let (r, reached) = method state in continue r rest reached

  abbrev pub ◌>>◌ : Exec E S A → Exec E S B → Exec E S B
  method >> rest = method >>= λ _. rest

pub Result-cases :
    {E A : Type 0} (r : Result E A) → ((a : A) × (r ≡ ok a)) ⊎ ((e : E) × (r ≡ err e))
Result-cases (ok a) = inl (a, refl)
Result-cases (err e) = inr (e, refl)

module _ {E S A B C : Type 0} where
  continue_assoc :
      (r : Result E A) (f : A → Exec E S B) (rest : B → Exec E S C) (reached : S)
      → continue (continue r f reached).0 rest (continue r f reached).1
        ≡ continue r (λ a. f a >>= rest) reached
  unfolding ◌>>=◌
  continue_assoc (ok a) f rest reached = refl
  continue_assoc (err e) f rest reached = refl

  pub bind_assoc :
      (method : Exec E S A) (f : A → Exec E S B) (rest : B → Exec E S C) (state : S)
      → (method >>= f >>= rest) state ≡ (method >>= λ a. f a >>= rest) state
  unfolding ◌>>=◌
  bind_assoc method f rest state =
      let (r, reached) = method state in continue_assoc r f rest reached
