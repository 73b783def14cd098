-- ===== src/Base/Exec/Returns.antt =====
-- What is known of the value that a method returns, where it does not raise: a rule for each way to
-- build one.
use mathlib.Core.Path.{◌≡◌, refl, subst}
use mathlib.Core.Bool.{Bool, true, false}
use native.Mathlib.Omega.{arith}
use cyber_core.Base.Tests.{if◌then◌else◌}
use cyber_core.Base.Exec.{Result, ok, err, Exec, raise, pure, continue, ◌>>=◌}

pub record Returns {E S A : Type 0} (Good : A → Type 0) (method : Exec E S A) : Type 0 where
  pub returned : (before : S) (a : A) → (method before).0 ≡ ok a → Good a

module _ {E S A B : Type 0} {Known : A → Type 0} {Good : B → Type 0} where
  continue-Good :
      (r : Result E A) (rest : A → Exec E S B) (reached : S)
      → ((a : A) → r ≡ ok a → Known a)
      → ((a : A) → Known a → Returns Good (rest a))
      → (b : B) → (continue r rest reached).0 ≡ ok b
      → Good b
  continue-Good (ok a) rest reached known later b e = (later a (known a refl)).returned reached b e
  continue-Good (err e₁) rest reached known later b e = ground (arith, e)

  -- The rest may rely on what is known of the first value.
  pub Returns-bind-knowing :
      (method : Exec E S A) (rest : A → Exec E S B)
      → Returns Known method
      → ((a : A) → Known a → Returns Good (rest a))
      → Returns Good (method >>= rest)
  unfolding ◌>>=◌
  Returns-bind-knowing method rest first later = record {
    returned = λ before b e.
        let (r, reached) = method before in
        continue-Good r rest reached (λ a ea. first.returned before a ea) later b e;
  }

module _ {E S A B : Type 0} {Good : B → Type 0} where
  pub Returns-bind :
      (method : Exec E S A) (rest : A → Exec E S B)
      → ((a : A) → Returns Good (rest a))
      → Returns Good (method >>= rest)
  Returns-bind method rest later =
      Returns-bind-knowing {Known = λ _. Unit} method rest (record { returned = λ _ _ _. tt })
        (λ a _. later a)

module _ {E S A : Type 0} {Good : A → Type 0} where
  pub Returns-pure : (a : A) → Good a → Returns Good (pure {E = E} {S = S} a)
  unfolding ◌>>=◌
  Returns-pure a good = record { returned = λ before b e. subst Good (ground (arith, e)) good }

  pub Returns-raise : (e : E) → Returns Good (raise {S = S} {A = A} e)
  unfolding ◌>>=◌
  Returns-raise e = record { returned = λ before b h. ground (arith, h) }

  pub Returns-if :
      (test : Bool) (first second : Exec E S A)
      → (test ≡ true → Returns Good first)
      → (test ≡ false → Returns Good second)
      → Returns Good (if test then first else second)
  Returns-if true first second p q = p refl
  Returns-if false first second p q = q refl

-- What is known of the value that a method returns from this state, where it does not raise.
abbrev pub ReturnsAt : {E S A : Type 0} → (A → Type 0) → Exec E S A → S → Type 0
ReturnsAt {A = A} Good method before = (a : A) → (method before).0 ≡ ok a → Good a

module _ {E S A : Type 0} {Good : A → Type 0} where
  pub ReturnsAt-if :
      (test : Bool) (first second : Exec E S A) (before : S)
      → (test ≡ true → ReturnsAt Good first before)
      → (test ≡ false → ReturnsAt Good second before)
      → ReturnsAt Good (if test then first else second) before
  ReturnsAt-if true first second before p q = p refl
  ReturnsAt-if false first second before p q = q refl
