-- ===== src/Base/Exec/Preserves.antt =====
-- Properties of the object that a method preserves, however it ends: a rule for each way to build one.
use mathlib.Core.Bool.{Bool, true, false}
use cyber_core.Base.Tests.{if◌then◌else◌}
use cyber_core.Base.Exec.{
  Result, ok, err, Exec, raise, pure, reads, modify, raise_if, continue, ◌>>=◌,
}

-- Where the property held before the method, it holds after it.
pub record Preserves {E S A : Type 0} (Holds : S → Type 0) (method : Exec E S A) : Type 0 where
  pub after : (before : S) → Holds before → Holds (method before).1

module _ {E S A B : Type 0} {Holds : S → Type 0} where
  continue-rule :
      (outcome : Result E A) (rest : A → Exec E S B) (reached : S)
      → Holds reached
      → ((a : A) → Preserves Holds (rest a))
      → Holds (continue outcome rest reached).1
  continue-rule (err e) rest reached held later = held
  continue-rule (ok a) rest reached held later = (later a).after reached held

  pub Preserves-bind :
      (method : Exec E S A) (rest : A → Exec E S B)
      → Preserves Holds method
      → ((a : A) → Preserves Holds (rest a))
      → Preserves Holds (method >>= rest)
  unfolding ◌>>=◌
  Preserves-bind method rest first later = record {
    after = λ before held.
        let (outcome, reached) = method before in
        continue-rule outcome rest reached (first.after before held) later;
  }

  -- What was read off a state that has the property is known in the rest.
  pub Preserves-bind-reads :
      (field : S → A) (rest : A → Exec E S B)
      → ((before : S) → Holds before → Holds (rest (field before) before).1)
      → Preserves Holds (reads field >>= rest)
  unfolding ◌>>=◌
  Preserves-bind-reads field rest later = record { after = later }

module _ {E S : Type 0} {Holds : S → Type 0} where
  pub Preserves-raise_if : (refused : Bool) (e : E) → Preserves Holds (raise_if {S = S} refused e)
  unfolding ◌>>=◌
  Preserves-raise_if refused e = record { after = λ before held. held }

  pub Preserves-modify :
      (write : S → S)
      → ((before : S) → Holds before → Holds (write before))
      → Preserves Holds (modify {E = E} write)
  unfolding ◌>>=◌
  Preserves-modify write written = record { after = written }

module _ {E S A : Type 0} {Holds : S → Type 0} where
  pub Preserves-if :
      (test : Bool) (first second : Exec E S A)
      → Preserves Holds first
      → Preserves Holds second
      → Preserves Holds (if test then first else second)
  Preserves-if false first second p q = q
  Preserves-if true first second p q = p

  pub Preserves-reads : (field : S → A) → Preserves Holds (reads {E = E} field)
  unfolding ◌>>=◌
  Preserves-reads field = record { after = λ before held. held }

  pub Preserves-raise : (e : E) → Preserves Holds (raise {A = A} e)
  unfolding ◌>>=◌
  Preserves-raise e = record { after = λ before held. held }

  pub Preserves-pure : (a : A) → Preserves Holds (pure {E = E} a)
  unfolding ◌>>=◌
  Preserves-pure a = record { after = λ before held. held }

pub ruleset preserves_rules = (
  Preserves-bind, Preserves-if, Preserves-raise_if, Preserves-reads, Preserves-raise,
  Preserves-pure,
)
