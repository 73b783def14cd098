-- ===== src/Failover/Provider/Effects.antt =====
-- When `FakeProvider.mutate` of src/cybercore/failover_sim.py has an effect, and which.
use cyber_core.Base.{
  ℕ, ◌+◌, String, Bool, true, false, ◌&&◌, not, ◌≡◌, refl, Option, none, some, [], ◌∷◌, ◌++◌,
  lookup, insert, length, ◌==◌, string_eq, nat_eq, arith, is_some, if◌then◌else◌,
}
use cyber_core.Base.Text.{concat, decimal}
use cyber_core.Base.Exec.{◌>>=◌}
use cyber_core.Failover.Provider.{
  Provider, Receipt, mutate, perform, index, known_receipt, or_perform, validate_target, is_effect,
}

abbrev pub new_receipt : String → String → ℕ → Provider → Receipt
new_receipt target action epoch p = record {
  target = target;
  action = action;
  epoch = epoch;
  op_id = concat ("fake-effect-" ∷ decimal (length p.effects + 1) ∷ []);
}

-- The provider after the effect of a call.
abbrev pub performed : String → String → ℕ → String → ℕ → Provider → Provider
performed target action epoch key generation p = record p {
  generation = insert target (generation + 1) p.generation;
  health =
      insert target (not (if action == "restart" then p.fail_restart else p.fail_restore)) p.health;
  effects = p.effects ++ new_receipt target action epoch p ∷ [];
  receipts =
      if p.idempotency
      then insert key (new_receipt target action epoch p) p.receipts
      else p.receipts;
}

abbrev generation_or : Option ℕ → ℕ
generation_or none = 0
generation_or (some g) = g

abbrev is_epoch : Option ℕ → ℕ → Bool
is_epoch none epoch = false
is_epoch (some current) epoch = epoch == current

-- Every condition for an effect, as one test.
abbrev is_open : String → String → ℕ → String → Provider → Bool
is_open target action epoch key p =
    validate_target p target
    && is_effect action
    && p.fencing
    && is_epoch (lookup target p.epochs) epoch
    && not (p.idempotency && is_some (lookup key p.receipts))
    && is_some (lookup target p.generation)

mutate-eq :
    (target action : String) (epoch : ℕ) (key : String) (p : Provider)
    → (mutate target action epoch key p).1 ≡ (
        if is_open target action epoch key p
        then performed target action epoch key (generation_or (lookup target p.generation)) p
        else p)
unfolding mutate perform index known_receipt or_perform ◌>>=◌
mutate-eq target action epoch key p = ground arith

-- What an effect presupposes.
pub record IsOpen (target action : String) (epoch : ℕ) (key : String) (p : Provider) : Type 0 where
  pub valid : validate_target p target ≡ true
  pub effect : is_effect action ≡ true
  pub fencing : p.fencing ≡ true
  pub fenced : lookup target p.epochs ≡ some epoch
  pub new : p.idempotency ≡ true → lookup key p.receipts ≡ none

is_open-IsOpen :
    (target action : String) (epoch : ℕ) (key : String) (p : Provider)
    → is_open target action epoch key p ≡ true
    → IsOpen target action epoch key p
is_open-IsOpen target action epoch key p h = record {
  valid = ground arith;
  effect = ground arith;
  fencing = ground arith;
  fenced = ground arith;
  new = λ i. ground arith;
}

-- To prove something of the provider after a call, prove it of the provider before, and of the
-- performed effect under what it presupposes.
pub mutate-cases :
    (P : Provider → Type 0) (target action : String) (epoch : ℕ) (key : String) (p : Provider)
    → P p
    → ((generation : ℕ)
        → IsOpen target action epoch key p
        → P (performed target action epoch key generation p))
    → P (mutate target action epoch key p).1
mutate-cases P target action epoch key p same new =
    rw mutate-eq (go (is_open target action epoch key p) refl)
  where
    go :
        (b : Bool)
        → is_open target action epoch key p ≡ b
        → P (
            if b
            then performed target action epoch key (generation_or (lookup target p.generation)) p
            else p)
    go true e = new _ (is_open-IsOpen target action epoch key p e)
    go false e = same
