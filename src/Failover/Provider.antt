-- ===== src/Failover/Provider.antt =====
-- `class FakeProvider` of src/cybercore/failover_sim.py: an in-memory provider with enforced fencing
-- and idempotency.
pub mod Effects
use cyber_core.Base.{
  ℕ, ◌+◌, String, Bool, true, false, ◌&&◌, ◌||◌, not, Option, none, some, List, [], ◌∷◌, ◌++◌, map,
  Dict, lookup, insert, length, all, contains, ◌==◌, string_eq, nat_eq, ltb, if◌then◌else◌,
}
use cyber_core.Base.Text.{concat, decimal, is_symbolic}
use cyber_core.Base.Exec.{Result, ok, err, Exec, pure, raise, raise_if, reads, modify, ◌>>=◌, ◌>>◌}
use cyber_core.Failover.Types.{Error, unsafe_effect, key_error}

-- The tuple (target, action, epoch, op_id).
pub record Receipt : Type 0 where
  pub target : String
  pub action : String
  pub epoch : ℕ
  pub op_id : String

pub record Provider : Type 0 where
  pub targets : List String
  pub health : Dict String Bool
  pub generation : Dict String ℕ
  pub epochs : Dict String ℕ
  pub fencing : Bool
  pub idempotency : Bool
  pub effects : List Receipt
  pub receipts : Dict String Receipt
  pub fail_restart : Bool
  pub fail_restore : Bool
  pub readable : Bool

abbrev pub Action : Type 0 → Type 0
Action A = Exec Error Provider A

-- `dict.fromkeys(targets, v)`
from_keys {ℓ} : {V : Type ℓ} → List String → V → Dict String V
from_keys [] v = []
from_keys (k ∷ ks) v = insert k v (from_keys ks v)

-- `FakeProvider.__init__`; `none` is its ValueError.
unfoldable pub create : List String → Bool → Bool → Option Provider
unfolding from_keys all is_symbolic insert
create targets fencing idempotency =
    if all is_symbolic targets
    then some (record {
      targets = targets;
      health = from_keys targets true;
      generation = from_keys targets 0;
      epochs = from_keys targets 0;
      fencing = fencing;
      idempotency = idempotency;
      effects = [];
      receipts = [];
      fail_restart = false;
      fail_restore = false;
      readable = true;
    })
    else none

unfoldable pub validate_target : Provider → String → Bool
unfolding is_symbolic contains
validate_target p target = is_symbolic target && contains p.targets target

-- `d[k]`
unfoldable pub index : {A : Type 0} → Option A → Action A
index none = raise key_error
index (some a) = pure a

unfoldable pub fence : String → ℕ → Action Unit
unfolding index
fence target epoch = do
  fencing ← reads (λ p. p.fencing)
  raise_if (not fencing) (unsafe_effect "fake adapter has no enforced fencing")
  found ← reads (λ p. lookup target p.epochs)
  current ← index found
  raise_if (ltb epoch current) (unsafe_effect "stale fencing epoch")
  modify (λ p. record p { epochs = insert target epoch p.epochs })

pub record Observation : Type 0 where
  pub healthy : Bool
  pub generation : ℕ
  pub receipt : Option Receipt

unfoldable pub observe : String → String → Action Observation
unfolding index
observe target key = do
  readable ← reads (λ p. p.readable)
  raise_if (not readable) (unsafe_effect "fake provider observation unavailable")
  found ← reads (λ p. lookup target p.health)
  healthy ← index found
  found_generation ← reads (λ p. lookup target p.generation)
  generation ← index found_generation
  receipt ← reads (λ p. lookup key p.receipts)
  pure (record { healthy = healthy; generation = generation; receipt = receipt })

unfoldable pub is_effect : String → Bool
is_effect action = action == "restart" || action == "restore"

-- `self.receipts[key]`, if the provider is idempotent and has one.
known_receipt : String → Provider → Option Receipt
known_receipt key p = if p.idempotency then lookup key p.receipts else none

-- The effect itself.
perform : String → String → ℕ → String → Action String
unfolding index
perform target action epoch key = do
  found ← reads (λ p. lookup target p.generation)
  generation ← index found
  effects ← reads (λ p. p.effects)
  let op_id = concat ("fake-effect-" ∷ decimal (length effects + 1) ∷ [])
  let receipt : Receipt = record { target = target; action = action; epoch = epoch; op_id = op_id }
  modify λ p. record p {
    generation = insert target (generation + 1) p.generation;
    health =
        insert target (not (if action == "restart" then p.fail_restart else p.fail_restore))
          p.health;
    effects = p.effects ++ receipt ∷ [];
    receipts = if p.idempotency then insert key receipt p.receipts else p.receipts;
  }
  pure op_id

or_perform : Option Receipt → Action String → Action String
or_perform none act = act
or_perform (some receipt) act = pure receipt.op_id

unfoldable pub mutate : String → String → ℕ → String → Action String
unfolding index known_receipt perform or_perform
mutate target action epoch key = do
  valid ← reads (λ p. validate_target p target)
  raise_if (not valid || not (is_effect action))
      (unsafe_effect "non-fake target or unsupported effect")
  fencing ← reads (λ p. p.fencing)
  raise_if (not fencing) (unsafe_effect "effect-boundary fencing rejected")
  found ← reads (λ p. lookup target p.epochs)
  current ← index found
  raise_if (not (epoch == current)) (unsafe_effect "effect-boundary fencing rejected")
  known ← reads (known_receipt key)
  or_perform known (perform target action epoch key)
