-- ===== src/Bridge/DryRun/Authority.antt =====
-- What stands behind a request that `run_local_hive_dry_run` of
-- src/cybercore/action_kernel_hive_bridge.py sends.
use cyber_core.Base.{String, Bool, true, false, ◌≡◌, refl, ◌⊎◌, Option, none, some, arith, inl, inr}
use cyber_core.Base.Exec.{raise_if, ◌>>=◌}
use cyber_core.Kernel.Types.{TaskRequest, ExecutionReceipt}
use cyber_core.Bridge.Guards.{ReplayGuard}
use cyber_core.Bridge.Guards.Once.{IsDurable}
use cyber_core.Bridge.Interop.{BridgeError}
use cyber_core.Bridge.Process.{
  HiveDryRunReceipt, Setting, Process, Bridge, is_allowed, is_receipt_of, is_expiry_of,
  exceeds_lifetime,
}
use cyber_core.Bridge.DryRun.{run_local_hive_dry_run, raise_on}
use cyber_core.Bridge.DryRun.Stages.{Unsent, Sent}
use cyber_core.Bridge.DryRun.Settling.{measure-Settled}

-- The receipt is of an execution that the kernel allowed, of this task and for this actor; its expiry
-- is the task's, which ends within five minutes of its completion.
pub record IsAuthorized (task : TaskRequest) (actor : String) (receipt : ExecutionReceipt)
    : Type 0 where
  pub allowed : is_allowed receipt.status receipt.policy.decision ≡ true
  pub matches : is_receipt_of task actor receipt ≡ true
  pub same_expiry : is_expiry_of task receipt.authorization_expires_at ≡ true
  pub short : exceeds_lifetime task receipt ≡ some false

module _ {S : Type 0} {store : ReplayGuard S} (durable : IsDurable store) (setting : Setting)
    (task : TaskRequest) (actor : String) (p : Process S) where
  raise_on-rule :
      (test : Option Bool) (After : Process S → Type 0) (rest : Unit → Bridge S HiveDryRunReceipt)
      → After p
      → (test ≡ some false → After (rest tt p).1)
      → After ((raise_on test >>= rest) p).1
  unfolding ◌>>=◌ raise_on
  raise_on-rule none After rest h later = h
  raise_on-rule (some true) After rest h later = h
  raise_on-rule (some false) After rest h later = later refl

  raise-rule :
      (refused : Bool) (e : BridgeError) (After : Process S → Type 0)
      (rest : Unit → Bridge S HiveDryRunReceipt)
      → After p
      → (refused ≡ false → After (rest tt p).1)
      → After ((raise_if refused e >>= rest) p).1
  unfolding ◌>>=◌
  raise-rule true e After rest h later = h
  raise-rule false e After rest h later = later refl

  -- With a durable guard, a call of the bridge either sends nothing, or sends the task's request, once: then
  -- the receipt allows the task and is its own, with its expiry, the key of the task was free before and is
  -- claimed from then on, and at the fifth reading of the clock in this call, the one that follows the
  -- claim, or at a later one before its end, the task had not expired.
  pub run-IsAuthorized :
      (receipt : ExecutionReceipt)
      → let q = (run_local_hive_dry_run setting task actor receipt (some store) p).1 in
        Unsent durable setting task actor p q
        ⊎ (IsAuthorized task actor receipt × Sent durable setting task actor p q)
  unfolding run_local_hive_dry_run
  run-IsAuthorized receipt =
      let After : Process S → Type 0 = λ q.
        Unsent durable setting task actor p q
        ⊎ (IsAuthorized task actor receipt × Sent durable setting task actor p q) in
      let start : Unsent durable setting task actor p p = record {
        same = refl;
        kept = λ _ c. c;
        later = omega arith;
      } in
      raise-rule _ _ After _ (inl start) (λ allowed. raise-rule _ _ After _ (inl start) (λ matches.
        raise-rule _ _ After _ (inl start) (λ same_expiry.
          raise_on-rule _ After _ (inl start) (λ short.
            elim (measure-Settled durable setting task actor p p (start, omega arith)) [
              | inl unsent ↦ inl unsent
              | inr sent ↦ inr (
                record {
                  allowed = ground (arith, allowed);
                  matches = ground (arith, matches);
                  same_expiry = ground (arith, same_expiry);
                  short = short;
                },
                sent,
              )
            ]))))
