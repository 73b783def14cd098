-- ===== src/Bridge/DryRun/Claiming.antt =====
-- The claims of `run_local_hive_dry_run` of src/cybercore/action_kernel_hive_bridge.py, in the order in which they are made.
use cyber_core.Base.{
  ℕ, suc, String, Bool, true, false, not, ◌≡◌, sym, subst, arith, Bool-cases, inl, inr,
}
use cyber_core.Base.Int.{ℤ}
use cyber_core.Base.Exec.{Result-cases, bind_assoc, raise_if, ◌>>=◌}
use cyber_core.Kernel.Types.{TaskRequest}
use cyber_core.Bridge.Guards.{ReplayGuard, claim_in_process}
use cyber_core.Bridge.Guards.Once.{IsDurable}
use cyber_core.Bridge.Interop.{BridgeError}
use cyber_core.Bridge.Process.{HiveDryRunReceipt, Setting, Process, Bridge, claim_key}
use cyber_core.Bridge.DryRun.{claim_once, claim_process, claim_durable}
use cyber_core.Bridge.DryRun.Rules.{raise_if-rule, utc-rule}
use cyber_core.Bridge.DryRun.Stages.{Unsent, Settled, Ready, Waiting, Waiting-Rests}

module _ {S : Type 0} {store : ReplayGuard S} (durable : IsDurable store) (setting : Setting)
    (task : TaskRequest) (actor : String) (p : Process S) where
  was_free :
      (key : String) (q : Process S)
      → ((k : String) → durable.claimed p.durable k ≡ true → durable.claimed q.durable k ≡ true)
      → durable.claimed q.durable key ≡ false
      → durable.claimed p.durable key ≡ false
  was_free key q kept free = elim (Bool-cases (durable.claimed p.durable key)) [
    | inl before ↦ absurd (ground (arith, kept key before, free))
    | inr unclaimed ↦ unclaimed
  ]

  abbrev Wait : ℕ → Process S → Type 0
  Wait = Waiting durable setting task actor p

  abbrev Claims : ℕ → Process S → Type 0
  Claims = Ready durable setting task actor p

  abbrev End : Process S → Type 0
  End = Settled durable setting task actor p

  -- The claim of the process, and then the durable one
  durable-rule :
      (taken : ℕ) (rest : Unit → Bridge S HiveDryRunReceipt)
      → ((q : Process S) → Claims taken q → End (rest tt q).1)
      → (q : Process S) → Wait taken q
      → End
          (((claim_durable store (claim_key actor task) >>= λ claimed.
                raise_if
                  (not claimed)
                  (BridgeError.permission_error "Authorization already consumed"))
              >>= rest)
            q).1
  unfolding ◌>>=◌ claim_durable
  durable-rule taken rest later q (h, counted) =
      let key = claim_key actor task in
      let next : Unsent durable setting task actor p
          (record q { durable = (store.claim_once key q.durable).1 }) =
        record {
          same = h.same;
          kept = λ k c. durable.keeps key k q.durable (h.kept k c);
          later = h.later;
        } in
      elim (Result-cases (store.claim_once key q.durable).0) [
        | inr (e, failed) ↦ rw failed (inl next)
        | inl (true, granted) ↦ rw granted (
            later _ (
              (next, counted),
              record {
                free = was_free key q h.kept (durable.grants key q.durable granted).0;
                claimed = (durable.grants key q.durable granted).1;
              },
            ))
        | inl (false, refused) ↦ rw refused (inl next)
      ]

  process-rule :
      (taken : ℕ) (now : ℤ) (rest : Bool → Bridge S HiveDryRunReceipt)
      → ((granted : Bool) (q : Process S) → Wait taken q → End (rest granted q).1)
      → (q : Process S) → Wait taken q
      → End ((claim_process (claim_key actor task) task.expires_at.instant now actor >>= rest) q).1
  unfolding ◌>>=◌ claim_process
  process-rule taken now rest later q (h, counted) =
      let attempt =
        claim_in_process (claim_key actor task) task.expires_at.instant now actor q.claims in
      let next : Unsent durable setting task actor p (record q { claims = attempt.1 }) = record {
        same = h.same;
        kept = h.kept;
        later = h.later;
      } in
      elim (Result-cases attempt.0) [
        | inr (e, failed) ↦ rw (failed, claim_process) (inl next)
        | inl (granted, answered) ↦ rw (answered, claim_process) (later granted _ (next, counted))
      ]

  -- The claims take a reading of the clock.
  pub claim_once-rule :
      (taken : ℕ) (rest : Unit → Bridge S HiveDryRunReceipt)
      → ((q : Process S) → Claims (suc taken) q → End (rest tt q).1)
      → (q : Process S) → Wait taken q
      → End ((claim_once setting store (claim_key actor task) task actor >>= rest) q).1
  unfolding claim_once
  claim_once-rule taken rest later q h =
      subst (λ x. End x.1) (sym (bind_assoc _ _ rest q))
        (utc-rule setting (Wait taken) End (Waiting-Rests durable setting task actor p taken) _
          (λ before (_, counted) now r (g, _) further.
            subst (λ x. End x.1) (sym (bind_assoc _ _ rest r))
              (process-rule (suc taken) now _
                (λ granted t k.
                  subst (λ x. End x.1) (sym (bind_assoc _ _ rest t))
                    (raise_if-rule setting (Wait (suc taken)) End
                      (Waiting-Rests durable setting task actor p (suc taken)) _ _ _
                      (λ _. durable-rule (suc taken) rest later) t k))
                r (g, omega (arith, counted, further))))
          q h)
