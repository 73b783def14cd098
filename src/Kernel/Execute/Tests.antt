-- ===== src/Kernel/Execute/Tests.antt =====
-- Runs of the kernel of src/cybercore/action_kernel.py on concrete inputs, and its theorems there.
use cyber_core.Base.{
  arith, ℕ, ◌+◌, ◌*◌, ◌≤◌, String, Bool, true, false, ◌≡◌, refl, ◌↔◌, none, some, List, [], ◌∷◌,
  map, contains, lookup,
}
use cyber_core.Base.Int.{pos, leb_ℤ}
use cyber_core.Base.Time.{DateTime, le_time}
use cyber_core.Base.Exec.{Result, ok, err, ◌>>=◌}
use cyber_core.Kernel.{Kernel, read_clock, decide, conclude, audit, valid_provenance, is_due}
use cyber_core.Kernel.Create.{create}
use cyber_core.Kernel.Types.{
  too_deep, recursion_error, sized, TaskRequest, executed, denied, failed, ExecutionReceipt, Error,
  AuditEvent, Status, AuditStage, schema_version, action_contract, provenance_contract, request,
  policy, execution, evidence,
}
use cyber_core.Kernel.Policy.{evaluate_policy, early_refusal, late_refusal, is_valid_descriptor}
use cyber_core.Kernel.Policy.Decision.{IsAllowed, IsPermitted, evaluate_policy_iff}
use cyber_core.Kernel.Execute.{
  execute, reserve_task_id, refuse_dispatch, record_evidence, complete, gather, dispatch_status,
  dispatch_inventory, dispatch, revalidate, authorize, evaluate, receive,
}
use cyber_core.Kernel.Execute.Outcomes.{Ends}
use cyber_core.Kernel.Execute.Outcomes.Authority.{execute-Ends}
use cyber_core.Kernel.Execute.Replay.{executions, at_most_once}
use cyber_core.Kernel.Execute.Guarantees.{IsExecution, executed-IsExecution, execute-returns}

abbrev at : ℕ → DateTime
at seconds = record { instant = pos seconds; is_aware = true }

abbrev actor : String
actor = "chatgpt:johnny-work"

abbrev task : String → TaskRequest
task claimed = record {
  task_id = "t1";
  correlation_id = "c1";
  actor = claimed;
  capability = "diagnostics.synthetic_status.v1";
  target_id = "herrerbook";
  arguments = record { encoding = sized 2; is_empty = true };
  requested_at = at 100;
  expires_at = at 220;
  provenance = record {
    source = "chatgpt";
    adapter = "cybercore-action-kernel-client";
    source_instance = "test-client";
    observed_at = at 100;
    confidence = "verified";
    collector_run = none;
    contract = provenance_contract;
  };
  schema_version = schema_version;
  nexus_contract_family = action_contract;
}

abbrev kernel : Bool → (List AuditEvent → AuditEvent → Bool) → (ℕ → DateTime) → Kernel
kernel enabled sink clock =
    create (("herrerbook", ("synthetic_status", "offline") ∷ []) ∷ []) (actor ∷ []) none enabled
      2048 2048 (some sink) "cybercore-local" clock
      (λ _ _. record { sha256 = "digest"; byte_count = 59 })

abbrev accepts : List AuditEvent → AuditEvent → Bool
accepts _ _ = true

-- A sink that raises on its third event.
abbrev third_lost : List AuditEvent → AuditEvent → Bool
third_lost (_ ∷ _ ∷ _) _ = false
third_lost _ _ = true

abbrev summary :
    Result Error ExecutionReceipt × Kernel
    → Result Error (Status × String) × List String × List AuditStage
summary (ok r, k) = (ok (r.status, r.reason), k.used, map (λ e. e.stage) k.trail)
summary (err e, k) = (err e, k.used, map (λ e. e.stage) k.trail)

-- A call of `execute`; its line opens the code that a call runs.
call : TaskRequest → Kernel → Result Error ExecutionReceipt × Kernel
unfolding create execute receive evaluate authorize revalidate dispatch dispatch_inventory
    dispatch_status gather complete record_evidence refuse_dispatch reserve_task_id evaluate_policy
    early_refusal late_refusal is_valid_descriptor valid_provenance is_due le_time leb_ℤ audit
    conclude decide read_clock ◌>>=◌ contains lookup
call req k = execute req actor k

abbrev on_time : ℕ → DateTime
on_time n = at (100 + n)

served :
    summary (call (task actor) (kernel true accepts on_time))
    ≡ (ok (executed, "SYNTHETIC_ONLY"), "t1" ∷ [], request ∷ policy ∷ execution ∷ evidence ∷ [])
unfolding call
served = refl

-- Arguments that nest too deep to be encoded
nested_arguments :
    summary (
      call
        (record (task actor) { arguments = record { encoding = too_deep; is_empty = false } })
        (kernel true accepts on_time))
    ≡ (err recursion_error, [], request ∷ [])
unfolding call
nested_arguments = refl

-- The same task again
replayed : summary (call (task actor) (call (task actor) (kernel true accepts on_time)).1) ≡ (
  ok (denied, "DUPLICATE"),
  "t1" ∷ [],
  request ∷ policy ∷ execution ∷ evidence ∷ request ∷ policy ∷ [],
)
unfolding call
replayed = refl

-- The task expires between the policy and the dispatch.
expires_between :
    summary (call (task actor) (kernel true accepts (λ n. at (210 + n * 3))))
    ≡ (ok (denied, "EXPIRED"), [], request ∷ policy ∷ execution ∷ [])
unfolding call
expires_between = refl

-- The evidence of the execution is lost: the identifier stays reserved.
loses_evidence :
    summary (call (task actor) (kernel true third_lost on_time))
    ≡ (ok (failed, "AUDIT_FAILED"), "t1" ∷ [], request ∷ policy ∷ [])
unfolding call
loses_evidence = refl

spoofed :
    summary (call (task "chatgpt:attacker") (kernel true accepts on_time))
    ≡ (ok (denied, "ACTOR_MISMATCH"), [], request ∷ policy ∷ [])
unfolding call
spoofed = refl

disabled :
    summary (call (task actor) (kernel false accepts on_time))
    ≡ (ok (denied, "FEATURE_DISABLED"), [], request ∷ policy ∷ [])
unfolding call
disabled = refl

abbrev ready : Kernel
ready = kernel true accepts on_time

abbrev off : Kernel
off = kernel false accepts on_time

served_receipt :
    (r : ExecutionReceipt) × ((execute (task actor) actor ready).0 ≡ ok r) × (r.status ≡ executed)
unfolding call
served_receipt = (_, refl, refl)

denied_receipt :
    (r : ExecutionReceipt) × ((execute (task actor) actor off).0 ≡ ok r) × (r.status ≡ denied)
unfolding call
denied_receipt = (_, refl, refl)

evaluate_policy_iff_example :
    IsAllowed (evaluate_policy (task actor) actor ready).0 ↔ IsPermitted ready (task actor) actor
evaluate_policy_iff_example = evaluate_policy_iff ready (task actor) actor

execute-Ends_example : Ends ready (task actor) actor (execute (task actor) actor ready)
execute-Ends_example = execute-Ends ready (task actor) actor

executed-IsExecution_example :
    IsExecution ready (task actor) actor (execute (task actor) actor ready).1
executed-IsExecution_example =
    executed-IsExecution (task actor) actor ready served_receipt.0 served_receipt.1 served_receipt.2

execute-returns_example :
    (r : ExecutionReceipt) × ((execute (task "chatgpt:attacker") actor ready).0 ≡ ok r)
unfolding create
execute-returns_example =
    execute-returns (task "chatgpt:attacker") actor ready (λ n. refl) (λ deep. ground arith)

at_most_once_example : executions "t1" ((task actor, actor) ∷ (task actor, actor) ∷ []) ready ≤ 1
at_most_once_example = at_most_once "t1" ((task actor, actor) ∷ (task actor, actor) ∷ []) ready
