-- ===== src/Bridge/Tests.antt =====
-- Runs of the bridge of src/cybercore/action_kernel_hive_bridge.py and of the broker on concrete inputs, and the
-- theorems about them there.
use cyber_core.Base.{
  ℕ, ◌+◌, ◌*◌, ◌≤◌, String, Bool, true, false, ◌≡◌, refl, ◌⊎◌, Option, none, some, List, [], ◌∷◌,
  map, contains, lookup, insert, keep, all,
}
use cyber_core.Base.Int.{ℤ, pos, leb_ℤ, ◌+ℤ◌, ◌-ℤ◌}
use cyber_core.Base.Float.{of_int, le_float, ◌-f◌}
use cyber_core.Base.Text.{concat}
use cyber_core.Base.Time.{DateTime, le_time}
use cyber_core.Base.Exec.{Result, ok, err, ◌>>=◌}
use cyber_core.Kernel.{Kernel}
use cyber_core.Kernel.Create.{create}
use cyber_core.Kernel.Types.{
  sized, Provenance, TaskRequest, ExecutionReceipt, Status, executed, denied, allow, schema_version,
  action_contract, provenance_contract,
}
use cyber_core.Bridge.Guards.{
  ProcessGuard, claim_in_process, claim_in_memory, claim_in_database, make_process_guard,
  sqlite_guard,
}
use cyber_core.Bridge.Guards.Claims.{Attempt, after_claims}
use cyber_core.Bridge.Guards.Bounds.{IsBounded, claims-IsBounded}
use cyber_core.Bridge.Guards.Memory.{claimed-never_again}
use cyber_core.Bridge.Guards.Once.{sqlite_guard-IsDurable, claim_in_database-claim_in_memory}
use cyber_core.Bridge.Interop.{BridgeError, HiveRequest, to_hive_health_dry_run}
use cyber_core.Bridge.Process.{
  HiveResult, HiveDryRunReceipt, Setting, Process, claim_key, is_allowed, is_receipt_of,
  is_expiry_of, exceeds_lifetime, assert_not_expired,
}
use cyber_core.Bridge.DryRun.{run_local_hive_dry_run}
use cyber_core.Bridge.DryRun.Stages.{Unsent, Sent}
use cyber_core.Bridge.DryRun.Authority.{IsAuthorized, run-IsAuthorized}
use cyber_core.Bridge.DryRun.Once.{sends, after_runs, sent_once}
use cyber_core.Bridge.Broker.{execute}
use cyber_core.Bridge.Broker.Authority.{IsBacked, execute-IsBacked}

-- Seconds, as instants
abbrev at : ℕ → ℤ
at seconds = pos (seconds * 1000000)

abbrev time : ℕ → DateTime
time seconds = record { instant = at seconds; is_aware = true }

abbrev actor : String
actor = "chatgpt:johnny-work"

abbrev provenance : Provenance
provenance = record {
  source = "chatgpt";
  adapter = "cybercore-action-kernel-client";
  source_instance = "test-client";
  observed_at = time 100;
  confidence = "verified";
  collector_run = none;
  contract = provenance_contract;
}

abbrev task : TaskRequest
task = record {
  task_id = "t1";
  correlation_id = "c1";
  actor = actor;
  capability = "diagnostics.synthetic_status.v1";
  target_id = "herrerbook";
  arguments = record { encoding = sized 2; is_empty = true };
  requested_at = time 100;
  expires_at = time 220;
  provenance = provenance;
  schema_version = schema_version;
  nexus_contract_family = action_contract;
}

abbrev receipt : Status → ExecutionReceipt
receipt status = record {
  task_id = "t1";
  correlation_id = "c1";
  status = status;
  reason = "SYNTHETIC_ONLY";
  actor = actor;
  capability = "diagnostics.synthetic_status.v1";
  target_id = "herrerbook";
  policy = record {
    task_id = "t1";
    correlation_id = "c1";
    decision = allow;
    reason = "READ_ONLY_ALLOWED";
    actor = actor;
    capability = "diagnostics.synthetic_status.v1";
    target_id = "herrerbook";
    evaluated_at = time 101;
    provenance = provenance;
  };
  completed_at = time 102;
  provenance = provenance;
  evidence = none;
  authorization_expires_at = some (time 220);
}

-- A node that answers what it is asked
abbrev registry : List (HiveRequest DateTime) → HiveRequest DateTime → Option HiveResult
registry _ request = some (record {
  request_id = request.id;
  target_node = request.target_node;
  action = request.action;
  status = "dry_run";
  correlation_id = none;
})

-- The clock of the bridge starts at a second, and a second passes between two readings.
abbrev setting : ℕ → Setting
setting start = record {
  utc = λ n. at (start + n);
  monotonic = λ n. of_int (at n);
  total_seconds = of_int;
  isoformat = λ _. "2026-01-01T00:00:00+00:00";
  is_installed = true;
  registry = registry;
}

abbrev fresh : Process (List String)
fresh = record {
  claims = record { max_entries = 4096; max_per_actor = 128; claimed_until = [] };
  durable = [];
  utc_readings = 0;
  monotonic_readings = 0;
  sent = [];
}

run :
    ℕ
    → ExecutionReceipt
    → Process (List String)
    → Result BridgeError HiveDryRunReceipt × Process (List String)
unfolding run_local_hive_dry_run is_allowed is_receipt_of is_expiry_of exceeds_lifetime le_time
    leb_ℤ ◌-ℤ◌ assert_not_expired to_hive_health_dry_run claim_key claim_in_process
    claim_in_database keep lookup insert contains ◌>>=◌ concat of_int le_float ◌-f◌
run start given p = run_local_hive_dry_run (setting start) task actor given (some sqlite_guard) p

abbrev summary :
    Result BridgeError HiveDryRunReceipt × Process (List String) → Bool × List String × List String
summary (ok r, p) = (true, p.durable, map (λ s. s.id) p.sent)
summary (err e, p) = (false, p.durable, map (λ s. s.id) p.sent)

served :
    summary (run 102 (receipt executed) fresh) ≡ (true, "chatgpt:johnny-work:t1:c1" ∷ [], "t1" ∷ [])
unfolding run ◌+ℤ◌
served = refl

replayed :
    (run 106 (receipt executed) (run 102 (receipt executed) fresh).1).0
    ≡ err (BridgeError.permission_error "Authorization already consumed")
unfolding run ◌+ℤ◌
replayed = refl

denied_receipt : summary (run 102 (receipt denied) fresh) ≡ (false, [], [])
unfolding run ◌+ℤ◌
denied_receipt = refl

-- The authorization expires while the claim is made.
expires_late :
    summary (run 216 (receipt executed) fresh) ≡ (false, "chatgpt:johnny-work:t1:c1" ∷ [], [])
unfolding run ◌+ℤ◌
expires_late = refl

abbrev attempt : String → ℕ → Attempt
attempt key seconds = record { key = key; expires_at = at 220; now = at seconds; actor = actor }

abbrev small_guard : ProcessGuard
small_guard = record { max_entries = 2; max_per_actor = 1; claimed_until = [] }

made : make_process_guard 2 (some 1) ≡ ok small_guard
unfolding make_process_guard
made = refl

claims-IsBounded_example :
    IsBounded (after_claims (attempt "a" 100 ∷ attempt "b" 101 ∷ []) small_guard)
claims-IsBounded_example =
    claims-IsBounded 2 (some 1) small_guard (attempt "a" 100 ∷ attempt "b" 101 ∷ []) made

granted : (claim_in_process "a" (at 220) (at 100) actor small_guard).0 ≡ ok true
unfolding claim_in_process keep lookup leb_ℤ
granted = refl

claimed-never_again_example :
    (claim_in_process "a" (at 300) (at 103) "other" (
      after_claims
        (attempt "b" 101 ∷ [])
        (claim_in_process "a" (at 220) (at 100) actor small_guard).1)).0
    ≡ ok false
unfolding all leb_ℤ
claimed-never_again_example =
    claimed-never_again "a" (at 220) (at 100) actor small_guard (attempt "b" 101 ∷ []) (at 300)
      (at 103) "other" granted refl refl refl

claim_in_database-claim_in_memory_example :
    claim_in_database "t1" ("t2" ∷ []) ≡ claim_in_memory "t1" ("t2" ∷ [])
claim_in_database-claim_in_memory_example = claim_in_database-claim_in_memory "t1" ("t2" ∷ []) refl

run-IsAuthorized_example :
    let q =
      (run_local_hive_dry_run
        (setting 102)
        task
        actor
        (receipt executed)
        (some sqlite_guard)
        fresh).1 in
    Unsent sqlite_guard-IsDurable (setting 102) task actor fresh q
    ⊎ (IsAuthorized task actor (receipt executed)
        × Sent sqlite_guard-IsDurable (setting 102) task actor fresh q)
run-IsAuthorized_example =
    run-IsAuthorized sqlite_guard-IsDurable (setting 102) task actor fresh (receipt executed)

abbrev calls : List (TaskRequest × String × ExecutionReceipt)
calls = (task, actor, receipt executed) ∷ (task, actor, receipt executed) ∷ []

sent_once_example :
    sends "chatgpt:johnny-work:t1:c1" (after_runs sqlite_guard (setting 102) calls fresh).sent ≤ 1
sent_once_example =
    sent_once sqlite_guard-IsDurable (setting 102) "chatgpt:johnny-work:t1:c1" calls fresh refl

abbrev kernel : Kernel
kernel =
    create (("herrerbook", ("synthetic_status", "offline") ∷ []) ∷ []) (actor ∷ []) none true 2048
      2048 (some (λ _ _. true)) "cybercore-local" (λ n. time (100 + n))
      (λ _ _. record { sha256 = "digest"; byte_count = 59 })

execute-IsBacked_example :
    IsBacked sqlite_guard-IsDurable
      (setting 112)
      task
      actor
      kernel
      fresh
      (execute (setting 112) sqlite_guard task actor (kernel, fresh)).1
execute-IsBacked_example =
    execute-IsBacked sqlite_guard-IsDurable (setting 112) task actor kernel fresh
