-- ===== src/Bridge/DryRun.antt =====
-- `run_local_hive_dry_run` and `_claim_once` of src/cybercore/action_kernel_hive_bridge.py.
pub mod Rules
pub mod Stages
pub mod Claiming
pub mod Settling
pub mod Authority
pub mod Once
use cyber_core.Base.{
  ℕ, ◌+◌, String, Bool, true, false, ◌&&◌, ◌||◌, not, Option, none, some, List, [], ◌∷◌, ◌++◌, ◌==◌,
  string_eq, if◌then◌else◌,
}
use cyber_core.Base.Int.{ℤ, leb_ℤ, ◌-ℤ◌}
use cyber_core.Base.Float.{Float, zero_float, ◌-f◌, le_float}
use cyber_core.Base.Time.{DateTime}
use cyber_core.Base.Exec.{Result, ok, err, Exec, raise, pure, reads, modify, raise_if, ◌>>=◌, ◌>>◌}
use cyber_core.Kernel.Types.{TaskRequest, ExecutionReceipt}
use cyber_core.Bridge.Guards.{
  GuardError, value_error, permission_error, unavailable, ReplayGuard, ProcessGuard,
  claim_in_process,
}
use cyber_core.Bridge.Interop.{BridgeError, HiveRequest, to_hive_health_dry_run}
use cyber_core.Bridge.Process.{
  HiveResult, HiveDryRunReceipt, Setting, Process, Bridge, is_allowed, is_receipt_of, is_expiry_of,
  exceeds_lifetime, claim_key, utc_now, monotonic, assert_not_expired,
}

abbrev forbid : String → BridgeError
forbid reason = BridgeError.permission_error reason

-- What `claim_once` of the process's guard raises is raised on.
passed_on : GuardError → BridgeError
passed_on (value_error reason) = BridgeError.value_error reason
passed_on (permission_error reason) = BridgeError.permission_error reason
passed_on unavailable = BridgeError.dispatch_error

raise_on : Option Bool → {S : Type 0} → Bridge S Unit
raise_on none = raise BridgeError.type_error
raise_on (some refused) = raise_if refused (forbid "Task authorization lifetime exceeds policy")

later_of : ℤ → ℤ → ℤ
later_of a b = if leb_ℤ b a then a else b

-- The request that is sent
unfoldable pub hive_request : TaskRequest → String → HiveRequest String → HiveRequest DateTime
hive_request task actor shaped = record {
  id = shaped.id;
  target_node = shaped.target_node;
  action = "health_check";
  dry_run = true;
  approval_tokens = [];
  requested_by = actor;
  correlation_id = task.correlation_id;
  created_at = task.requested_at;
}

is_unexpected : TaskRequest → HiveResult → Bool
is_unexpected task result =
    not (result.request_id == task.task_id)
    || not (result.target_node == task.target_id)
    || not (result.action == "health_check")
    || not (result.status == "dry_run")

-- The attribute is absent, or equals the task's.
correlates : Option (Option String) → String → Bool
correlates none expected = true
correlates (some none) expected = false
correlates (some (some found)) expected = found == expected

module _ {S : Type 0} where
  passed : {A : Type 0} → Result BridgeError A → Bridge S A
  passed r p = (r, p)

  claim_process : String → ℤ → ℤ → String → Bridge S Bool
  unfolding passed_on
  claim_process key expires_at now actor p =
      let (r, claims) = claim_in_process key expires_at now actor p.claims in
      (elim r [ ok claimed ↦ ok claimed | err e ↦ err (passed_on e) ], record p { claims = claims })

  claim_durable : ReplayGuard S → String → Bridge S Bool
  claim_durable store key p =
      let (r, durable) = store.claim_once key p.durable in
      (
        elim r [ ok claimed ↦ ok claimed | err e ↦ err (forbid "Replay guard unavailable") ],
        record p { durable = durable },
      )

module _ {S : Type 0} (setting : Setting) where
  -- The budget: `monotonic() - authorization_started >= remaining_seconds`
  pub within : Float → Float → String → Bridge S Unit
  within started remaining reason = do
    now ← monotonic setting
    raise_if (le_float remaining (now -f started)) (forbid reason)

  -- `_claim_once`
  pub claim_once : ReplayGuard S → String → TaskRequest → String → Bridge S Unit
  claim_once store key task actor = do
    now ← utc_now setting
    reserved ← claim_process key task.expires_at.instant now actor
    raise_if (not reserved) (forbid "Authorization already consumed")
    claimed ← claim_durable store key
    raise_if (not claimed) (forbid "Authorization already consumed")

  -- `registry.dispatch(hive_request)`
  pub send : HiveRequest DateTime → Bridge S HiveResult
  send request p = (
    elim (setting.registry p.sent request) [
      | none ↦ err BridgeError.dispatch_error
      | some result ↦ ok result
    ],
    record p { sent = p.sent ++ request ∷ [] },
  )

  -- What is done with the result
  pub accept : TaskRequest → Float → Float → HiveResult → Bridge S HiveDryRunReceipt
  accept task started remaining result = do
    now ← assert_not_expired setting task
    within started remaining "Task authorization expired during dispatch"
    raise_if (is_unexpected task result)
        (BridgeError.runtime_error "Unexpected or non-dry-run CyberHIVE result")
    raise_if (not (correlates result.correlation_id task.correlation_id))
        (BridgeError.runtime_error "CyberHIVE result correlation does not match task")
    pure (record {
      request_id = result.request_id;
      correlation_id = task.correlation_id;
      target_id = result.target_node;
      status = "dry_run";
      reason = "HIVE_DRY_RUN_ONLY";
    })

  -- From the claims on
  dispatch :
      ReplayGuard S
      → TaskRequest
      → String
      → Float
      → Float
      → HiveRequest String
      → Bridge S HiveDryRunReceipt
  dispatch store task actor started remaining shaped = do
    now ← assert_not_expired setting task
    within started remaining "Task authorization expired before replay claim"
    claim_once store (claim_key actor task) task actor
    again ← assert_not_expired setting task
    within started remaining "Task authorization expired during replay claim"
    result ← send (hive_request task actor shaped)
    accept task started remaining result

  prepare :
      Option (ReplayGuard S) → TaskRequest → String → Float → Float → Bridge S HiveDryRunReceipt
  prepare none task actor started remaining = raise (forbid "Atomic replay guard required")
  prepare (some store) task actor started remaining = do
    shaped ← passed (to_hive_health_dry_run setting.isoformat task actor)
    raise_if (not setting.is_installed) BridgeError.import_error
    dispatch store task actor started remaining shaped

  budgeted :
      Option (ReplayGuard S) → TaskRequest → String → Float → Float → Bridge S HiveDryRunReceipt
  budgeted guard task actor started remaining = do
    raise_if (le_float remaining zero_float) (forbid "Task authorization expired before dispatch")
    prepare guard task actor started remaining

  pub measure : Option (ReplayGuard S) → TaskRequest → String → Bridge S HiveDryRunReceipt
  measure guard task actor = do
    sampling_started ← monotonic setting
    utc_before ← assert_not_expired setting task
    started ← monotonic setting
    utc_after ← assert_not_expired setting task
    budgeted guard task actor started (
        setting.total_seconds (task.expires_at.instant -ℤ later_of utc_before utc_after)
        -f (started -f sampling_started))

  unfoldable pub run_local_hive_dry_run :
      TaskRequest → String → ExecutionReceipt → Option (ReplayGuard S) → Bridge S HiveDryRunReceipt
  unfolding measure budgeted prepare dispatch accept send claim_once within claim_durable
      claim_process passed raise_on passed_on later_of hive_request is_unexpected correlates
  run_local_hive_dry_run task actor receipt guard = do
    raise_if (not (is_allowed receipt.status receipt.policy.decision))
        (forbid "Action Kernel policy did not allow task")
    raise_if (not (is_receipt_of task actor receipt))
        (forbid "Task and authorization receipt do not match")
    raise_if (not (is_expiry_of task receipt.authorization_expires_at))
        (forbid "Task and authorization expiry do not match")
    raise_on (exceeds_lifetime task receipt)
    measure guard task actor
