-- ===== src/Bridge/Interop.antt =====
-- src/cybercore/action_kernel_interop.py: the requests of CyberHIVE and the results of Nexus. Times are
-- printed by `isoformat`.
use cyber_core.Base.{
  String, Bool, true, false, ◌||◌, not, Option, none, some, List, [], ◌==◌, string_eq,
  if◌then◌else◌,
}
use cyber_core.Base.Time.{DateTime}
use cyber_core.Base.Exec.{Result, ok, err}
use cyber_core.Kernel.{is_empty}
use cyber_core.Kernel.Types.{
  TaskRequest, ExecutionReceipt, EvidenceMetadata, Status, executed, denied, failed,
  action_contract,
}

pub data BridgeError : Type 0 where
  permission_error value_error runtime_error : String → BridgeError
  type_error import_error dispatch_error : BridgeError

-- The shape of an `AgentActionRequest`; its payload is empty. `T` is the type of its time: printed
-- by the adapter, a `datetime` in the request that is sent.
pub record HiveRequest (T : Type 0) : Type 0 where
  pub id : String
  pub target_node : String
  pub action : String
  pub dry_run : Bool
  pub approval_tokens : List String
  pub requested_by : String
  pub correlation_id : String
  pub created_at : T

pub record ProviderReceipt : Type 0 where
  pub capability : String
  pub target_id : String
  pub reason : String
  pub evidence_sha256 : Option String

pub record NexusResult : Type 0 where
  pub contract : String
  pub kind : String
  pub action_id : String
  pub idempotency_key : String
  pub status : String
  pub started_at : String
  pub completed_at : String
  pub provider_receipt : Option ProviderReceipt
  -- the code, which is the message too
  pub error : Option String

-- `ExecutionReceipt.evidence_sha256`
evidence_sha256 : Option EvidenceMetadata → Option String
evidence_sha256 none = none
evidence_sha256 (some evidence) = some evidence.sha256

-- What a status becomes, with whether it is "completed". No other status than the three is made.
nexus_status : Status → String × Bool
nexus_status executed = ("completed", true)
nexus_status denied = ("rejected", false)
nexus_status failed = ("failed", false)

module _ (isoformat : DateTime → String) where
  unfoldable pub to_hive_health_dry_run :
      TaskRequest → String → Result BridgeError (HiveRequest String)
  to_hive_health_dry_run request trusted_actor =
      if is_empty trusted_actor || not (request.actor == trusted_actor)
      then err (value_error "actor mismatch")
      else if not (request.capability == "diagnostics.synthetic_status.v1")
      then err (value_error "unsupported capability")
      else if not request.arguments.is_empty
      then err (value_error "arguments prohibited")
      else if is_empty request.target_id
          || is_empty request.task_id
          || is_empty request.correlation_id
      then err (value_error "missing identifiers")
      else ok (record {
        id = request.task_id;
        target_node = request.target_id;
        action = "health_check";
        dry_run = true;
        approval_tokens = [];
        requested_by = trusted_actor;
        correlation_id = request.correlation_id;
        created_at = isoformat request.requested_at;
      })

  unfoldable pub to_nexus_action_result : ExecutionReceipt → NexusResult
  unfolding nexus_status evidence_sha256
  to_nexus_action_result receipt =
      let (status, completed) = nexus_status receipt.status in
      let provided : ProviderReceipt = record {
        capability = receipt.capability;
        target_id = receipt.target_id;
        reason = receipt.reason;
        evidence_sha256 = evidence_sha256 receipt.evidence;
      } in
      record {
        contract = action_contract;
        kind = "result";
        action_id = receipt.task_id;
        idempotency_key = receipt.correlation_id;
        status = status;
        started_at = isoformat receipt.policy.evaluated_at;
        completed_at = isoformat receipt.completed_at;
        provider_receipt = if completed then some provided else none;
        error = if completed then none else some receipt.reason;
      }
