-- ===== src/Kernel/Execute.antt =====
-- `execute` of src/cybercore/action_kernel.py.
pub mod Reached
pub mod Outcomes
pub mod Replay
pub mod Guarantees
mod Tests
use cyber_core.Base.{
  ℕ, String, Bool, true, false, Option, none, some, List, [], ◌∷◌, Dict, lookup, contains,
  string_eq, ltb, if◌then◌else◌, is_some, not,
}
use cyber_core.Base.Exec.{ok, pure, raise, reads, modify, ◌>>=◌, ◌>>◌}
use cyber_core.Kernel.{Kernel, Action, read_clock, decide, conclude, audit, is_due}
use cyber_core.Kernel.Policy.{evaluate_policy}
use cyber_core.Kernel.Types.{
  TaskRequest, PolicyDecision, allow, deny, PolicyVerdict, EvidenceMetadata, denied, failed,
  executed, ExecutionReceipt, AuditStage, Error, key_error,
}

-- `_reserve_task_id`, under its lock
unfoldable pub reserve_task_id : String → Action Bool
reserve_task_id task_id k =
    if contains k.used task_id
    then (ok false, k)
    else (ok true, record k { used = task_id ∷ k.used })

abbrev pub decision_text : PolicyDecision → String
decision_text allow = "ALLOW"
decision_text deny = "DENY"

-- A refusal at the dispatch boundary, which is audited.
refuse_dispatch : TaskRequest → String → String → Action ExecutionReceipt
refuse_dispatch req actor reason = do
  verdict ← decide req actor deny reason
  recorded ← audit req actor AuditStage.execution "DENIED" reason none
  if recorded
      then conclude req actor verdict denied reason none
      else conclude req actor verdict failed "AUDIT_FAILED" none

-- The last event; `result` is the receipt that was made before the events of success.
record_evidence :
    TaskRequest
    → String
    → PolicyVerdict
    → EvidenceMetadata
    → ExecutionReceipt
    → Action ExecutionReceipt
record_evidence req actor verdict evidence result = do
  recorded ← audit req actor AuditStage.evidence "RECORDED" "EVIDENCE_HASHED" (some evidence.sha256)
  if recorded then pure result else conclude req actor verdict failed "AUDIT_FAILED" none

complete : TaskRequest → String → PolicyVerdict → EvidenceMetadata → Action ExecutionReceipt
complete req actor verdict evidence = do
  result ← conclude req actor verdict executed "SYNTHETIC_ONLY" (some evidence)
  recorded ← audit req actor AuditStage.execution "COMPLETED" result.reason none
  if recorded
      then record_evidence req actor verdict evidence result
      else conclude req actor verdict failed "AUDIT_FAILED" none

gather : TaskRequest → String → PolicyVerdict → EvidenceMetadata → Bool → Action ExecutionReceipt
gather req actor verdict evidence true = conclude req actor verdict failed "EVIDENCE_OVERSIZED" none
gather req actor verdict evidence false = complete req actor verdict evidence

dispatch_status : TaskRequest → String → PolicyVerdict → Option String → Action ExecutionReceipt
dispatch_status req actor verdict none = raise key_error
dispatch_status req actor verdict (some status) = do
  evidence ← reads (λ k. k.encode_evidence req.target_id status)
  oversized ← reads (λ k. ltb k.max_evidence_bytes evidence.byte_count)
  gather req actor verdict evidence oversized

dispatch_inventory :
    TaskRequest → String → PolicyVerdict → Option (Dict String String) → Action ExecutionReceipt
dispatch_inventory req actor verdict none = raise key_error
dispatch_inventory req actor verdict (some inventory) =
    dispatch_status req actor verdict (lookup "synthetic_status" inventory)

-- The static inventory is read once the identifier is reserved.
dispatch : TaskRequest → String → PolicyVerdict → Bool → Action ExecutionReceipt
dispatch req actor verdict false = refuse_dispatch req actor "DUPLICATE"
dispatch req actor verdict true = do
  inventory ← reads (λ k. lookup req.target_id k.targets)
  dispatch_inventory req actor verdict inventory

-- The expiry is tested again, after the callback of the policy's audit.
revalidate : TaskRequest → String → PolicyVerdict → Bool → Action ExecutionReceipt
revalidate req actor verdict true = refuse_dispatch req actor "EXPIRED"
revalidate req actor verdict false = do
  reserved ← reserve_task_id req.task_id
  dispatch req actor verdict reserved

authorize : TaskRequest → String → PolicyVerdict → PolicyDecision → Action ExecutionReceipt
authorize req actor verdict deny = conclude req actor verdict denied verdict.reason none
authorize req actor verdict allow = do
  now ← read_clock
  expired ← is_due req.expires_at now
  revalidate req actor verdict expired

evaluate : TaskRequest → String → Bool → Action ExecutionReceipt
evaluate req actor false = do
  verdict ← decide req actor deny "AUDIT_FAILED"
  conclude req actor verdict failed "AUDIT_FAILED" none
evaluate req actor true = do
  verdict ← evaluate_policy req actor
  recorded ← audit req actor AuditStage.policy (decision_text verdict.decision) verdict.reason none
  if recorded
      then authorize req actor verdict verdict.decision
      else conclude req actor verdict failed "AUDIT_FAILED" none

receive : TaskRequest → String → Bool → Action ExecutionReceipt
receive req actor false = do
  verdict ← decide req actor deny "AUDIT_UNAVAILABLE"
  conclude req actor verdict denied verdict.reason none
receive req actor true = do
  recorded ← audit req actor AuditStage.request "OBSERVED" "REQUEST_RECEIVED" none
  evaluate req actor recorded

pub execute : TaskRequest → String → Action ExecutionReceipt
execute req actor = do available ← reads (λ k. is_some k.sink); receive req actor available
