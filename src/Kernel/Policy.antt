-- ===== src/Kernel/Policy.antt =====
-- `_evaluate_policy` of src/cybercore/action_kernel.py.
pub mod Refusals
pub mod Decision
use cyber_core.Base.{
  ℕ, String, Bool, true, false, ◌&&◌, ◌||◌, not, Option, none, some, List, Dict, lookup, contains,
  ◌==◌, string_eq, ltb, if◌then◌else◌, is_some,
}
use cyber_core.Base.Time.{DateTime, le_time}
use cyber_core.Base.Exec.{pure, raise, reads, ◌>>=◌, ◌>>◌}
use cyber_core.Kernel.{Kernel, Action, read_clock, decide, valid_provenance, is_due, is_empty}
use cyber_core.Kernel.Types.{
  TaskRequest, CapabilityDescriptor, Encoding, sized, unencodable, too_deep, recursion_error,
  PolicyDecision, allow, deny, PolicyVerdict, schema_version, action_contract, capability_contract,
}

-- The tests before the times are compared: the reason of a refusal, if any.
unfoldable pub early_refusal : Kernel → TaskRequest → String → Option String
early_refusal k req actor =
    if not k.enabled
    then some "FEATURE_DISABLED"
    else if is_empty actor || not (contains k.actors actor)
    then some "ACTOR_DENIED"
    else if is_empty req.actor || not (req.actor == actor)
    then some "ACTOR_MISMATCH"
    else if not (req.schema_version == schema_version)
    then some "SCHEMA_DENIED"
    else if not (req.nexus_contract_family == action_contract)
    then some "CONTRACT_DENIED"
    else if not (valid_provenance req.provenance)
    then some "PROVENANCE_INVALID"
    else if is_empty req.task_id || is_empty req.correlation_id
    then some "INVALID_ID"
    else if not req.requested_at.is_aware || not req.expires_at.is_aware
    then some "INVALID_TIME"
    else none

unfoldable pub is_valid_descriptor : TaskRequest → CapabilityDescriptor → Bool
is_valid_descriptor req d =
    d.schema_version == schema_version
    && d.nexus_contract_family == capability_contract
    && d.name == req.capability
    && d.mode == "read"

pub is_status : String → Bool
is_status status = status == "ok" || status == "offline" || status == "unknown"

-- A refusal with its reason, or the RecursionError of `json.dumps`
pub data Refusal : Type 0 where
  denial : String → Refusal
  overflow : Refusal

inventory_refusal : Option String → Option Refusal
unfolding is_status
inventory_refusal none = some (denial "INVALID_INVENTORY")
inventory_refusal (some status) =
    if is_status status then none else some (denial "INVALID_INVENTORY")

-- The tests on the arguments, from their canonical JSON.
arguments_refusal :
    Kernel → TaskRequest → CapabilityDescriptor → Dict String String → Encoding → Option Refusal
unfolding inventory_refusal
arguments_refusal k req d inventory unencodable = some (denial "INVALID_ARGUMENTS")
arguments_refusal k req d inventory too_deep = some overflow
arguments_refusal k req d inventory (sized size) =
    if ltb k.max_bytes size
    then some (denial "OVERSIZED")
    else if not req.arguments.is_empty && not d.arguments_allowed
    then some (denial "ARGUMENTS_DENIED")
    else inventory_refusal (lookup "synthetic_status" inventory)

target_refusal :
    Kernel → TaskRequest → CapabilityDescriptor → Option (Dict String String) → Option Refusal
unfolding arguments_refusal
target_refusal k req d none = some (denial "TARGET_DENIED")
target_refusal k req d (some inventory) = arguments_refusal k req d inventory req.arguments.encoding

descriptor_refusal : Kernel → TaskRequest → Option CapabilityDescriptor → Option Refusal
unfolding target_refusal
descriptor_refusal k req none = some (denial "CAPABILITY_DENIED")
descriptor_refusal k req (some d) =
    if not (is_valid_descriptor req d)
    then some (denial "CAPABILITY_DESCRIPTOR_INVALID")
    else if not (contains d.allowed_targets req.target_id)
    then some (denial "TARGET_DENIED")
    else target_refusal k req d (lookup req.target_id k.targets)

-- The tests after the times are compared.
unfoldable pub late_refusal : Kernel → TaskRequest → Option Refusal
unfolding descriptor_refusal
late_refusal k req =
    if contains k.used req.task_id
    then some (denial "DUPLICATE")
    else descriptor_refusal k req (lookup req.capability k.capabilities)

verdict_of : TaskRequest → String → Option Refusal → Action PolicyVerdict
verdict_of req actor none = decide req actor allow "READ_ONLY_ALLOWED"
verdict_of req actor (some (denial reason)) = decide req actor deny reason
verdict_of req actor (some overflow) = raise recursion_error

late_policy : TaskRequest → String → Bool → Action PolicyVerdict
late_policy req actor true = decide req actor deny "EXPIRED"
late_policy req actor false = do
  refusal ← reads (λ k. late_refusal k req)
  verdict_of req actor refusal

timed_policy : TaskRequest → String → Bool → Action PolicyVerdict
timed_policy req actor true = decide req actor deny "INVALID_TIME"
timed_policy req actor false = do
  now ← read_clock
  expired ← is_due req.expires_at now
  late_policy req actor expired

policy_after : TaskRequest → String → Option String → Action PolicyVerdict
policy_after req actor (some reason) = decide req actor deny reason
policy_after req actor none = do
  backwards ← is_due req.expires_at req.requested_at
  timed_policy req actor backwards

unfoldable pub evaluate_policy : TaskRequest → String → Action PolicyVerdict
unfolding policy_after timed_policy late_policy verdict_of
evaluate_policy req actor = do
  refusal ← reads (λ k. early_refusal k req actor)
  policy_after req actor refusal
