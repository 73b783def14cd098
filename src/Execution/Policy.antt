-- ===== src/Execution/Policy.antt =====
-- src/cybercore/execution/policy.py
use cyber_core.Base.{
  String, Bool, true, false, ◌&&◌, not, List, [], ◌∷◌, contains, ◌==◌, string_eq, if◌then◌else◌,
}
use cyber_core.Base.Text.{is_blank}
use cyber_core.Execution.Protocol.{ExecutionTarget, GovernedAction}

abbrev pub vikunja_target : ExecutionTarget
vikunja_target = record {
  id = "tasks.cyberdjs.org";
  hostname = "162.35.117.219";
  ssh_user = "cybercore-exec";
  subsystem = "cybercore-exec";
}

abbrev pub supported_operations : List String
supported_operations =
    "system.inventory" ∷ "vikunja.backup.install" ∷ "vikunja.backup.run" ∷ "vikunja.backup.status"
    ∷ "vikunja.health.verify" ∷ []

abbrev pub mutating_operations : List String
mutating_operations = "vikunja.backup.install" ∷ "vikunja.backup.run" ∷ []

pub record PolicyDecision : Type 0 where
  pub allowed : Bool
  pub reason : String
  pub mutating : Bool

refuse : String → PolicyDecision
refuse reason = record { allowed = false; reason = reason; mutating = false }

same_target : ExecutionTarget → ExecutionTarget → Bool
same_target a b =
    a.id == b.id
    && a.hostname == b.hostname
    && a.ssh_user == b.ssh_user
    && a.subsystem == b.subsystem

-- `has_bound_plan`
has_bound_plan : GovernedAction → Bool
has_bound_plan action = not (is_blank action.plan_id) && not (is_blank action.plan_revision)

is_empty : {A : Type 0} → List A → Bool
is_empty [] = true
is_empty (_ ∷ _) = false

-- No operation takes arguments: `_ALLOWED_ARGUMENTS` is empty for each.
unfoldable pub evaluate_action : GovernedAction → ExecutionTarget → PolicyDecision
unfolding refuse same_target has_bound_plan is_empty
evaluate_action action target =
    if not (same_target target vikunja_target)
    then refuse "execution target is not the canonical WB-0037 target"
    else if not (action.target_id == target.id)
    then refuse "action target does not match execution target"
    else if not (contains supported_operations action.operation)
    then refuse "operation is not supported by WB-0037 V1"
    else if is_blank action.operation_id
    then refuse "operation_id is required"
    else if not (has_bound_plan action)
    then refuse "exact plan id and revision are required"
    else if is_blank action.authorization_reference
    then refuse "authorization reference is required"
    else if not (is_empty action.arguments)
    then refuse "operation arguments do not match the exact allowlist"
    else record {
      allowed = true;
      reason = "bounded action accepted";
      mutating = contains mutating_operations action.operation;
    }
