-- ===== src/Failover/Simulator/Checks.antt =====
-- `Simulator.gates` of src/cybercore/failover_sim.py: what is checked before each transition.
use cyber_core.Base.{
  ℕ, String, Bool, true, false, ◌&&◌, ◌||◌, not, Option, none, some, lookup, contains, ◌==◌,
  string_eq, nat_eq, if◌then◌else◌,
}
use cyber_core.Base.Int.{leb_ℤ}
use cyber_core.Failover.Types.{Capability, Lease, Decision, allow, deny, unknown, Verdict, Request}
use cyber_core.Failover.Keys.{triple_eq, pair_eq}
use cyber_core.Failover.Journal
use cyber_core.Failover.Journal.{Journal, Change}
use cyber_core.Failover.Provider
use cyber_core.Failover.Provider.{Provider}
use cyber_core.Failover.Simulator.{Simulator}

-- The tuple that `gates` returns.
pub record Report : Type 0 where
  pub passed : Bool
  pub reason : String
  pub capability_id : String
  pub lease_id : String
  pub epoch : ℕ
  pub verdict : String

abbrev refuse : String → Report
refuse reason = record {
  passed = false;
  reason = reason;
  capability_id = "";
  lease_id = "";
  epoch = 0;
  verdict = "";
}

unfoldable pub decision_text : Decision → String
decision_text allow = "ALLOW"
decision_text deny = "DENY"
decision_text unknown = "UNKNOWN"

abbrev is_allow : Decision → Bool
is_allow allow = true
is_allow _ = false

unfoldable pub is_usable_verdict : Simulator → Request → Verdict → Bool
is_usable_verdict s req v =
    is_allow v.decision
    && v.valid
    && not (leb_ℤ v.expires s.now)
    && v.policy_hash == req.policy_hash

unfoldable pub is_usable_capability : Simulator → Request → Capability → Bool
is_usable_capability s req cap = not (leb_ℤ cap.expires s.now) && cap.policy_hash == req.policy_hash

-- `lease.epoch != self.provider.epochs[target]`; a target without an epoch has no usable lease.
unfoldable pub has_epoch : Option ℕ → ℕ → Bool
has_epoch none epoch = false
has_epoch (some current) epoch = epoch == current

unfoldable pub is_usable_lease : Simulator → Request → Lease → Bool
unfolding has_epoch
is_usable_lease s req held =
    held.holder == req.actor
    && not (leb_ℤ held.expires s.now)
    && s.provider.fencing
    && has_epoch (lookup req.target s.provider.epochs) held.epoch

unfoldable pub verdict_gate : Simulator → Request → Capability → Lease → Option Verdict → Report
verdict_gate s req cap held none = record {
  passed = false;
  reason = "VOODOO veto/timeout/corrupt verdict";
  capability_id = cap.capability_id;
  lease_id = held.lease_id;
  epoch = held.epoch;
  verdict = "UNKNOWN";
}
verdict_gate s req cap held (some v) =
    if is_usable_verdict s req v
    then record {
      passed = true;
      reason = "";
      capability_id = cap.capability_id;
      lease_id = held.lease_id;
      epoch = held.epoch;
      verdict = "ALLOW";
    }
    else record {
      passed = false;
      reason = "VOODOO veto/timeout/corrupt verdict";
      capability_id = cap.capability_id;
      lease_id = held.lease_id;
      epoch = held.epoch;
      verdict = decision_text v.decision;
    }

abbrev lease_refusal : Capability → Report
lease_refusal cap = record {
  passed = false;
  reason = "exclusive fenced lease missing or stale";
  capability_id = cap.capability_id;
  lease_id = "";
  epoch = 0;
  verdict = "";
}

unfoldable pub lease_gate : Simulator → Request → Capability → Option Lease → Report
unfolding verdict_gate
lease_gate s req cap none = lease_refusal cap
lease_gate s req cap (some held) =
    if is_usable_lease s req held
    then verdict_gate s req cap held (lookup (req.target, req.action) s.verdicts)
    else lease_refusal cap

unfoldable pub capability_gate : Simulator → Request → Option Capability → Report
unfolding lease_gate
capability_gate s req none = refuse "capability missing, expired or wrong policy"
capability_gate s req (some cap) =
    if is_usable_capability s req cap
    then lease_gate s req cap (Journal.current_lease req.target s.journal)
    else refuse "capability missing, expired or wrong policy"

abbrev approved_by : Option String → String → Bool
approved_by none name = false
approved_by (some who) name = who == name

-- A tier that wants a human approval has one, of this operation.
unfoldable pub is_approved : Simulator → Request → Bool
is_approved s req =
    not (req.tier == "AMBER" || req.tier == "RED")
    || (approved_by req.human_approval "Jan Kočí" && contains s.human_approvals req.operation_id)

unfoldable pub is_tier : String → Bool
is_tier tier = tier == "GREEN" || tier == "AMBER" || tier == "RED"

unfoldable pub gates : Request → Simulator → Report
unfolding capability_gate
gates req s =
    if req.production
    then refuse "production forbidden"
    else if not (Provider.validate_target s.provider req.target)
    then refuse "target not a local fake"
    else if not (Provider.is_effect req.action)
    then refuse "invalid action"
    else if not req.inventory_fresh || not req.restore_verified
    then refuse "stale inventory or untested restore"
    else if not (is_tier req.tier)
    then refuse "unrecognized risk tier"
    else if Journal.in_flight req.target req.operation_id s.journal
    then refuse "unreconciled prior operation on target"
    else if not (is_approved s req)
    then refuse "explicit scoped Jan approval missing"
    else capability_gate s req (lookup (req.actor, req.target, req.action) s.capabilities)
