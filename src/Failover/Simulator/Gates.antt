-- ===== src/Failover/Simulator/Gates.antt =====
-- What the gates of src/cybercore/failover_sim.py demand, stated without their order.
use cyber_core.Base.{some_of_ne-none, true, false, ◌≡◌, ◌↔◌, some, lookup, string_eq, arith, eq_iff}
use cyber_core.Base.Int.{leb_ℤ}
use cyber_core.Failover.Types.{Capability, Lease, Verdict, allow, Request}
use cyber_core.Failover.Keys.{triple_eq, pair_eq}
use cyber_core.Failover.Journal
use cyber_core.Failover.Provider
use cyber_core.Failover.Simulator.{Simulator}
use cyber_core.Failover.Simulator.Checks.{
  gates, capability_gate, lease_gate, verdict_gate, is_usable_capability, is_usable_lease,
  is_usable_verdict, is_approved, is_tier, has_epoch,
}

-- The authority that an effect rests on: independent facts of the request and of the state.
pub record IsAuthorized (req : Request) (s : Simulator) : Type 0 where
  pub simulated : req.production ≡ false
  pub fake : Provider.validate_target s.provider req.target ≡ true
  pub effect : Provider.is_effect req.action ≡ true
  pub fresh : req.inventory_fresh ≡ true
  pub restorable : req.restore_verified ≡ true
  pub tier : is_tier req.tier ≡ true
  pub alone : Journal.in_flight req.target req.operation_id s.journal ≡ false
  pub approved : is_approved s req ≡ true
  pub capability : Capability
  pub granted : lookup (req.actor, req.target, req.action) s.capabilities ≡ some capability
  pub capability_lives : leb_ℤ capability.expires s.now ≡ false
  pub capability_policy : capability.policy_hash ≡ req.policy_hash
  pub held : Lease
  pub leased : Journal.current_lease req.target s.journal ≡ some held
  pub holder : held.holder ≡ req.actor
  pub lease_lives : leb_ℤ held.expires s.now ≡ false
  pub fencing : s.provider.fencing ≡ true
  pub epoch : lookup req.target s.provider.epochs ≡ some held.epoch
  pub verdict : Verdict
  pub judged : lookup (req.target, req.action) s.verdicts ≡ some verdict
  pub allowed : verdict.decision ≡ allow
  pub valid : verdict.valid ≡ true
  pub verdict_lives : leb_ℤ verdict.expires s.now ≡ false
  pub verdict_policy : verdict.policy_hash ≡ req.policy_hash

IsAuthorized-passed :
    (req : Request) (s : Simulator) → IsAuthorized req s → (gates req s).passed ≡ true
unfolding gates capability_gate lease_gate verdict_gate is_usable_capability is_usable_lease
    is_usable_verdict has_epoch
IsAuthorized-passed req s a = ground (
  arith,
  eq_iff a.capability.policy_hash req.policy_hash,
  eq_iff a.held.holder req.actor,
  eq_iff a.verdict.policy_hash req.policy_hash,
)

-- The three lookups of a report that passed.
passed_lookups :
    (req : Request) (s : Simulator)
    → (gates req s).passed ≡ true
    → ((cap : Capability) × (lookup (req.actor, req.target, req.action) s.capabilities ≡ some cap))
      × ((held : Lease) × (Journal.current_lease req.target s.journal ≡ some held))
      × ((v : Verdict) × (lookup (req.target, req.action) s.verdicts ≡ some v))
unfolding gates capability_gate lease_gate verdict_gate
passed_lookups req s h = (
  some_of_ne-none _ (λ e. ground arith),
  some_of_ne-none _ (λ e. ground arith),
  some_of_ne-none _ (λ e. ground arith),
)

pub passed-IsAuthorized :
    (req : Request) (s : Simulator) → (gates req s).passed ≡ true → IsAuthorized req s
unfolding gates capability_gate lease_gate verdict_gate is_usable_capability is_usable_lease
    is_usable_verdict has_epoch
passed-IsAuthorized req s h =
    let ((cap, granted), (held, leased), (v, judged)) = passed_lookups req s h in
    record {
      simulated = ground arith;
      fake = ground arith;
      effect = ground arith;
      fresh = ground arith;
      restorable = ground arith;
      tier = ground arith;
      alone = ground arith;
      approved = ground arith;
      capability = cap;
      granted = granted;
      capability_lives = ground arith;
      capability_policy = ground (arith, eq_iff cap.policy_hash req.policy_hash);
      held = held;
      leased = leased;
      holder = ground (arith, eq_iff held.holder req.actor);
      lease_lives = ground arith;
      fencing = ground arith;
      epoch = ground arith;
      verdict = v;
      judged = judged;
      allowed = ground arith;
      valid = ground arith;
      verdict_lives = ground arith;
      verdict_policy = ground (arith, eq_iff v.policy_hash req.policy_hash);
    }

-- The gates pass a request exactly when it is authorized.
pub gates_iff : (req : Request) (s : Simulator) → ((gates req s).passed ≡ true) ↔ IsAuthorized req s
gates_iff req s = (passed-IsAuthorized req s, IsAuthorized-passed req s)
