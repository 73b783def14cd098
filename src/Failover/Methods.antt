-- ===== src/Failover/Methods.antt =====
-- `run`, `reconcile` and `compensate` of `class Simulator` in src/cybercore/failover_sim.py.
pub mod Rules
pub mod Safety
pub mod Settled
pub mod Fencing
pub mod FailClosed
mod Tests
use cyber_core.Base.{
  ℕ, String, Bool, true, false, ◌&&◌, ◌||◌, not, Option, none, some, [], ◌∷◌, lookup, ◌==◌,
  string_eq, is_some, if◌then◌else◌,
}
use cyber_core.Base.Text.{concat}
use cyber_core.Base.Exec.{Result, ok, err, Exec, pure, raise, raise_if, reads, modify, ◌>>=◌, ◌>>◌}
use cyber_core.Failover.Types.{
  Error, unsafe_effect, simulated_crash, audit_unavailable, key_error, Lease, Request, Row, OpState,
  executing, verifying, unknown, recovering, stopped, succeeded, recovery_failed, recovery_blocked,
  is_terminal,
}
use cyber_core.Failover.Journal
use cyber_core.Failover.Provider
use cyber_core.Failover.Provider.{Observation, Receipt}
use cyber_core.Failover.Simulator.{Simulator, Action, on_journal, on_provider}
use cyber_core.Failover.Simulator.Checks.{Report, gates}
use cyber_core.Failover.Simulator.Transition.{Note, because, effect_seen, transition}

-- A transition to a state that the method then returns.
pub finish : Request → OpState → String → Action OpState
finish req state reason = do transition req state (because reason); pure state

-- `try: ... except UnsafeEffect`: the message of the error that was caught, or the value.
abbrev caught : {A : Type 0} → Result Error A → Result Error (Result String A)
caught (ok a) = ok (ok a)
caught (err (unsafe_effect message)) = ok (err message)
caught (err (simulated_crash message)) = err (simulated_crash message)
caught (err (audit_unavailable message)) = err (audit_unavailable message)
caught (err key_error) = err key_error

attempt : {A : Type 0} → Action A → Action (Result String A)
attempt m s = let (r, s') = m s in (caught r, s')

-- `crash == name`
pub crash_is : Option String → String → Bool
crash_is none name = false
crash_is (some at) name = at == name

generation_of : Request → Simulator → Option ℕ
generation_of req s =
    if Provider.validate_target s.provider req.target
    then lookup req.target s.provider.generation
    else some 0

or_key_error : {A : Type 0} → Option A → Action A
or_key_error none = raise key_error
or_key_error (some a) = pure a

-- The end of `run`: the effect is durable in the provider, and its health decides.
verify_run : Request → Option String → Result String String → Action OpState
verify_run req crash (err message) = finish req stopped message
verify_run req crash (ok receipt) = do
  raise_if (crash_is crash "after_effect")
      (simulated_crash "Kato stopped after effect before acknowledgement")
  transition req verifying (effect_seen receipt)
  seen ← on_provider (Provider.observe req.target req.operation_id)
  if seen.healthy then finish req succeeded "" else finish req unknown "health failed after effect"

dispatch_run : Request → Option String → Option Lease → Action OpState
dispatch_run req crash none = finish req unknown "lost lease"
dispatch_run req crash (some held) = do
  outcome ←
      attempt (on_provider (Provider.mutate req.target req.action held.epoch req.operation_id))
  verify_run req crash outcome

-- `run` once EXECUTING is durable: all gates are sampled again at the effect boundary.
execute_run : Request → Option String → Action OpState
execute_run req crash = do
  report ← reads (gates req)
  if report.passed
      then (do
        held ← reads (λ s. Journal.current_lease req.target s.journal)
        dispatch_run req crash held)
      else finish req stopped report.reason

-- `run` once PREPARED is durable.
checked_run : Request → Option String → Action OpState
checked_run req crash = do
  report ← reads (gates req)
  if report.passed
      then (do
        raise_if (crash_is crash "before_effect")
            (simulated_crash "Kato stopped after durable PREPARED")
        transition req executing (because "")
        raise_if (crash_is crash "during_effect")
            (simulated_crash "Kato lost after EXECUTING checkpoint")
        execute_run req crash)
      else finish req stopped report.reason

pub run : Request → Option String → Action OpState
run req crash = do
  known ← reads (λ s. is_some (Journal.get req.operation_id s.journal))
  raise_if known (unsafe_effect "duplicate operation ID; reconcile instead")
  found ← reads (generation_of req)
  generation ← or_key_error found
  now ← reads (λ s. s.now)
  on_journal (Journal.begin req generation now)
  checked_run req crash

-- The fields that `reconcile` and `compensate` hold against the row.
pub same_intent : Row → Request → Bool
same_intent row req =
    row.actor == req.actor
    && row.target == req.target
    && row.action == req.action
    && row.tier == req.tier
    && row.policy_hash == req.policy_hash
    && row.correlation_id == req.correlation_id

redispatch : Request → Option Lease → Action OpState
redispatch req none = finish req unknown "lease vanished"
redispatch req (some held) = do
  receipt ← on_provider (Provider.mutate req.target req.action held.epoch req.operation_id)
  transition req verifying (effect_seen receipt)
  seen ← on_provider (Provider.observe req.target req.operation_id)
  if seen.healthy
      then finish req succeeded "provider health verified"
      else finish req unknown "effect unhealthy"

retry_gated : Request → Action OpState
retry_gated req = do
  report ← reads (gates req)
  if report.passed
      then (do
        transition req executing (because "safe idempotent re-dispatch")
        held ← reads (λ s. Journal.current_lease req.target s.journal)
        redispatch req held)
      else finish req stopped report.reason

-- What `reconcile` does with the observation.
settle : Request → Bool → Bool → Option Receipt → Action OpState
settle req retry healthy (some receipt) = do
  transition req verifying (effect_seen receipt.op_id)
  if healthy then finish req succeeded "" else finish req unknown "observed unhealthy service"
settle req retry healthy none = do
  safe ← reads (λ s. retry && s.provider.idempotency && s.provider.fencing)
  if safe then retry_gated req else finish req unknown "effect not provably absent"

settle_observed : Request → Bool → Result String Observation → Action OpState
settle_observed req retry (err message) = finish req unknown message
settle_observed req retry (ok seen) = settle req retry seen.healthy seen.receipt

reconcile_row : Request → Bool → Option Row → Action OpState
reconcile_row req retry none = raise (unsafe_effect "nothing to reconcile")
reconcile_row req retry (some row) = if is_terminal row.state then pure row.state else do
  raise_if (not (same_intent row req))
      (unsafe_effect "reconciliation request conflicts with durable intent")
  seen ← attempt (on_provider (Provider.observe req.target req.operation_id))
  settle_observed req retry seen

pub reconcile : Request → Bool → Action OpState
reconcile req retry = do
  found ← reads (λ s. Journal.get req.operation_id s.journal)
  reconcile_row req retry found

pub restore_key : Request → String
restore_key req = concat (req.operation_id ∷ ":restore" ∷ [])

verify_restore : Request → Result String String → Action OpState
verify_restore req (err message) = finish req recovery_failed message
verify_restore req (ok op) = do
  transition req verifying (effect_seen op)
  seen ← on_provider (Provider.observe req.target (restore_key req))
  if seen.healthy
      then finish req succeeded "restored health verified"
      else finish req recovery_failed "compensation health check failed"

dispatch_restore : Request → Option Lease → Action OpState
dispatch_restore req none = finish req recovery_blocked "lease missing"
dispatch_restore req (some held) = do
  outcome ←
      attempt (on_provider (Provider.mutate req.target "restore" held.epoch (restore_key req)))
  verify_restore req outcome

abbrev pub is_unresolved : OpState → Bool
is_unresolved unknown = true
is_unresolved recovering = true
is_unresolved _ = false

-- `restore_req`
abbrev pub restore_request : Request → Request
restore_request req = record req { action = "restore" }

gated_compensate : Request → Action OpState
gated_compensate req = do
  report ← reads (gates (restore_request req))
  if report.passed
      then (do
        transition req recovering (because "approved distinct restore effect")
        held ← reads (λ s. Journal.current_lease req.target s.journal)
        dispatch_restore req held)
      else finish req recovery_blocked report.reason

compensate_row : Request → Option Row → Action OpState
compensate_row req none = raise (unsafe_effect "compensation requires an unresolved operation")
compensate_row req (some row) = do
  raise_if (not (is_unresolved row.state))
      (unsafe_effect "compensation requires an unresolved operation")
  raise_if (not (same_intent row req))
      (unsafe_effect "compensation request conflicts with durable intent")
  gated_compensate req

pub compensate : Request → Action OpState
compensate req = do
  found ← reads (λ s. Journal.get req.operation_id s.journal)
  compensate_row req found
