-- ===== src/Failover/Simulator/Transition.antt =====
-- `Simulator._transition` of src/cybercore/failover_sim.py: the journaled transition.
use cyber_core.Base.{
  String, Bool, true, Option, none, some, [], ◌∷◌, ◌++◌, string_eq, nat_eq, if◌then◌else◌,
}
use cyber_core.Base.Text.{concat}
use cyber_core.Base.Exec.{reads, modify, ◌>>=◌, ◌>>◌}
use cyber_core.Failover.Types.{Request, OpState, is_alert}
use cyber_core.Failover.Keys.{triple_eq, pair_eq}
use cyber_core.Failover.Journal
use cyber_core.Failover.Journal.{Journal, Change}
use cyber_core.Failover.Simulator.{Simulator, Action, on_journal}
use cyber_core.Failover.Simulator.Checks.{Report, gates}

unfoldable pub state_text : OpState → String
state_text OpState.prepared = "PREPARED"
state_text OpState.executing = "EXECUTING"
state_text OpState.verifying = "VERIFYING"
state_text OpState.unknown = "UNKNOWN"
state_text OpState.recovering = "RECOVERING"
state_text OpState.stopped = "STOPPED"
state_text OpState.succeeded = "SUCCEEDED"
state_text OpState.recovery_failed = "RECOVERY_FAILED"
state_text OpState.recovery_blocked = "RECOVERY_BLOCKED"

unfoldable pub alert : Request → OpState → String → Simulator → Simulator
alert req state reason s =
    if is_alert state
    then record s {
      alerts =
          s.alerts ++ concat (req.operation_id ∷ ":" ∷ state_text state ∷ ":" ∷ reason ∷ []) ∷ [];
    }
    else s

-- The keyword arguments of `_transition`.
pub record Note : Type 0 where
  pub reason : String
  pub provider_op : Option String
  pub changed : Option Bool

abbrev pub because : String → Note
because reason = record { reason = reason; provider_op = none; changed = none }

abbrev pub effect_seen : String → Note
effect_seen op = record { reason = ""; provider_op = some op; changed = some true }

abbrev pub change : Report → OpState → Note → Change
change r state note = record {
  state = state;
  detail = record {
    capability_id = r.capability_id;
    lease_id = r.lease_id;
    lease_epoch = r.epoch;
    voodoo = r.verdict;
    reason = note.reason;
  };
  provider_op = note.provider_op;
  changed = note.changed;
}

-- `_transition`
unfoldable pub transition : Request → OpState → Note → Action Unit
unfolding alert state_text
transition req state note = do
  report ← reads (gates req)
  now ← reads (λ s. s.now)
  on_journal (Journal.transition req.operation_id now (change report state note))
  modify (alert req state note.reason)
