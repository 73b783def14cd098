-- ===== src/LongRun/Engine/Steps.antt =====
-- `run_step` and `run_until_terminal` of src/cybercore/longrun/engine.py.
pub mod Rules
pub mod Completed
pub mod Safety
mod Tests
pub mod Log
pub mod Contract
pub mod Budget
use cyber_core.Base.{
  ℕ, zero, suc, ◌+◌, String, Bool, true, false, ◌&&◌, not, Option, none, some, List, [], ◌∷◌, ◌++◌,
  ◌==◌, string_eq, if◌then◌else◌, is_some,
}
use cyber_core.Base.Float.{Float, ◌-f◌, zero_float, of_int, le_float, max_float}
use cyber_core.Base.Exec.{Result, ok, err, pure, raise, reads, ◌>>=◌, ◌>>◌}
use cyber_core.LongRun.Types.{
  RunState, Status, running, completed, stopped, blocked, StepProposal, StepResult, Evidence,
  EvaluationResult, Payload, Value, text, flag, number, status, evidence, evaluation, Error,
  planner_error, executor_error, evaluator_error, runtime_error, encode_error,
}
use cyber_core.LongRun.Evaluation.{evaluation_failure}
use cyber_core.LongRun.Manifest.{Manifest}
use cyber_core.LongRun.Governor.{
  value, authorize_step, WatchdogAction, stop, replan, continue, WatchdogDecision,
}
use cyber_core.LongRun.Engine.{Callbacks, Machine, Action, call, persist, load_or_create, watchdog}
use cyber_core.LongRun.Engine.Results.{Attempt, attempt, executed, is_exhausted}

unfoldable pub is_terminal : Status → Bool
is_terminal completed = true
is_terminal stopped = true
is_terminal blocked = true
is_terminal running = false

is_stopped : Status → Bool
is_stopped stopped = true
is_stopped _ = false

module _ {W : Type 0} (m : Manifest) (c : Callbacks W) where
  block : RunState → String → String → String → Action W RunState
  block state fingerprint kind reason = do
    now ← call c.clock
    persist (record state { status = blocked; updated_at = now }) kind
        (("fingerprint", text fingerprint) ∷ ("reason", text reason) ∷ [])

  perform : RunState → StepProposal → Action W RunState
  unfolding executed
  perform state proposal = do
    outcome ← call (c.executor proposal)
    executed m c (attempt state proposal) outcome

  authorize : RunState → StepProposal → Bool × String → Action W RunState
  unfolding perform block
  authorize state proposal (false, reason) = block state proposal.fingerprint "STEP_BLOCKED" reason
  authorize state proposal (true, reason) =
      if m.independent_evaluation_required && not (is_some c.evaluator)
      then block state proposal.fingerprint "EVALUATION_BLOCKED"
          "independent evaluator is required but not configured"
      else perform state proposal

  stop_run : RunState → Float → Payload → Action W RunState
  stop_run state now payload =
      persist (record state { status = stopped; updated_at = now }) "WATCHDOG_STOP" payload

  watch_plan : RunState → StepProposal → Float → WatchdogAction → String → Action W RunState
  unfolding authorize stop_run
  watch_plan state proposal now stop reason =
      stop_run state now (("reason", text reason) ∷ ("phase", text "post_planning") ∷ [])
  watch_plan state proposal now _ reason =
      authorize state proposal (authorize_step proposal m.allowed_effects m.prohibited_effects)

  planned : RunState → Result String StepProposal → Action W RunState
  unfolding watch_plan is_exhausted
  planned state (err name) = do
    now ← call c.clock
    let late = is_exhausted m c state now
    let reached = if late then stopped else state.status
    let failed : RunState = record state {
      status = reached;
      step_index = state.step_index + 1;
      consecutive_failures = state.consecutive_failures + 1;
      updated_at = now;
    }
    persist failed "PLANNER_EXCEPTION" (
        ("exception_type", text name)
        ∷ ("status", status reached)
        ∷ (if is_stopped reached
            then ("terminal_reason", text "maximum wall budget exhausted during planning") ∷ []
            else []))
    raise (planner_error name)
  planned state (ok proposal) = do
    now ← call c.clock
    let decision = watchdog m c state now
    watch_plan state proposal now decision.action decision.reason

  plan : RunState → Action W RunState
  unfolding planned
  plan state = do outcome ← call (c.planner state); planned state outcome

  watch : RunState → Float → WatchdogAction → String → Action W RunState
  unfolding plan stop_run
  watch state now stop reason = stop_run state now (("reason", text reason) ∷ [])
  watch state now replan reason = do
    replanned ←
        persist
          (record state {
            consecutive_failures = 0;
            duplicate_count = 0;
            last_step_fingerprint = none;
            updated_at = now;
          })
          "WATCHDOG_REPLAN" (("reason", text reason) ∷ [])
    plan replanned
  watch state now continue reason = plan state

  step : RunState → Action W RunState
  unfolding watch
  step state = if is_terminal state.status then pure state else do
    now ← call c.clock
    let decision = watchdog m c state now
    watch state now decision.action decision.reason

  unfoldable pub run_step : Action W RunState
  unfolding step is_stopped
  run_step = do state ← load_or_create m c; step state

  -- The loop, for a number of steps.
  repeat : ℕ → RunState → Action W RunState
  repeat zero state = pure state
  repeat (suc steps) state =
      if is_terminal state.status then pure state else do reached ← run_step; repeat steps reached

  unfoldable pub run_until_terminal : ℕ → Action W RunState
  unfolding repeat
  run_until_terminal max_steps = do state ← load_or_create m c; repeat max_steps state
