-- ===== src/LongRun/Engine.antt =====
-- `LongRunEngine` of src/cybercore/longrun/engine.py. The clock and the callbacks belong to the
-- application: each may do anything to the world outside, and what it raises is a value.
pub mod Results
pub mod Steps
use cyber_core.Base.{
  ℕ, ◌+◌, String, Bool, true, false, ◌&&◌, not, Option, none, some, List, [], ◌∷◌, ◌==◌, string_eq,
  if◌then◌else◌,
}
use cyber_core.Base.Float.{Float, ◌-f◌, zero_float}
use cyber_core.Base.Exec.{
  Result, ok, err, Exec, pure, raise, reads, modify, raise_if, zoom, ◌>>=◌, ◌>>◌,
}
use cyber_core.LongRun.Types.{
  RunState, Status, running, completed, stopped, blocked, StepProposal, StepResult, Evidence,
  EvaluationResult, Payload, Value, text, Error, planner_error, value_error, runtime_error,
}
use cyber_core.LongRun.Manifest.{Manifest, manifest_failure}
use cyber_core.LongRun.Store
use cyber_core.LongRun.Store.{Store}
use cyber_core.LongRun.Governor.{WatchdogDecision, evaluate_watchdog}

-- What the constructor is given. An evaluator gets its own copy of the evidence: what it left of
-- it comes back, and `none` stands for an answer that is no evaluation.
pub record Callbacks (W : Type 0) : Type 0 where
  pub clock : W → Float × W
  pub planner : RunState → W → Result String StepProposal × W
  pub executor : StepProposal → W → Result String StepResult × W
  pub evaluator :
      Option
        (StepProposal → StepResult → W → (Result String (Option EvaluationResult) × Evidence) × W)
  -- the SHA-256 of the canonical JSON of a manifest
  pub manifest_digest : Manifest → String

pub record Machine (W : Type 0) : Type 0 where
  pub store : Store
  pub world : W

abbrev pub Action : Type 0 → Type 0 → Type 0
Action W A = Exec Error (Machine W) A

module _ {W : Type 0} where
  unfoldable pub on_store : {A : Type 0} → Exec Error Store A → Action W A
  unfolding ◌>>=◌
  on_store method = zoom (λ e. e.store) (λ s e. record e { store = s }) method

  -- A call of the application.
  unfoldable pub call : {A : Type 0} → (W → A × W) → Action W A
  call f e = let (a, w) = f e.world in (ok a, record e { world = w })

  unfoldable pub persist : RunState → String → Payload → Action W RunState
  persist state kind payload = do
    on_store (Store.save_with_event state kind payload state.updated_at)
    pure state

-- `__init__`; the flag says whether one callback is given for both the executor and the evaluator.
pub start : Manifest → Bool → Option Error
start m same = refusal (manifest_failure m)
  where
    refusal : Option String → Option Error
    refusal (some message) = some (value_error message)
    refusal none =
        if same
        then some (value_error "executor and independent evaluator must be different callbacks")
        else none

module _ {W : Type 0} (m : Manifest) (c : Callbacks W) where
  initial_state : Float → RunState
  initial_state now = record {
    run_id = m.run_id;
    manifest_digest = c.manifest_digest m;
    status = running;
    step_index = 0;
    consecutive_failures = 0;
    last_step_fingerprint = none;
    duplicate_count = 0;
    evaluator_score = zero_float;
    started_at = now;
    updated_at = now;
  }

  resume : Option RunState → Action W RunState
  resume none = do
    now ← call c.clock
    let state = initial_state now
    on_store (
        Store.create_with_event state "RUN_STARTED"
          (("manifest_digest", Value.text state.manifest_digest) ∷ []) state.started_at)
    pure state
  resume (some existing) = do
    raise_if (not (existing.manifest_digest == c.manifest_digest m))
        (runtime_error "manifest digest mismatch; immutable mission contract changed")
    pure existing

  unfoldable pub load_or_create : Action W RunState
  unfolding resume initial_state
  load_or_create = do existing ← reads (λ e. Store.load m.run_id e.store); resume existing

  unfoldable pub watchdog : RunState → Float → WatchdogDecision
  watchdog state now =
      evaluate_watchdog (now -f state.started_at) m.maximum_wall_seconds state.consecutive_failures
        m.max_consecutive_failures state.duplicate_count m.max_duplicate_steps
