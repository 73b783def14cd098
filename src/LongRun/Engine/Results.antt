-- ===== src/LongRun/Engine/Results.antt =====
-- `run_step` of src/cybercore/longrun/engine.py, from what the executor returned on.
pub mod Rules
pub mod Grounds
pub mod Completion
use cyber_core.Base.{
  ℕ, zero, suc, ◌+◌, String, Bool, true, false, ◌&&◌, not, Option, none, some, List, [], ◌∷◌, ◌++◌,
  ◌==◌, string_eq, if◌then◌else◌, is_some,
}
use cyber_core.Base.Float.{Float, ◌-f◌, zero_float, of_int, le_float, max_float}
use cyber_core.Base.Exec.{Result, ok, err, pure, raise, reads, ◌>>=◌, ◌>>◌}
use cyber_core.LongRun.Types.{
  RunState, Status, running, completed, stopped, blocked, StepProposal, StepResult, Evidence,
  EvaluationResult, Payload, Value, text, flag, number, status, evidence, evaluation, Error,
  planner_error, executor_error, evaluator_error, runtime_error, encode_error,
}
use cyber_core.LongRun.Evaluation.{evaluation_failure}
use cyber_core.LongRun.Manifest.{Manifest}
use cyber_core.LongRun.Governor.{
  value, authorize_step, WatchdogAction, stop, replan, continue, WatchdogDecision,
}
use cyber_core.LongRun.Engine.{Callbacks, Machine, Action, call, persist, load_or_create, watchdog}

-- A proposal that has been authorized, and the count of its repetitions.
pub record Attempt : Type 0 where
  pub state : RunState
  pub proposal : StepProposal
  pub duplicate_count : ℕ

abbrev pub advance : Attempt → RunState → RunState
advance a state = record state {
  step_index = a.state.step_index + 1;
  last_step_fingerprint = some a.proposal.fingerprint;
  duplicate_count = a.duplicate_count;
}

abbrev pub failed_state : Attempt → Float → RunState
failed_state a now =
    advance a
      (record a.state { consecutive_failures = a.state.consecutive_failures + 1; updated_at = now })

abbrev pub blocked_state : Attempt → Float → RunState
blocked_state a now = advance a (record a.state { status = blocked; updated_at = now })

-- `proposal.fingerprint == state.last_step_fingerprint`
abbrev repeats : String → Option String → Bool
repeats fingerprint none = false
repeats fingerprint (some last) = fingerprint == last

abbrev pub attempt : RunState → StepProposal → Attempt
attempt state proposal = record {
  state = state;
  proposal = proposal;
  duplicate_count =
      if repeats proposal.fingerprint state.last_step_fingerprint
      then state.duplicate_count + 1
      else 0;
}

-- What a call raises, as a value.
try : {W A : Type 0} → Action W A → Action W (Result Error A)
try method e = let (r, reached) = method e in (ok r, reached)

module _ {W : Type 0} (m : Manifest) (c : Callbacks W) where
  unfoldable pub is_exhausted : RunState → Float → Bool
  is_exhausted state now = le_float (of_int m.maximum_wall_seconds) (now -f state.started_at)

  refuse_evaluation : Attempt → String → String → String → Float → Action W RunState
  refuse_evaluation a digest kind reason now = persist (blocked_state a now) kind (
      ("fingerprint", text a.proposal.fingerprint)
      ∷ ("reason", text reason)
      ∷ ("evidence_digest", text digest)
      ∷ [])

  passes : StepResult → Option EvaluationResult → Bool
  passes result none = false
  passes result (some e) =
      result.success && e.verdict == "PASS" && le_float m.evaluator_threshold e.score

  score_of : Option EvaluationResult → Float
  score_of none = zero_float
  score_of (some e) = e.score

  new_state : Attempt → StepResult → Option EvaluationResult → Float → RunState
  unfolding is_exhausted passes score_of
  new_state a result found now = advance a (record a.state {
    consecutive_failures = if result.success then 0 else a.state.consecutive_failures + 1;
    evaluator_score = max_float a.state.evaluator_score (score_of found);
    updated_at = now;
    status =
        if is_exhausted a.state now
        then stopped
        else if passes result found
            && le_float (of_int m.minimum_wall_seconds) (now -f a.state.started_at)
        then completed
        else a.state.status;
  })

  evaluation_entry : Option EvaluationResult → Payload
  evaluation_entry none = []
  evaluation_entry (some e) = ("evaluation", evaluation e) ∷ []

  result_payload :
      Attempt → StepResult → String → Option EvaluationResult → RunState → Float → Payload
  result_payload a result digest found reached now =
      ("fingerprint", text a.proposal.fingerprint)
      ∷ ("success", flag result.success)
      ∷ ("value", number (value a.proposal))
      ∷ ("evidence", evidence result.evidence)
      ∷ ("evidence_digest", text digest)
      ∷ ("status", status reached.status)
      ∷ (evaluation_entry found
          ++ (if is_exhausted a.state now
              then ("terminal_reason", text "maximum wall budget exhausted after evaluation") ∷ []
              else []))

  -- The result is stored, or its failure where it cannot be encoded.
  or_unstored : Attempt → Float → Result Error RunState → Action W RunState
  or_unstored a now (ok state) = pure state
  or_unstored a now (err (encode_error name)) = do
    persist (failed_state a now) "STEP_PERSISTENCE_FAILURE" (
        ("fingerprint", text a.proposal.fingerprint)
        ∷ ("exception_type", text name)
        ∷ ("reason", text "step result payload is not JSON serializable")
        ∷ ("value", number (value a.proposal))
        ∷ [])
    raise (runtime_error "step result payload is not JSON serializable")
  or_unstored a now (err e) = raise e

  conclude : Attempt → StepResult → String → Option EvaluationResult → Action W RunState
  unfolding new_state result_payload evaluation_entry or_unstored
  conclude a result digest found = do
    now ← call c.clock
    let reached = new_state a result found now
    stored ← try (persist reached "STEP_RESULT" (result_payload a result digest found reached now))
    or_unstored a now stored

  refuse_now : Attempt → String → String → Action W RunState
  unfolding refuse_evaluation
  refuse_now a digest reason = do
    now ← call c.clock
    refuse_evaluation a digest "EVALUATION_INVALID" reason now

  validated : Attempt → StepResult → String → EvaluationResult → Option String → Action W RunState
  unfolding conclude refuse_now
  validated a result digest e (some message) = refuse_now a digest message
  validated a result digest e none = conclude a result digest (some e)

  typed : Attempt → StepResult → String → Option EvaluationResult → Action W RunState
  unfolding validated refuse_now
  typed a result digest none = refuse_now a digest "evaluator returned an invalid result type"
  typed a result digest (some e) = validated a result digest e (evaluation_failure e digest)

  -- The evaluator's copy of the evidence still has the digest, and can be encoded at all.
  is_unchanged : Result String String → String → Bool
  is_unchanged (err name) digest = false
  is_unchanged (ok left) digest = left == digest

  evaluated :
      Attempt
      → StepResult
      → String
      → Result String (Option EvaluationResult) × Evidence
      → Action W RunState
  unfolding typed is_unchanged refuse_now
  evaluated a result digest (err name, left) = do
    now ← call c.clock
    persist (failed_state a now) "EVALUATION_EXCEPTION" (
        ("fingerprint", text a.proposal.fingerprint)
        ∷ ("exception_type", text name)
        ∷ ("evidence_digest", text digest)
        ∷ [])
    raise (evaluator_error name)
  evaluated a result digest (ok found, left) =
      if is_unchanged left.digest digest
      then typed a result digest found
      else refuse_now a digest "evaluator mutated executor evidence snapshot"

  evaluate :
      Attempt
      → StepResult
      → String
      → Option
          (StepProposal → StepResult → W → (Result String (Option EvaluationResult) × Evidence) × W)
      → Action W RunState
  unfolding conclude evaluated
  evaluate a result digest none = conclude a result digest none
  evaluate a result digest (some evaluator) = do
    answer ← call (evaluator a.proposal result)
    evaluated a result digest answer

  digested : Attempt → StepResult → Float → Result String String → Action W RunState
  unfolding evaluate refuse_evaluation
  digested a result now (err name) = do
    persist (failed_state a now) "STEP_PERSISTENCE_FAILURE" (
        ("fingerprint", text a.proposal.fingerprint)
        ∷ ("exception_type", text name)
        ∷ ("reason", text "step result evidence is not canonical JSON")
        ∷ ("value", number (value a.proposal))
        ∷ [])
    raise (runtime_error "step result evidence is not canonical JSON")
  digested a result now (ok digest) =
      if m.evidence_required && result.evidence.is_empty
      then refuse_evaluation a digest "EVALUATION_BLOCKED" "executor evidence is required but empty"
          now
      else evaluate a result digest c.evaluator

  unfoldable pub executed : Attempt → Result String StepResult → Action W RunState
  unfolding digested try
  executed a (err name) = do
    now ← call c.clock
    persist (failed_state a now) "STEP_EXCEPTION" (
        ("fingerprint", text a.proposal.fingerprint)
        ∷ ("exception_type", text name)
        ∷ ("value", number (value a.proposal))
        ∷ [])
    raise (executor_error name)
  executed a (ok result) = do now ← call c.clock; digested a result now result.evidence.digest
