-- ===== src/LongRun/Engine/Results/Rules.antt =====
-- What the clock, the evaluator and the store keep, the engine of src/cybercore/longrun/engine.py keeps
-- from the executor's answer on.
use cyber_core.Base.{String, ◌≡◌, Option, none, some}
use cyber_core.Base.Float.{Float}
use cyber_core.Base.Exec.{Result, ok, err}
use cyber_core.Base.Exec.Preserves.{Preserves, Preserves-bind, preserves_rules}
use cyber_core.LongRun.Types.{
  RunState, StepProposal, StepResult, Evidence, EvaluationResult, Payload, Error, encode_error,
  planner_error, executor_error, evaluator_error, runtime_error, value_error, integrity_error,
}
use cyber_core.LongRun.Manifest.{Manifest}
use cyber_core.LongRun.Engine.{Callbacks, Machine, Action, call, persist}
use cyber_core.LongRun.Engine.Results.{
  Attempt, try, refuse_evaluation, conclude, refuse_now, validated, typed, evaluated, evaluate,
  or_unstored, digested, executed,
}

module _ {W : Type 0} {P : Machine W → Type 0} where
  Preserves-try : {A : Type 0} (method : Action W A) → Preserves P method → Preserves P (try method)
  unfolding try
  Preserves-try method kept = record { after = kept.after }

module _ {W : Type 0} {P : Machine W → Type 0} (m : Manifest) (c : Callbacks W)
    (on_clock : Preserves P (call c.clock))
    (on_persist : (state : RunState) (kind : String) (payload : Payload)
      → Preserves P (persist state kind payload)) where
  Preserves-refuse_evaluation :
      (a : Attempt) (digest kind reason : String) (now : Float)
      → Preserves P (refuse_evaluation m c a digest kind reason now)
  unfolding refuse_evaluation
  Preserves-refuse_evaluation a digest kind reason now = search (preserves_rules, on_persist)

  Preserves-refuse_now :
      (a : Attempt) (digest reason : String) → Preserves P (refuse_now m c a digest reason)
  unfolding refuse_now
  Preserves-refuse_now a digest reason = search (preserves_rules, on_clock)

  Preserves-or_unstored :
      (a : Attempt) (now : Float) (r : Result Error RunState)
      → Preserves P (or_unstored m c a now r)
  unfolding or_unstored
  Preserves-or_unstored a now (ok state) = search preserves_rules
  Preserves-or_unstored a now (err (encode_error name)) = search (preserves_rules, on_persist)
  Preserves-or_unstored a now (err (planner_error name)) = search preserves_rules
  Preserves-or_unstored a now (err (executor_error name)) = search preserves_rules
  Preserves-or_unstored a now (err (evaluator_error name)) = search preserves_rules
  Preserves-or_unstored a now (err (value_error name)) = search preserves_rules
  Preserves-or_unstored a now (err (runtime_error name)) = search preserves_rules
  Preserves-or_unstored a now (err (integrity_error name)) = search preserves_rules

  Preserves-conclude :
      (a : Attempt) (result : StepResult) (digest : String) (found : Option EvaluationResult)
      → Preserves P (conclude m c a result digest found)
  unfolding conclude
  Preserves-conclude a result digest found =
      Preserves-bind _ _ on_clock
        (λ now. search (preserves_rules, on_persist, Preserves-try, Preserves-or_unstored))

  Preserves-validated :
      (a : Attempt) (result : StepResult) (digest : String) (e : EvaluationResult)
      (failure : Option String)
      → Preserves P (validated m c a result digest e failure)
  unfolding validated
  Preserves-validated a result digest e none = Preserves-conclude a result digest (some e)
  Preserves-validated a result digest e (some message) = Preserves-refuse_now a digest message

  Preserves-typed :
      (a : Attempt) (result : StepResult) (digest : String) (found : Option EvaluationResult)
      → Preserves P (typed m c a result digest found)
  unfolding typed
  Preserves-typed a result digest none = search (Preserves-refuse_now)
  Preserves-typed a result digest (some e) = search (Preserves-validated)

  Preserves-evaluated :
      (a : Attempt) (result : StepResult) (digest : String)
      (answer : Result String (Option EvaluationResult) × Evidence)
      → Preserves P (evaluated m c a result digest answer)
  unfolding evaluated
  Preserves-evaluated a result digest (err name, left) =
      Preserves-bind _ _ on_clock (λ now. search (preserves_rules, on_persist))
  Preserves-evaluated a result digest (ok found, left) =
      search (preserves_rules, Preserves-typed, Preserves-refuse_now)

  module _
      (on_evaluator : (f : StepProposal
          → StepResult
          → W
          → (Result String (Option EvaluationResult) × Evidence) × W)
        → c.evaluator ≡ some f
        → (proposal : StepProposal) (result : StepResult)
        → Preserves P (call (f proposal result))) where
    Preserves-evaluate :
        (a : Attempt) (result : StepResult) (digest : String)
        (evaluator : Option (
          StepProposal → StepResult → W → (Result String (Option EvaluationResult) × Evidence) × W))
        → c.evaluator ≡ evaluator
        → Preserves P (evaluate m c a result digest evaluator)
    unfolding evaluate
    Preserves-evaluate a result digest none e = Preserves-conclude a result digest none
    Preserves-evaluate a result digest (some f) e =
        Preserves-bind _ _ (on_evaluator f e a.proposal result)
          (λ answer. Preserves-evaluated a result digest answer)

    Preserves-digested :
        (a : Attempt) (result : StepResult) (now : Float) (digest : Result String String)
        → Preserves P (digested m c a result now digest)
    unfolding digested
    Preserves-digested a result now (err name) = search (preserves_rules, on_persist)
    Preserves-digested a result now (ok digest) = search (preserves_rules, Preserves-evaluate)

    pub executed-rule :
        (a : Attempt) (outcome : Result String StepResult) → Preserves P (executed m c a outcome)
    unfolding executed
    executed-rule a (err name) =
        Preserves-bind _ _ on_clock (λ now. search (preserves_rules, on_persist))
    executed-rule a (ok result) =
        Preserves-bind _ _ on_clock (λ now. Preserves-digested a result now result.evidence.digest)
