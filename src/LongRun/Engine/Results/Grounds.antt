-- ===== src/LongRun/Engine/Results/Grounds.antt =====
-- The grounds of the status COMPLETED of src/cybercore/longrun/engine.py.
use cyber_core.Base.{String, true, false, ◌≡◌, Option, none, some, string_eq}
use cyber_core.Base.Float.{of_int, le_float, ◌-f◌}
use cyber_core.Base.Exec.{Result, ok}
use cyber_core.LongRun.Types.{
  RunState, completed, StepProposal, StepResult, Evidence, EvaluationResult,
}
use cyber_core.LongRun.Evaluation.{evaluation_failure}
use cyber_core.LongRun.Manifest.{Manifest}
use cyber_core.LongRun.Governor.Authority.{IsAuthorized}
use cyber_core.LongRun.Engine.{Callbacks}

-- The worlds in which a step that starts in a world calls the planner, the executor and the evaluator: the
-- clock is read before each.
module _ {W : Type 0} (c : Callbacks W) (start : W) where
  abbrev pub planning : W
  planning = (c.clock start).1

  abbrev pub executing : RunState → W
  executing asked = (c.clock (c.planner asked planning).1).1

  abbrev pub judging : RunState → StepProposal → W
  judging asked proposal = (c.clock (c.executor proposal (executing asked)).1).1

-- The grounds of a completed run: what the planner proposed in this step was authorized, what the executor
-- returned for it succeeded with evidence that has a digest, what the evaluator returned for these is a
-- valid evaluation of that evidence, which it left as it was, and passed with a sufficient score, and the
-- elapsed time is within the two budgets.
pub record IsCompletion {W : Type 0} (m : Manifest) (c : Callbacks W) (start : W) (s : RunState)
    : Type 0 where
  pub asked : RunState
  pub proposal : StepProposal
  pub proposed : (c.planner asked (planning c start)).0 ≡ ok proposal
  pub last : s.last_step_fingerprint ≡ some proposal.fingerprint
  pub authorized : IsAuthorized m proposal
  pub result : StepResult
  pub returned : (c.executor proposal (executing c start asked)).0 ≡ ok result
  pub succeeded : result.success ≡ true
  pub digest : String
  pub digested : result.evidence.digest ≡ ok digest
  pub backed : m.evidence_required ≡ true → result.evidence.is_empty ≡ false
  pub evaluation : EvaluationResult
  pub evaluator :
      StepProposal → StepResult → W → (Result String (Option EvaluationResult) × Evidence) × W
  pub configured : c.evaluator ≡ some evaluator
  pub left : Evidence
  pub judged :
      (evaluator proposal result (judging c start asked proposal)).0 ≡ (ok (some evaluation), left)
  pub unchanged : left.digest ≡ ok digest
  pub valid : evaluation_failure evaluation digest ≡ none
  pub verdict : evaluation.verdict ≡ "PASS"
  pub score : le_float m.evaluator_threshold evaluation.score ≡ true
  pub long_enough : le_float (of_int m.minimum_wall_seconds) (s.updated_at -f s.started_at) ≡ true
  pub in_time : le_float (of_int m.maximum_wall_seconds) (s.updated_at -f s.started_at) ≡ false

abbrev pub IsGrounded : {W : Type 0} → Manifest → Callbacks W → W → RunState → Type 0
IsGrounded m c start s = s.status ≡ completed → IsCompletion m c start s
