-- ===== src/LongRun/Engine/Results/Completion.antt =====
-- What the status COMPLETED of src/cybercore/longrun/engine.py rests on, from the executor's answer on.
use cyber_core.Base.{
  subst, ap, ◌∙◌, String, true, false, ◌≡◌, refl, ◌&&◌, Option, none, some, string_eq, eq_iff,
  arith,
}
use mathlib.Core.Option.{some_inj}
use cyber_core.Base.Float.{Float}
use cyber_core.Base.Exec.{Result, ok, err, ◌>>=◌}
use cyber_core.Base.Exec.Returns.{
  ReturnsAt, ReturnsAt-if, Returns, Returns-bind, Returns-bind-knowing, Returns-pure, Returns-raise,
  Returns-if,
}
use cyber_core.LongRun.Types.{
  RunState, running, StepProposal, StepResult, Evidence, EvaluationResult, Payload, Error,
  encode_error, planner_error, executor_error, evaluator_error, runtime_error, value_error,
  integrity_error,
}
use cyber_core.LongRun.Evaluation.{evaluation_failure}
use cyber_core.LongRun.Manifest.{Manifest}
use cyber_core.LongRun.Governor.Authority.{IsAuthorized}
use cyber_core.LongRun.Engine.{Callbacks, Machine, Action, persist, call}
use cyber_core.LongRun.Engine.Results.{
  Attempt, try, refuse_evaluation, conclude, refuse_now, validated, typed, evaluated, evaluate,
  or_unstored, digested, executed, new_state, passes, is_exhausted, blocked_state, is_unchanged,
}
use cyber_core.LongRun.Engine.Results.Grounds.{IsGrounded, planning, executing, judging}

-- A call of the application, from a state
pub call-ReturnsAt :
    {W A B : Type 0} {Good : B → Type 0} (f : W → A × W) (rest : A → Action W B)
    (before : Machine W)
    → ReturnsAt Good (rest (f before.world).0) (record before { world = (f before.world).1 })
    → ReturnsAt Good (call f >>= rest) before
unfolding call ◌>>=◌
call-ReturnsAt f rest before h = h

pub persist-Returns :
    {W : Type 0} (Good : RunState → Type 0) (s : RunState) (kind : String) (payload : Payload)
    → Good s
    → Returns Good (persist {W = W} s kind payload)
unfolding persist
persist-Returns Good s kind payload good = Returns-bind _ _ (λ _. Returns-pure s good)

-- What is known of the returned value is known of the caught one.
abbrev Caught : (RunState → Type 0) → Result Error RunState → Type 0
Caught Good r = (s : RunState) → r ≡ ok s → Good s

caught_eq :
    (q r : Result Error RunState) {caught : Result Error (Result Error RunState)}
    → caught ≡ ok q
    → caught ≡ ok r
    → q ≡ r
caught_eq q r first second = ground (arith, first, second)

try-Returns :
    {W : Type 0} {Good : RunState → Type 0} (method : Action W RunState)
    → Returns Good method
    → Returns (Caught Good) (try method)
unfolding try
try-Returns method good = record {
  returned = λ before r e s returned. good.returned before s (caught_eq _ r refl e ∙ returned);
}

or_unstored-IsGrounded :
    {W : Type 0} (m : Manifest) (c : Callbacks W) (start : W) (a : Attempt) (now : Float)
    (r : Result Error RunState)
    → Caught (IsGrounded m c start) r
    → Returns (IsGrounded m c start) (or_unstored m c a now r)
unfolding or_unstored
or_unstored-IsGrounded m c start a now (ok s) known = Returns-pure s (known s refl)
or_unstored-IsGrounded m c start a now (err (encode_error name)) known =
    Returns-bind _ _ (λ _. Returns-raise _)
or_unstored-IsGrounded m c start a now (err (planner_error name)) known = Returns-raise _
or_unstored-IsGrounded m c start a now (err (executor_error name)) known = Returns-raise _
or_unstored-IsGrounded m c start a now (err (evaluator_error name)) known = Returns-raise _
or_unstored-IsGrounded m c start a now (err (value_error name)) known = Returns-raise _
or_unstored-IsGrounded m c start a now (err (runtime_error name)) known = Returns-raise _
or_unstored-IsGrounded m c start a now (err (integrity_error name)) known = Returns-raise _

refuse_evaluation-IsGrounded :
    {W : Type 0} (m : Manifest) (c : Callbacks W) (start : W) (a : Attempt)
    (digest kind reason : String) (now : Float)
    → Returns (IsGrounded m c start) (refuse_evaluation m c a digest kind reason now)
unfolding refuse_evaluation
refuse_evaluation-IsGrounded m c start a digest kind reason now =
    persist-Returns (IsGrounded m c start) (blocked_state a now) kind _
      (λ done. ground (arith, done))

-- A copy of the evidence that is unchanged has the digest.
is_unchanged-digest :
    {W : Type 0} (m : Manifest) (c : Callbacks W) (found : Result String String) (digest : String)
    → is_unchanged m c found digest ≡ true
    → found ≡ ok digest
unfolding is_unchanged
is_unchanged-digest m c (err name) digest h = absurd (ground (arith, h))
is_unchanged-digest m c (ok left) digest h = ap (λ d. ok d) ((eq_iff left digest).0 h)

module _ {W : Type 0} (m : Manifest) (c : Callbacks W) (start : W) (asked : RunState) (a : Attempt)
    (active : a.state.status ≡ running) (authorized : IsAuthorized m a.proposal)
    (proposed : (c.planner asked (planning c start)).0 ≡ ok a.proposal) (result : StepResult)
    (returned : (c.executor a.proposal (executing c start asked)).0 ≡ ok result) where
  -- What the evaluator of the step returned is a valid evaluation of the evidence, which it left as it was.
  record IsJudged (digest : String) (e : EvaluationResult) : Type 0 where
    evaluator :
        StepProposal → StepResult → W → (Result String (Option EvaluationResult) × Evidence) × W
    configured : c.evaluator ≡ some evaluator
    left : Evidence
    judged :
        (evaluator a.proposal result (judging c start asked a.proposal)).0 ≡ (ok (some e), left)
    unchanged : left.digest ≡ ok digest
    valid : evaluation_failure e digest ≡ none

  module _ (digest : String) (digested_as : result.evidence.digest ≡ ok digest)
      (backed : m.evidence_required ≡ true → result.evidence.is_empty ≡ false) where
    new_state-IsGrounded :
        (found : Option EvaluationResult) (now : Float)
        → ((e : EvaluationResult) → found ≡ some e → IsJudged digest e)
        → IsGrounded m c start (new_state m c a result found now)
    unfolding new_state passes is_exhausted
    new_state-IsGrounded none now valid done = ground (arith, done)
    new_state-IsGrounded (some e) now valid done = record {
      asked = asked;
      proposal = a.proposal;
      proposed = proposed;
      returned = returned;
      evaluator = (valid e refl).evaluator;
      configured = (valid e refl).configured;
      left = (valid e refl).left;
      judged = (valid e refl).judged;
      unchanged = (valid e refl).unchanged;
      last = refl;
      authorized = authorized;
      result = result;
      succeeded = ground (arith, done, active);
      digest = digest;
      digested = digested_as;
      backed = backed;
      evaluation = e;
      valid = (valid e refl).valid;
      verdict = ground (arith, done, active, eq_iff e.verdict "PASS");
      score = ground (arith, done, active);
      long_enough = ground (arith, done, active);
      in_time = ground (arith, done, active);
    }

    refuse_now-IsGrounded :
        (reason : String) → Returns (IsGrounded m c start) (refuse_now m c a digest reason)
    unfolding refuse_now
    refuse_now-IsGrounded reason =
        Returns-bind _ _ (λ now. refuse_evaluation-IsGrounded m c start a digest _ reason now)

    conclude-IsGrounded :
        (found : Option EvaluationResult)
        → ((e : EvaluationResult) → found ≡ some e → IsJudged digest e)
        → Returns (IsGrounded m c start) (conclude m c a result digest found)
    unfolding conclude
    conclude-IsGrounded found valid = Returns-bind _ _ (λ now.
        Returns-bind-knowing _ _
          (try-Returns _
            (persist-Returns (IsGrounded m c start) _ _ _ (new_state-IsGrounded found now valid)))
          (λ stored known. or_unstored-IsGrounded m c start a now stored known))

    module _
        (f : StepProposal
          → StepResult
          → W
          → (Result String (Option EvaluationResult) × Evidence) × W)
        (configured : c.evaluator ≡ some f) where
      validated-IsGrounded :
          (e : EvaluationResult) (left : Evidence) (failure : Option String)
          → (f a.proposal result (judging c start asked a.proposal)).0 ≡ (ok (some e), left)
          → left.digest ≡ ok digest
          → evaluation_failure e digest ≡ failure
          → Returns (IsGrounded m c start) (validated m c a result digest e failure)
      unfolding validated
      validated-IsGrounded e left (some message) judged unchanged h = refuse_now-IsGrounded message
      validated-IsGrounded e left none judged unchanged h =
          conclude-IsGrounded (some e) (λ other same.
            subst (IsJudged digest) (some_inj.0 same) (record {
              evaluator = f;
              configured = configured;
              left = left;
              judged = judged;
              unchanged = unchanged;
              valid = h;
            }))

      typed-IsGrounded :
          (found : Option EvaluationResult) (left : Evidence)
          → (f a.proposal result (judging c start asked a.proposal)).0 ≡ (ok found, left)
          → left.digest ≡ ok digest
          → Returns (IsGrounded m c start) (typed m c a result digest found)
      unfolding typed
      typed-IsGrounded none left judged unchanged = refuse_now-IsGrounded _
      typed-IsGrounded (some e) left judged unchanged =
          validated-IsGrounded e left _ judged unchanged refl

      evaluated-IsGrounded :
          (answer : Result String (Option EvaluationResult) × Evidence)
          → (f a.proposal result (judging c start asked a.proposal)).0 ≡ answer
          → Returns (IsGrounded m c start) (evaluated m c a result digest answer)
      unfolding evaluated
      evaluated-IsGrounded (err name, left) judged =
          Returns-bind _ _ (λ now. Returns-bind _ _ (λ _. Returns-raise _))
      evaluated-IsGrounded (ok found, left) judged =
          Returns-if (is_unchanged m c left.digest digest) _
            (refuse_now m c a digest "evaluator mutated executor evidence snapshot")
            (λ same. typed-IsGrounded found left judged (is_unchanged-digest m c _ digest same))
            (λ changed. refuse_now-IsGrounded _)

    evaluate-IsGrounded :
        (evaluator : Option (
          StepProposal → StepResult → W → (Result String (Option EvaluationResult) × Evidence) × W))
        (before : Machine W)
        → c.evaluator ≡ evaluator
        → judging c start asked a.proposal ≡ before.world
        → ReturnsAt (IsGrounded m c start) (evaluate m c a result digest evaluator) before
    unfolding evaluate
    evaluate-IsGrounded none before e world =
        (conclude-IsGrounded none (λ e impossible. ground (arith, impossible))).returned before
    evaluate-IsGrounded (some f) before e world =
        call-ReturnsAt (f a.proposal result) _ before
          ((evaluated-IsGrounded f e _ (ap (λ w. (f a.proposal result w).0) world)).returned _)

  digested-IsGrounded :
      (now : Float) (digest : Result String String) (before : Machine W)
      → result.evidence.digest ≡ digest
      → judging c start asked a.proposal ≡ before.world
      → ReturnsAt (IsGrounded m c start) (digested m c a result now digest) before
  unfolding digested
  digested-IsGrounded now (err name) before h world =
      (Returns-bind {Good = IsGrounded m c start} _ _ (λ _. Returns-raise _)).returned before
  digested-IsGrounded now (ok digest) before h world =
      let reason : String = "executor evidence is required but empty" in
      ReturnsAt-if (m.evidence_required && result.evidence.is_empty)
        (refuse_evaluation m c a digest "EVALUATION_BLOCKED" reason now)
        (evaluate m c a result digest c.evaluator) before
        (λ bare. (refuse_evaluation-IsGrounded m c start a digest _ reason now).returned before)
        (λ full.
          evaluate-IsGrounded digest h (λ wanted. ground (arith, full, wanted)) c.evaluator before
            refl world)

pub executed-IsGrounded :
    {W : Type 0} (m : Manifest) (c : Callbacks W) (start : W) (asked : RunState) (a : Attempt)
    → a.state.status ≡ running
    → IsAuthorized m a.proposal
    → (c.planner asked (planning c start)).0 ≡ ok a.proposal
    → (outcome : Result String StepResult) (before : Machine W)
    → c.executor a.proposal (executing c start asked) ≡ (outcome, before.world)
    → ReturnsAt (IsGrounded m c start) (executed m c a outcome) before
unfolding executed
executed-IsGrounded m c start asked a active authorized proposed (err name) before e =
    (Returns-bind {Good = IsGrounded m c start} _ _
        (λ now. Returns-bind _ _ (λ _. Returns-raise _))).returned
      before
executed-IsGrounded m c start asked a active authorized proposed (ok result) before e =
    call-ReturnsAt c.clock _ before (
      digested-IsGrounded m c start asked a active authorized proposed result (ap (λ x. x.0) e) _ _
        _ refl (ap (λ x. (c.clock x.1).1) e))
