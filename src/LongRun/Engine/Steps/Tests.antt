-- ===== src/LongRun/Engine/Steps/Tests.antt =====
-- Runs of the engine of src/cybercore/longrun/engine.py on concrete inputs, and its theorems there.
use mathlib.Core.Option.{some_inj}
use cyber_core.Base.{
  subst, ◌||◌, ℕ, ◌+◌, String, true, false, ◌≡◌, refl, Option, none, some, List, [], ◌∷◌, map,
  lookup, insert, contains, any, all, ◌==◌, string_eq, eq_iff, arith,
}
use cyber_core.Base.Int.{pos, leb_ℤ, ◌+ℤ◌}
use cyber_core.Base.Float.{nan, of_int, zero_float, ◌+f◌, ◌-f◌, le_float, max_float, is_finite}
use cyber_core.Base.Text.{is_blank, concat, decimal}
use cyber_core.Base.Exec.{Result, ok, err, ◌>>=◌}
use cyber_core.LongRun.Types.{
  RunState, Status, running, completed, blocked, StepProposal, StepResult, Evidence,
  EvaluationResult, no_fields, Error, runtime_error,
}
use cyber_core.LongRun.Evaluation.{evaluation_failure}
use cyber_core.LongRun.Manifest.{ModelBinding, Manifest, manifest_failure}
use cyber_core.LongRun.Manifest.Validity.{IsValid, manifest_failure-IsValid}
use cyber_core.LongRun.Store
use cyber_core.LongRun.Store.{Store}
use cyber_core.LongRun.Governor.{authorize_step, value, evaluate_watchdog}
use cyber_core.LongRun.Governor.Authority.{IsAuthorized}
use cyber_core.LongRun.Engine.{
  Callbacks, Machine, call, on_store, persist, load_or_create, watchdog,
}
use cyber_core.LongRun.Engine.Results.{executed, is_exhausted}
use cyber_core.LongRun.Engine.Results.Grounds.{IsCompletion}
use cyber_core.LongRun.Engine.Steps.{run_step, run_until_terminal, is_terminal}
use cyber_core.LongRun.Engine.Steps.Safety.{run-Safe}
use cyber_core.LongRun.Engine.Steps.Log.{IsAppended, run-IsAppended}
use cyber_core.LongRun.Engine.Steps.Contract.{run-settled}
use cyber_core.LongRun.Engine.Steps.Budget.{halted, run-halted}
use cyber_core.LongRun.Engine.Steps.Completed.{run_step-IsCompletion}

abbrev binding : String → String → ModelBinding
binding id role = record { binding_id = id; role = role; provider_id = "local"; model_id = "model" }

abbrev mission : Manifest
mission = record {
  run_id = "marathon-test";
  objective = "prove durable autonomous execution";
  minimum_wall_seconds = pos 0;
  maximum_wall_seconds = pos 3600;
  evaluator_threshold = of_int (pos 1);
  checkpoint_every_steps = pos 1;
  max_consecutive_failures = pos 3;
  max_duplicate_steps = pos 2;
  evidence_required = true;
  independent_evaluation_required = true;
  allowed_effects = "read" ∷ "sandbox_write" ∷ [];
  prohibited_effects = "production_write" ∷ [];
  model_bindings = binding "p" "planner" ∷ binding "e" "evaluator" ∷ [];
  metadata = [];
}

mission_valid : manifest_failure mission ≡ none
unfolding manifest_failure is_blank leb_ℤ le_float of_int any contains
mission_valid = refl

-- A world: the seconds passed, and the effects executed.
abbrev World : Type 0
World = ℕ × List String

abbrev proposal : String → StepProposal
proposal effect = record {
  fingerprint = "step-1";
  expected_quality_gain = of_int (pos 2);
  expected_information_gain = of_int (pos 1);
  cost = zero_float;
  risk = zero_float;
  duplication_probability = zero_float;
  effect = effect;
}

abbrev report : StepResult
report = record {
  success = true;
  evidence = record { digest = ok "digest"; is_empty = false; encode_failure = none };
}

abbrev judgement : String → EvaluationResult
judgement digest = record {
  evaluator_id = "tests.independent-judge";
  evaluator_version = "1";
  score = of_int (pos 1);
  verdict = "PASS";
  reasons = "evaluated step-1" ∷ [];
  evidence_digest = digest;
  metadata = no_fields;
}

abbrev callbacks : String → String → Callbacks World
callbacks effect digest = record {
  clock = λ w. (of_int (pos w.0), (w.0 + 1, w.1));
  planner = λ state w. (ok (proposal effect), w);
  executor = λ p w. (ok report, (w.0, p.effect ∷ w.1));
  evaluator = some (λ p r w. ((ok (some (judgement digest)), r.evidence), w));
  manifest_digest = λ m. m.objective;
}

abbrev fresh : Machine World
fresh = record { store = Store.init; world = (0, []) }

abbrev summary :
    Result Error RunState × Machine World → Result Error Status × List String × List String
summary (ok s, e) = (ok s.status, map (λ x. x.kind) e.store.events, e.world.1)
summary (err x, e) = (err x, map (λ y. y.kind) e.store.events, e.world.1)

-- A run of at most three steps; its line opens the code that it runs.
run : String → String → Machine World → Result Error RunState × Machine World
unfolding run_until_terminal run_step load_or_create call on_store persist executed is_exhausted
    watchdog evaluate_watchdog authorize_step value evaluation_failure is_terminal Store.load
    Store.create_with_event Store.save_with_event Store.append_row Store.update_row
    Store.encode_failure lookup insert contains any is_blank leb_ℤ ◌+ℤ◌ of_int ◌+f◌ ◌-f◌ le_float
    max_float ◌>>=◌ concat decimal is_finite
run effect digest e = run_until_terminal mission (callbacks effect digest) 3 e

completes :
    summary (run "read" "digest" fresh)
    ≡ (ok completed, "RUN_STARTED" ∷ "STEP_RESULT" ∷ [], "read" ∷ [])
unfolding run
completes = refl

blocks :
    summary (run "production_write" "digest" fresh)
    ≡ (ok blocked, "RUN_STARTED" ∷ "STEP_BLOCKED" ∷ [], [])
unfolding run
blocks = refl

-- An evaluation of other evidence
misjudged :
    summary (run "read" "other" fresh)
    ≡ (ok blocked, "RUN_STARTED" ∷ "EVALUATION_INVALID" ∷ [], "read" ∷ [])
unfolding run
misjudged = refl

-- No comparison holds of NaN, so that a proposal of no value at all is authorized.
authorizes_nan :
    (authorize_step
      (record (proposal "read") { cost = nan })
      mission.allowed_effects
      mission.prohibited_effects).0
    ≡ true
unfolding authorize_step value contains of_int ◌+f◌ ◌-f◌ le_float ◌+ℤ◌
authorizes_nan = refl

abbrev given : Callbacks World
given = callbacks "read" "digest"

abbrev active_run : RunState
active_run = record {
  run_id = "marathon-test";
  manifest_digest = mission.objective;
  status = running;
  step_index = 0;
  consecutive_failures = 0;
  last_step_fingerprint = none;
  duplicate_count = 0;
  evaluator_score = zero_float;
  started_at = zero_float;
  updated_at = zero_float;
}

abbrev holding : RunState → Machine World
holding stored = record {
  store = record { runs = ("marathon-test", stored) ∷ []; events = []; last_id = 0 };
  world = (1, []);
}

-- Every effect that has been executed is a read.
abbrev IsReading : World → Type 0
IsReading w = all (λ effect. effect == "read" || effect == "sandbox_write") w.1 ≡ true

executes_allowed :
    (p : StepProposal)
    → IsAuthorized mission p
    → (w : World) → IsReading w
    → IsReading (w.0, p.effect ∷ w.1)
unfolding all contains
executes_allowed p a w h = ground (
  arith,
  a.allowed,
  h,
  eq_iff p.effect "read",
  eq_iff "read" p.effect,
  eq_iff p.effect "sandbox_write",
  eq_iff "sandbox_write" p.effect,
)

run-Safe_example : IsReading (run_until_terminal mission given 3 fresh).1.world
run-Safe_example =
    run-Safe IsReading mission given 3 fresh (λ w h. h) (λ state w h. h) executes_allowed
      (λ f same p r w h. keeps f same p r w h) (unfold all in refl)
  where
    keeps :
        (f : StepProposal
          → StepResult
          → World
          → (Result String (Option EvaluationResult) × Evidence) × World)
        → given.evaluator ≡ some f
        → (p : StepProposal) (r : StepResult) (w : World) → IsReading w
        → IsReading (f p r w).1
    keeps f same p r w h = subst (λ g. IsReading (g p r w).1) (some_inj.0 same) h

run-IsAppended_example : IsAppended fresh.store (run_until_terminal mission given 3 fresh).1.store
run-IsAppended_example = run-IsAppended mission given 3 fresh

abbrev finished : RunState
finished = record active_run { status = completed }

run-settled_example :
    (run_step mission given (holding finished) ≡ (ok finished, holding finished))
    × (run_until_terminal mission given 3 (holding finished) ≡ (ok finished, holding finished))
unfolding Store.load lookup is_terminal
run-settled_example = run-settled mission given 3 (holding finished) finished refl refl refl

abbrev foreign : RunState
foreign = record active_run { manifest_digest = "another mission" }

abbrev mismatch : Error
mismatch = runtime_error "manifest digest mismatch; immutable mission contract changed"

completed_step :
    (s : RunState) × ((run_step mission given (holding active_run)).0 ≡ ok s)
    × (s.status ≡ completed)
unfolding run
completed_step = (_, refl, refl)

run_step-IsCompletion_example :
    IsCompletion mission given (holding active_run).world completed_step.0
unfolding Store.load lookup
run_step-IsCompletion_example =
    run_step-IsCompletion mission given (holding active_run) active_run completed_step.0 refl refl
      completed_step.1 completed_step.2

manifest_failure-IsValid_example : IsValid mission
manifest_failure-IsValid_example = manifest_failure-IsValid mission mission_valid

abbrev overdue : Machine World
overdue = record { store = (holding active_run).store; world = (5000, []) }

run-halted_example :
    let (r, after) = run_step mission given overdue in
    (r ≡ ok (halted mission given overdue active_run))
    × (after.world ≡ (5001, []))
    × (run_until_terminal mission given 3 after
        ≡ (ok (halted mission given overdue active_run), after))
unfolding Store.load lookup le_float of_int ◌-f◌ ◌+ℤ◌ leb_ℤ
run-halted_example = run-halted mission given overdue active_run 3 refl refl refl refl refl
