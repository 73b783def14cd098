-- ===== src/LongRun/Engine/Steps/Rules.antt =====
-- What the callbacks, the clock and the store keep, a run of src/cybercore/longrun/engine.py keeps; the
-- executor is asked only for what is authorized.
use cyber_core.Base.{
  ℕ, zero, suc, String, Bool, true, false, ◌≡◌, refl, Option, none, some, string_eq,
}
use cyber_core.Base.Float.{Float}
use cyber_core.Base.Exec.{Result, ok, err}
use cyber_core.Base.Exec.Preserves.{
  Preserves, Preserves-bind, Preserves-if, Preserves-pure, Preserves-reads, preserves_rules,
}
use cyber_core.LongRun.Types.{
  RunState, StepProposal, StepResult, Evidence, EvaluationResult, Payload,
}
use cyber_core.LongRun.Manifest.{Manifest}
use cyber_core.LongRun.Store
use cyber_core.LongRun.Governor.{authorize_step, WatchdogAction, stop, replan, continue}
use cyber_core.LongRun.Governor.Authority.{IsAuthorized, authorize_step-IsAuthorized}
use cyber_core.LongRun.Engine.{Callbacks, Machine, on_store, call, persist, load_or_create, resume}
use cyber_core.LongRun.Engine.Results.{attempt}
use cyber_core.LongRun.Engine.Results.Rules.{executed-rule}
use cyber_core.LongRun.Engine.Steps.{
  block, perform, authorize, stop_run, watch_plan, planned, plan, watch, step, run_step, repeat,
  run_until_terminal,
}

abbrev pub Evaluator : Type 0 → Type 0
Evaluator W =
    StepProposal → StepResult → W → (Result String (Option EvaluationResult) × Evidence) × W

-- What each call keeps.
pub record Kept {W : Type 0} (P : Machine W → Type 0) (m : Manifest) (c : Callbacks W)
    : Type 0 where
  pub clock : Preserves P (call c.clock)
  pub planner : (state : RunState) → Preserves P (call (c.planner state))
  pub executor : (p : StepProposal) → IsAuthorized m p → Preserves P (call (c.executor p))
  pub evaluator :
      (f : Evaluator W)
      → c.evaluator ≡ some f
      → (p : StepProposal) (result : StepResult) → Preserves P (call (f p result))
  pub persisted :
      (state : RunState) (kind : String) (payload : Payload)
      → Preserves P (persist state kind payload)
  pub created :
      (state : RunState) (kind : String) (payload : Payload) (now : Float)
      → Preserves P (on_store (Store.create_with_event state kind payload now))

module _ {W : Type 0} {P : Machine W → Type 0} (m : Manifest) (c : Callbacks W)
    (kept : Kept P m c) where
  Preserves-block :
      (state : RunState) (fingerprint kind reason : String)
      → Preserves P (block m c state fingerprint kind reason)
  unfolding block
  Preserves-block state fingerprint kind reason =
      Preserves-bind _ _ kept.clock (λ now. kept.persisted _ kind _)

  Preserves-perform :
      (state : RunState) (p : StepProposal) → IsAuthorized m p → Preserves P (perform m c state p)
  unfolding perform
  Preserves-perform state p authorized = Preserves-bind _ _ (kept.executor p authorized) (λ outcome.
      executed-rule m c kept.clock kept.persisted kept.evaluator (attempt state p) outcome)

  Preserves-authorize :
      (state : RunState) (p : StepProposal) (allowed : Bool) (reason : String)
      → (allowed ≡ true → IsAuthorized m p)
      → Preserves P (authorize m c state p (allowed, reason))
  unfolding authorize
  Preserves-authorize state p false reason h = Preserves-block state _ _ reason
  Preserves-authorize state p true reason h =
      Preserves-if _ _ _ (Preserves-block state _ _ _) (Preserves-perform state p (h refl))

  Preserves-decided :
      (state : RunState) (p : StepProposal)
      → Preserves P
          (authorize m c state p (authorize_step p m.allowed_effects m.prohibited_effects))
  Preserves-decided state p =
      let (allowed, reason) = authorize_step p m.allowed_effects m.prohibited_effects in
      Preserves-authorize state p allowed reason (authorize_step-IsAuthorized m p)

  Preserves-watch_plan :
      (state : RunState) (p : StepProposal) (now : Float) (action : WatchdogAction)
      (reason : String)
      → Preserves P (watch_plan m c state p now action reason)
  unfolding watch_plan stop_run
  Preserves-watch_plan state p now stop reason = kept.persisted _ _ _
  Preserves-watch_plan state p now replan reason = Preserves-decided state p
  Preserves-watch_plan state p now continue reason = Preserves-decided state p

  Preserves-planned :
      (state : RunState) (outcome : Result String StepProposal)
      → Preserves P (planned m c state outcome)
  unfolding planned
  Preserves-planned state (err name) =
      Preserves-bind _ _ kept.clock (λ now. search (preserves_rules, kept.persisted))
  Preserves-planned state (ok p) =
      Preserves-bind _ _ kept.clock (λ now. Preserves-watch_plan state p now _ _)

  Preserves-plan : (state : RunState) → Preserves P (plan m c state)
  unfolding plan
  Preserves-plan state =
      Preserves-bind _ _ (kept.planner state) (λ outcome. Preserves-planned state outcome)

  Preserves-watch :
      (state : RunState) (now : Float) (action : WatchdogAction) (reason : String)
      → Preserves P (watch m c state now action reason)
  unfolding watch stop_run
  Preserves-watch state now stop reason = kept.persisted _ _ _
  Preserves-watch state now replan reason =
      Preserves-bind _ _ (kept.persisted _ _ _) (λ replanned. Preserves-plan replanned)
  Preserves-watch state now continue reason = Preserves-plan state

  Preserves-step : (state : RunState) → Preserves P (step m c state)
  unfolding step
  Preserves-step state =
      Preserves-if _ _ _ (Preserves-pure state)
        (Preserves-bind _ _ kept.clock (λ now. Preserves-watch state now _ _))

  Preserves-resume : (existing : Option RunState) → Preserves P (resume m c existing)
  unfolding resume
  Preserves-resume none =
      Preserves-bind _ _ kept.clock (λ now. search (preserves_rules, kept.created))
  Preserves-resume (some existing) = search preserves_rules

  Preserves-load_or_create : Preserves P (load_or_create m c)
  unfolding load_or_create
  Preserves-load_or_create = Preserves-bind _ _ (Preserves-reads _) Preserves-resume

  pub run_step-rule : Preserves P (run_step m c)
  unfolding run_step
  run_step-rule = Preserves-bind _ _ Preserves-load_or_create Preserves-step

  Preserves-repeat : (n : ℕ) (state : RunState) → Preserves P (repeat m c n state)
  unfolding repeat
  Preserves-repeat zero state = search preserves_rules
  Preserves-repeat (suc n) state =
      Preserves-if _ _ _ (Preserves-pure state)
        (Preserves-bind _ _ run_step-rule (Preserves-repeat n))

  pub run_until_terminal-rule : (n : ℕ) → Preserves P (run_until_terminal m c n)
  unfolding run_until_terminal
  run_until_terminal-rule n = Preserves-bind _ _ Preserves-load_or_create (Preserves-repeat n)
