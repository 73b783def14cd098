-- ===== src/LongRun/Engine/Steps/Completed.antt =====
-- A step that completes a run of src/cybercore/longrun/engine.py.
use cyber_core.Base.{
  String, Bool, true, false, ◌≡◌, refl, subst, ap, some, arith, is_some, inl, inr, Bool-cases, ◌==◌,
  ◌&&◌, not, string_eq,
}
use cyber_core.Base.Float.{Float}
use cyber_core.Base.Exec.{Result, ok, err, pure, ◌>>=◌, Result-cases}
use cyber_core.Base.Exec.Returns.{ReturnsAt, ReturnsAt-if, Returns, Returns-bind, Returns-raise}
use cyber_core.LongRun.Types.{RunState, running, completed, stopped, blocked, StepProposal, Payload}
use cyber_core.LongRun.Manifest.{Manifest}
use cyber_core.LongRun.Store
use cyber_core.LongRun.Store.{Store}
use cyber_core.LongRun.Governor.{authorize_step, WatchdogAction, stop, replan, continue}
use cyber_core.LongRun.Governor.Authority.{IsAuthorized, authorize_step-IsAuthorized}
use cyber_core.LongRun.Engine.{
  Callbacks, Machine, Action, persist, on_store, load_or_create, resume,
}
use cyber_core.LongRun.Engine.Results.{attempt}
use cyber_core.LongRun.Engine.Results.Grounds.{IsCompletion, IsGrounded, planning, executing}
use cyber_core.LongRun.Engine.Results.Completion.{
  call-ReturnsAt, persist-Returns, executed-IsGrounded,
}
use cyber_core.LongRun.Engine.Steps.{
  block, perform, authorize, stop_run, watch_plan, planned, plan, watch, step, run_step,
  is_terminal,
}

-- A state that is stored; the rest goes on from it, in the same world.
persist-ReturnsAt :
    {W A : Type 0} {Good : A → Type 0} (state : RunState) (kind : String) (payload : Payload)
    (rest : RunState → Action W A) (before : Machine W)
    → ((store : Store) → ReturnsAt Good (rest state) (record before { store = store }))
    → ReturnsAt Good (persist state kind payload >>= rest) before
unfolding persist on_store ◌>>=◌
persist-ReturnsAt state kind payload rest before h =
    elim (Result-cases (Store.save_with_event state kind payload state.updated_at before.store).0) [
      | inl (done, stored) ↦ rw stored (h _)
      | inr (e, failed) ↦ rw failed (λ a impossible. ground (arith, impossible))
    ]

module _ {W : Type 0} (m : Manifest) (c : Callbacks W) (start : W) where
  block-IsGrounded :
      (state : RunState) (fingerprint kind reason : String)
      → Returns (IsGrounded m c start) (block m c state fingerprint kind reason)
  unfolding block
  block-IsGrounded state fingerprint kind reason = Returns-bind _ _ (λ now.
      persist-Returns (IsGrounded m c start) (record state { status = blocked; updated_at = now })
        kind _ (λ done. ground (arith, done)))

  stop_run-IsGrounded :
      (state : RunState) (now : Float) (payload : _)
      → Returns (IsGrounded m c start) (stop_run m c state now payload)
  unfolding stop_run
  stop_run-IsGrounded state now payload =
      persist-Returns (IsGrounded m c start) (record state { status = stopped; updated_at = now }) _
        payload (λ done. ground (arith, done))

  module _ (state : RunState) (active : state.status ≡ running) where
    perform-IsGrounded :
        (p : StepProposal) (before : Machine W)
        → IsAuthorized m p
        → (c.planner state (planning c start)).0 ≡ ok p
        → executing c start state ≡ before.world
        → ReturnsAt (IsGrounded m c start) (perform m c state p) before
    unfolding perform
    perform-IsGrounded p before authorized proposed world = call-ReturnsAt (c.executor p) _ before (
        executed-IsGrounded m c start state (attempt state p) active authorized proposed _ _
          (ap (c.executor p) world))

    authorize-IsGrounded :
        (p : StepProposal) (allowed : Bool) (reason : String) (before : Machine W)
        → (allowed ≡ true → IsAuthorized m p)
        → (c.planner state (planning c start)).0 ≡ ok p
        → executing c start state ≡ before.world
        → ReturnsAt (IsGrounded m c start) (authorize m c state p (allowed, reason)) before
    unfolding authorize
    authorize-IsGrounded p false reason before h proposed world =
        (block-IsGrounded state _ _ reason).returned before
    authorize-IsGrounded p true reason before h proposed world =
        ReturnsAt-if (m.independent_evaluation_required && not (is_some c.evaluator))
          (block m c state p.fingerprint _ _) (perform m c state p) before
          (λ _. (block-IsGrounded state _ _ _).returned before)
          (λ _. perform-IsGrounded p before (h refl) proposed world)

    decided-IsGrounded :
        (p : StepProposal) (before : Machine W)
        → (c.planner state (planning c start)).0 ≡ ok p
        → executing c start state ≡ before.world
        → ReturnsAt
            (IsGrounded m c start)
            (authorize m c state p (authorize_step p m.allowed_effects m.prohibited_effects))
            before
    decided-IsGrounded p before =
        let (allowed, reason) = authorize_step p m.allowed_effects m.prohibited_effects in
        authorize-IsGrounded p allowed reason before (authorize_step-IsAuthorized m p)

    watch_plan-IsGrounded :
        (p : StepProposal) (now : Float) (action : WatchdogAction) (reason : String)
        (before : Machine W)
        → (c.planner state (planning c start)).0 ≡ ok p
        → executing c start state ≡ before.world
        → ReturnsAt (IsGrounded m c start) (watch_plan m c state p now action reason) before
    unfolding watch_plan
    watch_plan-IsGrounded p now stop reason before proposed world =
        (stop_run-IsGrounded state now _).returned before
    watch_plan-IsGrounded p now replan reason before proposed world =
        decided-IsGrounded p before proposed world
    watch_plan-IsGrounded p now continue reason before proposed world =
        decided-IsGrounded p before proposed world

    planned-IsGrounded :
        (outcome : Result String StepProposal) (before : Machine W)
        → c.planner state (planning c start) ≡ (outcome, before.world)
        → ReturnsAt (IsGrounded m c start) (planned m c state outcome) before
    unfolding planned
    planned-IsGrounded (err name) before e =
        (Returns-bind {Good = IsGrounded m c start} _ _
            (λ now. Returns-bind _ _ (λ _. Returns-raise _))).returned
          before
    planned-IsGrounded (ok p) before e =
        call-ReturnsAt c.clock _ before
          (watch_plan-IsGrounded p _ _ _ _ (ap (λ x. x.0) e) (ap (λ x. (c.clock x.1).1) e))

    plan-IsGrounded :
        (before : Machine W)
        → planning c start ≡ before.world
        → ReturnsAt (IsGrounded m c start) (plan m c state) before
    unfolding plan
    plan-IsGrounded before world =
        call-ReturnsAt (c.planner state) _ before
          (planned-IsGrounded _ _ (ap (c.planner state) world))

  module _ (state : RunState) (active : state.status ≡ running) where
    watch-IsGrounded :
        (now : Float) (action : WatchdogAction) (reason : String) (before : Machine W)
        → planning c start ≡ before.world
        → ReturnsAt (IsGrounded m c start) (watch m c state now action reason) before
    unfolding watch
    watch-IsGrounded now stop reason before world =
        (stop_run-IsGrounded state now _).returned before
    watch-IsGrounded now continue reason before world = plan-IsGrounded state active before world
    watch-IsGrounded now replan reason before world =
        persist-ReturnsAt _ _ _ _ before (λ store. plan-IsGrounded _ active _ world)

    step-IsGrounded :
        (before : Machine W)
        → start ≡ before.world
        → ReturnsAt (IsGrounded m c start) (step m c state) before
    unfolding step is_terminal
    step-IsGrounded before world =
        ReturnsAt-if (is_terminal state.status) (pure state) _ before
          (λ settled. absurd (ground (arith, settled, active)))
          (λ _.
            call-ReturnsAt c.clock _ before
              (watch-IsGrounded _ _ _ _ (ap (λ w. (c.clock w).1) world)))

module _ {W : Type 0} (m : Manifest) (c : Callbacks W) where
  resumed-IsGrounded :
      (stored : RunState) (before : Machine W)
      → stored.status ≡ running
      → ReturnsAt (IsGrounded m c before.world) (resume m c (some stored) >>= step m c) before
  unfolding resume ◌>>=◌
  resumed-IsGrounded stored before active =
      elim (Bool-cases (stored.manifest_digest == c.manifest_digest m)) [
        | inl same ↦ rw same (step-IsGrounded m c before.world stored active before refl)
        | inr other ↦ rw other (λ a impossible. ground (arith, impossible))
      ]

-- A step that turns a running run into a completed one has its grounds: what the planner proposed in this
-- step was authorized; what the executor returned for it succeeded, with evidence as the manifest wants it;
-- what the evaluator returned for these is a valid evaluation of just that evidence, which it left
-- unchanged, says PASS and reaches the threshold; and the time elapsed is within the minimum and the maximum
-- of the manifest.
pub run_step-IsCompletion :
    {W : Type 0} (m : Manifest) (c : Callbacks W) (e : Machine W) (stored reached : RunState)
    → Store.load m.run_id e.store ≡ some stored
    → stored.status ≡ running
    → (run_step m c e).0 ≡ ok reached
    → reached.status ≡ completed
    → IsCompletion m c e.world reached
unfolding run_step load_or_create ◌>>=◌
run_step-IsCompletion m c e stored reached found active returned done =
    resumed-IsGrounded m c stored e active reached
      (subst (λ o. ((resume m c o >>= step m c) e).0 ≡ ok reached) found returned) done
