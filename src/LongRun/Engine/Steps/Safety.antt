-- ===== src/LongRun/Engine/Steps/Safety.antt =====
-- What a run of src/cybercore/longrun/engine.py does to the world and to its store.
use cyber_core.Base.{ℕ, String, ◌≡◌, some}
use cyber_core.Base.Exec.{Result, ◌>>=◌}
use cyber_core.Base.Exec.Preserves.{Preserves, Preserves-bind, Preserves-pure}
use cyber_core.LongRun.Types.{RunState, StepProposal, StepResult, Payload, Error}
use cyber_core.LongRun.Manifest.{Manifest}
use cyber_core.LongRun.Governor.Authority.{IsAuthorized}
use cyber_core.LongRun.Store.{Store}
use cyber_core.LongRun.Engine.{Callbacks, Machine, on_store, call, persist}
use cyber_core.LongRun.Engine.Steps.{run_until_terminal}
use cyber_core.LongRun.Engine.Steps.Rules.{Evaluator, run_until_terminal-rule}

module _ {W : Type 0} (Safe : W → Type 0) where
  abbrev SafeMachine : Machine W → Type 0
  SafeMachine e = Safe e.world

  call-Safe :
      {A : Type 0} (f : W → A × W)
      → ((w : W) → Safe w → Safe (f w).1)
      → Preserves SafeMachine (call f)
  unfolding call
  call-Safe f safe = record { after = λ e h. safe e.world h }

  on_store-Safe :
      {A : Type 0} (method : Store → Result Error A × Store)
      → Preserves SafeMachine (on_store method)
  unfolding on_store ◌>>=◌
  on_store-Safe method = record { after = λ e h. h }

  persist-Safe :
      (state : RunState) (kind : String) (payload : Payload)
      → Preserves SafeMachine (persist state kind payload)
  unfolding persist
  persist-Safe state kind payload = Preserves-bind _ _ (on_store-Safe _) (λ _. Preserves-pure state)

-- Whatever the executor keeps of the world on the proposals that the mission allows, a run keeps, for any
-- number of steps, however it ends, if the clock, the planner and the evaluator keep it: the
-- executor is never asked for a prohibited effect, for one that is not listed, or for a proposal whose
-- expected value is zero or less.
pub run-Safe :
    {W : Type 0} (Safe : W → Type 0) (m : Manifest) (c : Callbacks W) (steps : ℕ) (e : Machine W)
    → ((w : W) → Safe w → Safe (c.clock w).1)
    → ((state : RunState) (w : W) → Safe w → Safe (c.planner state w).1)
    → ((p : StepProposal) → IsAuthorized m p → (w : W) → Safe w → Safe (c.executor p w).1)
    → ((f : Evaluator W)
        → c.evaluator ≡ some f
        → (p : StepProposal) (r : StepResult) (w : W) → Safe w
        → Safe (f p r w).1)
    → Safe e.world
    → Safe (run_until_terminal m c steps e).1.world
run-Safe Safe m c steps e clock planner executor evaluator =
    (run_until_terminal-rule m c
        record {
          clock = call-Safe Safe c.clock clock;
          planner = λ state. call-Safe Safe (c.planner state) (planner state);
          executor = λ p allowed. call-Safe Safe (c.executor p) (executor p allowed);
          evaluator = λ f given p r. call-Safe Safe (f p r) (evaluator f given p r);
          persisted = persist-Safe Safe;
          created = λ state kind payload now. on_store-Safe Safe _;
        }
        steps).after
      e
