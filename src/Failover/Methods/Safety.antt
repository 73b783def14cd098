-- ===== src/Failover/Methods/Safety.antt =====
-- No effect without authority, in src/cybercore/failover_sim.py.
use cyber_core.Base.{true, ℕ, String, ◌≡◌, Option, Bool, ◌∙◌}
use cyber_core.Base.Int.{ℤ}
use cyber_core.Base.Exec.{◌>>=◌}
use cyber_core.Base.Exec.Preserves.{Preserves}
use cyber_core.Failover.Types.{Request, OpState}
use cyber_core.Failover.Journal
use cyber_core.Failover.Journal.{Journal}
use cyber_core.Failover.Journal.Rows.{any_others-insert, begin-cases}
use cyber_core.Failover.Simulator.{Simulator, on_journal}
use cyber_core.Failover.Simulator.Checks.{gates}
use cyber_core.Failover.Simulator.Transition.{Note, transition}
use cyber_core.Failover.Simulator.Gates.{IsAuthorized, passed-IsAuthorized}
use cyber_core.Failover.Simulator.Frame.{
  SameGates, SameGates-refl, SameGates-IsAuthorized, SameGates-transition, SameJournal,
}
use cyber_core.Failover.Methods.{run, reconcile, compensate, restore_request}
use cyber_core.Failover.Methods.Rules.{run-rule, reconcile-rule, compensate-rule}

-- From a state `t` in which `gated` is not authorized, a transition of the operation keeps the gates
-- shut, so that the code behind them is never reached.
module _ (gated : Request) (t : Simulator) (denied : ¬ IsAuthorized gated t) where
  never_passed :
      (s : Simulator)
      → SameGates gated.target gated.operation_id s t
      → (gates gated s).passed ≡ true
      → ⊥
  never_passed s same passed =
      denied (SameGates-IsAuthorized gated s t same (passed-IsAuthorized gated s passed))

module _ (req : Request) (t : Simulator) where
  Preserves-SameGates :
      (state : OpState) (note : Note)
      → Preserves (λ s. SameGates req.target req.operation_id s t) (transition req state note)
  Preserves-SameGates state note = record {
    after = λ s h. SameGates-transition req state note s t h;
  }

  begin-SameGates :
      (generation : ℕ) (now : ℤ)
      → Preserves
          (λ s. SameGates req.target req.operation_id s t)
          (on_journal (Journal.begin req generation now))
  unfolding on_journal ◌>>=◌ Journal.in_flight Journal.add_event
  begin-SameGates generation now = record {
    after = λ s h.
        let (leases, others) =
          begin-cases (SameJournal req t.journal) req generation now s.journal (h.leases, h.others)
            (λ missing. (
              h.leases,
              any_others-insert req.target req.operation_id _ s.journal.operations ∙ h.others,
            )) in
        record {
          provider = h.provider;
          now = h.now;
          capabilities = h.capabilities;
          verdicts = h.verdicts;
          human_approvals = h.human_approvals;
          leases = leases;
          others = others;
        };
  }

-- A run whose request is not authorized in the state that it begins in leaves the provider as it
-- was, whether it is refused, raises, or is made to crash.
pub run-unauthorized :
    (req : Request) (crash : Option String) (s : Simulator)
    → ¬ IsAuthorized req s
    → (run req crash s).1.provider ≡ s.provider
run-unauthorized req crash s denied =
    ((run-rule req (never_passed req s denied) (Preserves-SameGates req s)
        (λ never epoch. absurd never) crash (begin-SameGates req s)).after
      s (SameGates-refl req.target req.operation_id s)).provider

-- The same of a reconciliation, a retry included.
pub reconcile-unauthorized :
    (req : Request) (retry : Bool) (s : Simulator)
    → ¬ IsAuthorized req s
    → (reconcile req retry s).1.provider ≡ s.provider
reconcile-unauthorized req retry s denied =
    ((reconcile-rule req (never_passed req s denied) (Preserves-SameGates req s)
        (λ never epoch. absurd never) retry).after
      s (SameGates-refl req.target req.operation_id s)).provider

-- A compensation rests on the authority for the action "restore", which is another grant and
-- another verdict than those of the action that it compensates.
pub compensate-unauthorized :
    (req : Request) (s : Simulator)
    → ¬ IsAuthorized (restore_request req) s
    → (compensate req s).1.provider ≡ s.provider
compensate-unauthorized req s denied =
    ((compensate-rule req (never_passed (restore_request req) s denied) (Preserves-SameGates req s)
        (λ never epoch. absurd never)).after
      s (SameGates-refl req.target req.operation_id s)).provider
