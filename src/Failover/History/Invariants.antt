-- ===== src/Failover/History/Invariants.antt =====
-- Invariants of every history of src/cybercore/failover_sim.py.
use cyber_core.Base.{ℕ, String, refl, List}
use cyber_core.Base.Int.{ℤ}
use cyber_core.Base.Exec.Preserves.{Preserves}
use cyber_core.Failover.Types.{Request, OpState}
use cyber_core.Failover.Journal
use cyber_core.Failover.Journal.{Journal}
use cyber_core.Failover.Provider
use cyber_core.Failover.Provider.{Provider}
use cyber_core.Failover.Simulator.{Simulator, on_journal, on_provider, advance}
use cyber_core.Failover.Simulator.Transition.{Note, transition}
use cyber_core.Failover.Simulator.Grants.{SameWork, grant-SameWork, decide-SameWork, lease-SameWork}
use cyber_core.Failover.Methods.Rules.{run-rule, reconcile-rule, compensate-rule}
use cyber_core.Failover.History.{
  Call, advance_clock, grant_capability, take_lease, give_verdict, approve, inject, run_call,
  reconcile_call, compensate_call, step, play, play-induction,
}

-- A property that stands on the work alone, and that the writes keep, is kept by every call.
module _ (P : Simulator → Type 0) (same_work : (s t : Simulator) → SameWork s t → P t → P s)
    (on_begin : (req : Request) (generation : ℕ) (now : ℤ)
      → Preserves P (on_journal (Journal.begin req generation now)))
    (on_transition : (req : Request) (state : OpState) (note : Note)
      → Preserves P (transition req state note))
    (on_mutate : (target action : String) (epoch : ℕ) (key : String)
      → Preserves P (on_provider (Provider.mutate target action epoch key))) where
  step-rule : (call : Call) (s : Simulator) → P s → P (step call s)
  unfolding step advance
  step-rule (advance_clock seconds) s h =
      same_work _ s
        (record {
          operations = refl;
          events = refl;
          last_seq = refl;
          idempotency = refl;
          effects = refl;
          receipts = refl;
        })
        h
  step-rule (grant_capability a b c d ttl) s h = same_work _ s (grant-SameWork a b c d ttl s) h
  step-rule (take_lease a b takeover ttl) s h = same_work _ s (lease-SameWork a b takeover ttl s) h
  step-rule (give_verdict a b d c ttl valid) s h =
      same_work _ s (decide-SameWork a b d c ttl valid s) h
  step-rule (approve id) s h =
      same_work _ s
        (record {
          operations = refl;
          events = refl;
          last_seq = refl;
          idempotency = refl;
          effects = refl;
          receipts = refl;
        })
        h
  step-rule (inject a b c d) s h =
      same_work _ s
        (record {
          operations = refl;
          events = refl;
          last_seq = refl;
          idempotency = refl;
          effects = refl;
          receipts = refl;
        })
        h
  step-rule (run_call req crash) s h =
      (run-rule {Passed = Unit} req (λ _ _ _. tt) (on_transition req)
          (λ _ epoch. on_mutate _ _ epoch _) crash (on_begin req)).after
        s h
  step-rule (reconcile_call req retry) s h =
      (reconcile-rule {Passed = Unit} req (λ _ _ _. tt) (on_transition req)
          (λ _ epoch. on_mutate _ _ epoch _) retry).after
        s h
  step-rule (compensate_call req) s h =
      (compensate-rule {Passed = Unit} req (λ _ _ _. tt) (on_transition req)
          (λ _ epoch. on_mutate _ _ epoch _)).after
        s h

  pub play-rule : (calls : List Call) (s : Simulator) → P s → P (play calls s)
  play-rule = play-induction P step-rule
