-- ===== src/Failover/History/Terminal.antt =====
-- A settled operation of src/cybercore/failover_sim.py stays settled.
use cyber_core.Base.{
  ℕ, String, Bool, true, false, ◌≡◌, ap, ◌∙◌, some, Option, List, lookup, lookup-insert, ◌==◌,
  string_eq, eq_iff, Bool-cases, inl, inr,
}
use cyber_core.Base.Int.{ℤ}
use cyber_core.Base.Exec.{◌>>=◌}
use cyber_core.Base.Exec.Preserves.{Preserves}
use cyber_core.Failover.Types.{Row, Request, OpState, is_terminal}
use cyber_core.Failover.Journal
use cyber_core.Failover.Provider
use cyber_core.Failover.Journal.{Journal, Change}
use cyber_core.Failover.Journal.Rows.{begin-cases}
use cyber_core.Failover.Simulator.{Simulator, on_journal, on_provider, advance}
use cyber_core.Failover.Simulator.Transition.{Note, transition}
use cyber_core.Failover.Simulator.Frame.{Preserves-transition_journal}
use cyber_core.Failover.Simulator.Grants.{SameWork, grant-SameWork, decide-SameWork, lease-SameWork}
use cyber_core.Failover.Methods.{run, reconcile, compensate}
use cyber_core.Failover.Methods.Settled.{run-settled, reconcile-settled, compensate-settled}
use cyber_core.Failover.Methods.Rules.{run-rule, reconcile-rule, compensate-rule}
use cyber_core.Failover.History.{
  Call, advance_clock, grant_capability, take_lease, give_verdict, approve, inject, run_call,
  reconcile_call, compensate_call, step, play, play-induction,
}

module _ (id : String) (row : Row) (settled : is_terminal row.state ≡ true) where
  abbrev HasRow : Simulator → Type 0
  HasRow s = lookup id s.journal.operations ≡ some row

  -- The methods of another operation leave this row alone.
  module _ (req : Request) (other : (req.operation_id == id) ≡ false) where
    on_transition : (state : OpState) (note : Note) → Preserves HasRow (transition req state note)
    on_transition state note =
        Preserves-transition_journal (λ j. lookup id j.operations ≡ some row) req state note
          λ j now c r h found. unfold Journal.add_event in rw (lookup-insert, other) h

    on_begin :
        (generation : ℕ) (now : ℤ)
        → Preserves HasRow (on_journal (Journal.begin req generation now))
    unfolding on_journal ◌>>=◌
    on_begin generation now = record {
      after = λ s h.
          begin-cases (λ j. lookup id j.operations ≡ some row) req generation now s.journal h
            λ missing. unfold Journal.add_event in rw (lookup-insert, other) h;
    }

    on_mutate :
        (target action : String) (epoch : ℕ) (key : String)
        → Preserves HasRow (on_provider (Provider.mutate target action epoch key))
    unfolding on_provider ◌>>=◌
    on_mutate target action epoch key = record { after = λ s h. h }

  own :
      (req : Request) (s : Simulator)
      → HasRow s
      → (req.operation_id == id) ≡ true
      → Journal.get req.operation_id s.journal ≡ some row
  unfolding Journal.get
  own req s h e = rw ((eq_iff req.operation_id id).0 e) h

  run-HasRow :
      (req : Request) (crash : Option String) (s : Simulator)
      → HasRow s
      → HasRow (run req crash s).1
  run-HasRow req crash s h = elim (Bool-cases (req.operation_id == id)) [
    | inl same ↦ rw (run-settled req s row crash (own req s h same)) h
    | inr other ↦
        (run-rule {Passed = Unit} req (λ _ _ _. tt) (on_transition req other)
            (λ _ epoch. on_mutate req other _ _ epoch _) crash (on_begin req other)).after
          s h
  ]

  reconcile-HasRow :
      (req : Request) (retry : Bool) (s : Simulator) → HasRow s → HasRow (reconcile req retry s).1
  reconcile-HasRow req retry s h = elim (Bool-cases (req.operation_id == id)) [
    | inl same ↦ rw (reconcile-settled req s row retry (own req s h same) settled) h
    | inr other ↦
        (reconcile-rule {Passed = Unit} req (λ _ _ _. tt) (on_transition req other)
            (λ _ epoch. on_mutate req other _ _ epoch _) retry).after
          s h
  ]

  compensate-HasRow : (req : Request) (s : Simulator) → HasRow s → HasRow (compensate req s).1
  compensate-HasRow req s h = elim (Bool-cases (req.operation_id == id)) [
    | inl same ↦ rw (compensate-settled req s row (own req s h same) settled) h
    | inr other ↦
        (compensate-rule {Passed = Unit} req (λ _ _ _. tt) (on_transition req other)
            (λ _ epoch. on_mutate req other _ _ epoch _)).after
          s h
  ]

  same_work : (s t : Simulator) → SameWork s t → HasRow t → HasRow s
  same_work s t same h = ap (lookup id) same.operations ∙ h

  step-HasRow : (call : Call) (s : Simulator) → HasRow s → HasRow (step call s)
  unfolding step advance
  step-HasRow (advance_clock seconds) s h = h
  step-HasRow (grant_capability a b c d ttl) s h = same_work _ s (grant-SameWork a b c d ttl s) h
  step-HasRow (take_lease a b takeover ttl) s h =
      same_work _ s (lease-SameWork a b takeover ttl s) h
  step-HasRow (give_verdict a b d c ttl valid) s h =
      same_work _ s (decide-SameWork a b d c ttl valid s) h
  step-HasRow (approve x) s h = h
  step-HasRow (inject a b c d) s h = h
  step-HasRow (run_call req crash) s h = run-HasRow req crash s h
  step-HasRow (reconcile_call req retry) s h = reconcile-HasRow req retry s h
  step-HasRow (compensate_call req) s h = compensate-HasRow req s h

-- The row of an operation that has stopped, succeeded, or whose recovery failed or was blocked is
-- never written again, whatever is called in whatever order.
pub play-settled :
    (id : String) (row : Row) (calls : List Call) (s : Simulator)
    → is_terminal row.state ≡ true
    → lookup id s.journal.operations ≡ some row
    → lookup id (play calls s).journal.operations ≡ some row
play-settled id row calls s settled =
    play-induction (HasRow id row settled) (step-HasRow id row settled) calls s
