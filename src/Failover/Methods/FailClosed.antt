-- ===== src/Failover/Methods/FailClosed.antt =====
-- A journal that cannot be written stops everything, in src/cybercore/failover_sim.py.
use cyber_core.Base.{
  Bool-cases, inl, inr, String, Bool, true, ◌≡◌, ap, refl, Option, none, some, arith, ◌&&◌,
}
use cyber_core.Base.Exec.{Result, ok, err, ◌>>=◌}
use cyber_core.Failover.Types.{Request, OpState, audit_unavailable, unknown, Row}
use cyber_core.Failover.Journal
use cyber_core.Failover.Provider.{Observation, Receipt}
use cyber_core.Failover.Simulator.{Simulator, on_journal, on_provider}
use cyber_core.Failover.Simulator.Checks.{gates}
use cyber_core.Failover.Simulator.Transition.{Note, transition}
use cyber_core.Failover.Methods.Rules.{observe-unchanged}
use cyber_core.Failover.Methods.{
  restore_request, run, finish, reconcile, reconcile_row, settle, settle_observed, retry_gated,
  compensate, compensate_row, gated_compensate, or_key_error, attempt,
}

module _ (req : Request) (s : Simulator) (broken : s.journal.fail_writes ≡ true) where
  transition-broken :
      (state : OpState) (note : Note)
      → transition req state note s ≡ (err (audit_unavailable "injected journal-write failure"), s)
  unfolding transition on_journal Journal.transition Journal.writable ◌>>=◌
  transition-broken state note = ground arith

  run-broken : (crash : Option String) → (run req crash s).1 ≡ s
  unfolding run or_key_error on_journal Journal.begin Journal.writable ◌>>=◌
  run-broken crash = ground arith

  finish-broken :
      (state : OpState) (reason : String)
      → finish req state reason s ≡ (err (audit_unavailable "injected journal-write failure"), s)
  unfolding finish ◌>>=◌
  finish-broken state reason = rw transition-broken

  retry_gated-broken : (retry_gated req s).1 ≡ s
  unfolding retry_gated ◌>>=◌
  retry_gated-broken = elim (Bool-cases (gates req s).passed) [
    | inl passed ↦ rw passed (rw transition-broken)
    | inr refused ↦ rw refused (rw finish-broken)
  ]

  settle-broken :
      (retry healthy : Bool) (receipt : Option Receipt) → (settle req retry healthy receipt s).1 ≡ s
  unfolding settle ◌>>=◌
  settle-broken retry healthy none =
      elim (Bool-cases (retry && s.provider.idempotency && s.provider.fencing)) [
        | inl safe ↦ rw safe retry_gated-broken
        | inr unsafe ↦ rw unsafe (rw finish-broken)
      ]
  settle-broken retry healthy (some receipt) = rw transition-broken

  settle_observed-broken :
      (retry : Bool) (r : Result String Observation) → (settle_observed req retry r s).1 ≡ s
  unfolding settle_observed
  settle_observed-broken retry (ok seen) = settle-broken retry seen.healthy seen.receipt
  settle_observed-broken retry (err message) = ap (λ x. x.1) (finish-broken unknown message)

  reconcile_row-broken :
      (retry : Bool) (found : Option Row) → (reconcile_row req retry found s).1 ≡ s
  unfolding reconcile_row attempt on_provider ◌>>=◌
  reconcile_row-broken retry none = refl
  reconcile_row-broken retry (some row) = grind (arith, settle_observed-broken, observe-unchanged)

  reconcile-broken : (retry : Bool) → (reconcile req retry s).1 ≡ s
  unfolding reconcile ◌>>=◌
  reconcile-broken retry = reconcile_row-broken retry (Journal.get req.operation_id s.journal)

  gated_compensate-broken : (gated_compensate req s).1 ≡ s
  unfolding gated_compensate ◌>>=◌
  gated_compensate-broken = elim (Bool-cases (gates (restore_request req) s).passed) [
    | inl passed ↦ rw passed (rw transition-broken)
    | inr refused ↦ rw refused (rw finish-broken)
  ]

  compensate_row-broken : (found : Option Row) → (compensate_row req found s).1 ≡ s
  unfolding compensate_row ◌>>=◌
  compensate_row-broken none = refl
  compensate_row-broken (some row) = ground (arith, gated_compensate-broken)

  compensate-broken : (compensate req s).1 ≡ s
  unfolding compensate ◌>>=◌
  compensate-broken = compensate_row-broken (Journal.get req.operation_id s.journal)

-- While the journal cannot be written, `run`, `reconcile` and `compensate` change nothing at all:
-- no row, no event, no effect, no alert.
pub methods_fail_closed :
    (req : Request) (crash : Option String) (retry : Bool) (s : Simulator)
    → s.journal.fail_writes ≡ true
    → ((run req crash s).1 ≡ s) × ((reconcile req retry s).1 ≡ s) × ((compensate req s).1 ≡ s)
methods_fail_closed req crash retry s broken = (
  run-broken req s broken crash,
  reconcile-broken req s broken retry,
  compensate-broken req s broken,
)
