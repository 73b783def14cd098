-- ===== src/Failover/Methods/Rules.antt =====
-- One rule for the three methods of src/cybercore/failover_sim.py: what the journaled transition, the
-- provider's effect and the journal's first entry keep, `run`, `reconcile` and `compensate` keep.
use cyber_core.Base.{
  ℕ, String, Bool, true, ◌≡◌, refl, Option, none, some, subst, sym, arith, Bool-cases, inl, inr,
  if◌then◌else◌,
}
use cyber_core.Base.Int.{ℤ}
use cyber_core.Base.Exec.{Result, ok, err, ◌>>=◌, reads}
use cyber_core.Base.Exec.Preserves.{Preserves, Preserves-bind-reads, preserves_rules}
use cyber_core.Failover.Types.{Lease, Request, Row, OpState}
use cyber_core.Failover.Journal
use cyber_core.Failover.Provider
use cyber_core.Failover.Provider.{Observation, Receipt}
use cyber_core.Failover.Simulator.{Simulator, Action, on_journal, on_provider}
use cyber_core.Failover.Simulator.Checks.{Report, gates}
use cyber_core.Failover.Simulator.Transition.{Note, transition}
use cyber_core.Failover.Methods.{
  run, reconcile, compensate, verify_run, dispatch_run, execute_run, checked_run, or_key_error,
  attempt, finish, settle, settle_observed, reconcile_row, retry_gated, redispatch, verify_restore,
  dispatch_restore, compensate_row, gated_compensate, restore_request, restore_key,
}

-- An observation changes nothing.
pub observe-unchanged :
    (target key : String) (p : Provider.Provider) → (Provider.observe target key p).1 ≡ p
unfolding Provider.observe ◌>>=◌
observe-unchanged target key p = ground arith

module _ {P : Simulator → Type 0} where
  Preserves-observe :
      (target key : String) → Preserves P (on_provider (Provider.observe target key))
  unfolding on_provider ◌>>=◌
  Preserves-observe target key = record {
    after = λ s h.
        subst (λ p. P (record s { provider = p })) (sym (observe-unchanged target key s.provider))
          h;
  }

  Preserves-attempt : {A : Type 0} (m : Action A) → Preserves P m → Preserves P (attempt m)
  unfolding attempt
  Preserves-attempt m km = record { after = km.after }

  Preserves-or_key_error : {A : Type 0} (o : Option A) → Preserves P (or_key_error o)
  unfolding or_key_error
  Preserves-or_key_error none = search preserves_rules
  Preserves-or_key_error (some a) = search preserves_rules

module _ {P : Simulator → Type 0} (req : Request)
    (on_transition : (state : OpState) (note : Note)
      → Preserves P (transition req state note)) where
  pub Preserves-finish : (state : OpState) (reason : String) → Preserves P (finish req state reason)
  unfolding finish
  Preserves-finish state reason = search (preserves_rules, on_transition)

ruleset method_rules = (preserves_rules, Preserves-finish, Preserves-observe, Preserves-attempt)

module _ {P : Simulator → Type 0} {Passed : Type 0} (gated req : Request)
    (gate : (s : Simulator) → P s → (gates gated s).passed ≡ true → Passed) where
  branch-rule :
      (m : Action OpState) (n : String → Action OpState) (report : Report) (s : Simulator)
      → report ≡ gates gated s
      → (Passed → Preserves P m)
      → ((reason : String) → Preserves P (n reason))
      → P s
      → P ((if report.passed then m else n report.reason) s).1
  branch-rule m n report s e km kn h = elim (Bool-cases report.passed) [
    | inl passed ↦ rw passed ((km (gate s h (rw (← e) passed))).after s h)
    | inr refused ↦ rw refused ((kn report.reason).after s h)
  ]

  -- The code behind the gates may use what passed gates imply.
  Preserves-gated :
      (m : Action OpState) (n : String → Action OpState)
      → (Passed → Preserves P m)
      → ((reason : String) → Preserves P (n reason))
      → Preserves P (do report ← reads (gates gated); if report.passed then m else n report.reason)
  Preserves-gated m n km kn =
      Preserves-bind-reads (gates gated) (λ report. if report.passed then m else n report.reason)
        (λ s h. branch-rule m n (gates gated s) s refl km kn h)

module _ {P : Simulator → Type 0} {Passed : Type 0} (req : Request)
    (gate : (s : Simulator) → P s → (gates req s).passed ≡ true → Passed)
    (on_transition : (state : OpState) (note : Note) → Preserves P (transition req state note))
    (on_mutate : Passed
      → (epoch : ℕ)
      → Preserves P
          (on_provider (Provider.mutate req.target req.action epoch req.operation_id))) where
  verify_run-rule :
      (crash : Option String) (r : Result String String) → Preserves P (verify_run req crash r)
  unfolding verify_run
  verify_run-rule crash (ok receipt) = search (method_rules, on_transition)
  verify_run-rule crash (err message) = search (method_rules, on_transition)

  dispatch_run-rule :
      (crash : Option String) (held : Option Lease)
      → Passed
      → Preserves P (dispatch_run req crash held)
  unfolding dispatch_run
  dispatch_run-rule crash none p = search (method_rules, on_transition)
  dispatch_run-rule crash (some held) p = search (method_rules, verify_run-rule)

  execute_run-rule : (crash : Option String) → Preserves P (execute_run req crash)
  unfolding execute_run
  execute_run-rule crash =
      Preserves-gated req req gate _ _ (λ p. search (preserves_rules, dispatch_run-rule))
        (λ reason. Preserves-finish req on_transition OpState.stopped reason)

  checked_run-rule : (crash : Option String) → Preserves P (checked_run req crash)
  unfolding checked_run
  checked_run-rule crash =
      Preserves-gated req req gate _ _ (λ p. search (method_rules, on_transition, execute_run-rule))
        (λ reason. Preserves-finish req on_transition OpState.stopped reason)

  pub run-rule :
      (crash : Option String)
      → ((generation : ℕ) (now : ℤ) → Preserves P (on_journal (Journal.begin req generation now)))
      → Preserves P (run req crash)
  unfolding run
  run-rule crash on_begin =
      search (preserves_rules, Preserves-or_key_error, on_begin, checked_run-rule) depth 9

  redispatch-rule : (held : Option Lease) → Passed → Preserves P (redispatch req held)
  unfolding redispatch
  redispatch-rule none p = search (method_rules, on_transition)
  redispatch-rule (some held) p = search (method_rules, on_transition) depth 9

  retry_gated-rule : Preserves P (retry_gated req)
  unfolding retry_gated
  retry_gated-rule =
      Preserves-gated req req gate _ _ (λ p. search (method_rules, on_transition, redispatch-rule))
        (λ reason. Preserves-finish req on_transition OpState.stopped reason)

  settle-rule :
      (retry healthy : Bool) (receipt : Option Receipt)
      → Preserves P (settle req retry healthy receipt)
  unfolding settle
  settle-rule retry healthy none = search (method_rules, on_transition, retry_gated-rule)
  settle-rule retry healthy (some receipt) = search (method_rules, on_transition)

  settle_observed-rule :
      (retry : Bool) (r : Result String Observation) → Preserves P (settle_observed req retry r)
  unfolding settle_observed
  settle_observed-rule retry (ok seen) = settle-rule retry seen.healthy seen.receipt
  settle_observed-rule retry (err message) = search (method_rules, on_transition)

  reconcile_row-rule :
      (retry : Bool) (found : Option Row) → Preserves P (reconcile_row req retry found)
  unfolding reconcile_row
  reconcile_row-rule retry none = search preserves_rules
  reconcile_row-rule retry (some row) = search (method_rules, settle_observed-rule) depth 9

  pub reconcile-rule : (retry : Bool) → Preserves P (reconcile req retry)
  unfolding reconcile
  reconcile-rule retry = search (preserves_rules, reconcile_row-rule)

module _ {P : Simulator → Type 0} {Passed : Type 0} (req : Request)
    (gate : (s : Simulator) → P s → (gates (restore_request req) s).passed ≡ true → Passed)
    (on_transition : (state : OpState) (note : Note) → Preserves P (transition req state note))
    (on_restore : Passed
      → (epoch : ℕ)
      → Preserves P
          (on_provider (Provider.mutate req.target "restore" epoch (restore_key req)))) where
  verify_restore-rule : (r : Result String String) → Preserves P (verify_restore req r)
  unfolding verify_restore
  verify_restore-rule (ok op) = search (method_rules, on_transition) depth 9
  verify_restore-rule (err message) = search (method_rules, on_transition)

  dispatch_restore-rule : (held : Option Lease) → Passed → Preserves P (dispatch_restore req held)
  unfolding dispatch_restore
  dispatch_restore-rule none p = search (method_rules, on_transition)
  dispatch_restore-rule (some held) p = search (method_rules, verify_restore-rule)

  gated_compensate-rule : Preserves P (gated_compensate req)
  unfolding gated_compensate
  gated_compensate-rule =
      Preserves-gated (restore_request req) req gate _ _
        (λ p. search (method_rules, on_transition, dispatch_restore-rule))
        (λ reason. Preserves-finish req on_transition OpState.recovery_blocked reason)

  compensate_row-rule : (found : Option Row) → Preserves P (compensate_row req found)
  unfolding compensate_row
  compensate_row-rule none = search preserves_rules
  compensate_row-rule (some row) = search (preserves_rules, gated_compensate-rule)

  pub compensate-rule : Preserves P (compensate req)
  unfolding compensate
  compensate-rule = search (preserves_rules, compensate_row-rule)
