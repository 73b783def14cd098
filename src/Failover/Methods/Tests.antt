-- ===== src/Failover/Methods/Tests.antt =====
-- Runs of the simulator of src/cybercore/failover_sim.py on concrete inputs, and its theorems there.
use mathlib.Core.Bool.{false≢true}
use cyber_core.Base.{
  lookup, insert, any, contains, ◌≡◌, ◌↔◌, refl, true, false, none, some, List, [], ◌∷◌, length,
  eq_iff, arith, string_eq,
}
use cyber_core.Base.Int.{pos, leb_ℤ, ◌+ℤ◌}
use cyber_core.Base.Text.{concat, decimal}
use cyber_core.Base.Exec.{Result, pure, ok, err, ◌>>=◌, ◌>>◌}
use cyber_core.Failover.Types.{
  Error, is_terminal, is_in_flight, is_alert, Lease, Request, Row, simulated_crash, succeeded,
  stopped, allow,
}
use cyber_core.Failover.Journal
use cyber_core.Failover.Provider
use cyber_core.Failover.Provider.{Provider}
use cyber_core.Failover.Simulator.{
  Simulator, Action, create, grant, lease, decide, on_journal, on_provider,
}
use cyber_core.Failover.Simulator.Checks.{
  is_tier, is_approved, is_usable_capability, is_usable_lease, is_usable_verdict, gates,
}
use cyber_core.Failover.Simulator.Transition.{transition}
use cyber_core.Failover.Simulator.Gates.{IsAuthorized, gates_iff}
use cyber_core.Failover.Methods.{
  run, reconcile, compensate, verify_run, dispatch_run, execute_run, checked_run, generation_of,
  or_key_error, attempt, finish, settle, settle_observed, reconcile_row, retry_gated, redispatch,
  crash_is, same_intent,
}
use cyber_core.Failover.Methods.Safety.{
  run-unauthorized, reconcile-unauthorized, compensate-unauthorized,
}
use cyber_core.Failover.Methods.Fencing.{IsHeld, lease-IsHeld, lease-fences_run, stale_command}
use cyber_core.Failover.Methods.FailClosed.{methods_fail_closed}
use cyber_core.Failover.History.{Call, inject, run_call, reconcile_call, compensate_call, play}
use cyber_core.Failover.History.Accounts.{IsAccounted, play-IsAccounted}
use cyber_core.Failover.History.Log.{IsLogged, play-IsLogged, last_state}
use cyber_core.Failover.History.Terminal.{play-settled}

abbrev request : Request
request = record {
  operation_id = "op-1";
  actor = "Ruku";
  target = "service_a";
  action = "restart";
  tier = "GREEN";
  policy_hash = "policy-v1";
  inventory_fresh = true;
  restore_verified = true;
  production = false;
  human_approval = none;
  correlation_id = "trace-001";
}

abbrev bare_provider : Provider
bare_provider = record {
  targets = "service_a" ∷ "service_b" ∷ [];
  health = ("service_b", true) ∷ ("service_a", true) ∷ [];
  generation = ("service_b", 0) ∷ ("service_a", 0) ∷ [];
  epochs = ("service_b", 0) ∷ ("service_a", 0) ∷ [];
  fencing = true;
  idempotency = true;
  effects = [];
  receipts = [];
  fail_restart = false;
  fail_restore = false;
  readable = true;
}

provider_created : Provider.create ("service_a" ∷ "service_b" ∷ []) true true ≡ some bare_provider
unfolding Provider.create
provider_created = refl

abbrev bench : Simulator
bench = create Journal.init bare_provider (pos 1_800_000_000)

-- What the test fixture sets up before each scenario.
abbrev set_up : Action Unit
set_up = do
  grant "Ruku" "service_a" "restart" "policy-v1" (pos 60)
  lease "Ruku" "service_a" false (pos 60)
  decide "service_a" "restart" allow "policy-v1" (pos 60) true
  pure tt

-- The state after the set-up, written out.
abbrev ready : Simulator
ready = record bench {
  journal = record Journal.init {
    leases =
        (
          "service_a",
          record {
            holder = "Ruku";
            lease_id = "lease-1-Ruku";
            epoch = 1;
            expires = pos 1_800_000_060;
          },
        )
        ∷ [];
  };
  provider = record bare_provider { epochs = ("service_b", 0) ∷ ("service_a", 1) ∷ [] };
  capabilities =
      (
        ("Ruku", "service_a", "restart"),
        record {
          capability_id = "grant-Ruku-service_a-restart";
          holder = "Ruku";
          target = "service_a";
          action = "restart";
          policy_hash = "policy-v1";
          expires = pos 1_800_000_060;
        },
      )
      ∷ [];
  verdicts =
      (
        ("service_a", "restart"),
        record {
          decision = allow;
          target = "service_a";
          action = "restart";
          policy_hash = "policy-v1";
          expires = pos 1_800_000_060;
          valid = true;
        },
      )
      ∷ [];
}

-- A scenario from the set-up; its line opens the code that a scenario runs.
scenario : {A : Type 0} → Action A → Result Error A × Simulator
unfolding ◌>>=◌ lookup insert any contains on_journal on_provider grant lease decide gates
    transition run reconcile compensate verify_run dispatch_run execute_run checked_run
    generation_of or_key_error attempt finish settle settle_observed reconcile_row retry_gated
    redispatch crash_is Journal.writable Journal.get Journal.begin Journal.transition
    Journal.acquire Journal.in_flight Journal.current_lease Provider.validate_target Provider.fence
    Provider.observe Provider.mutate Provider.is_effect same_intent is_terminal is_in_flight
    is_alert concat decimal is_tier is_approved is_usable_capability is_usable_lease
    is_usable_verdict leb_ℤ ◌+ℤ◌
scenario calls = (set_up >> calls) bench

-- A run on a healthy service, and what the journal and the provider hold after it.
healthy_run :
    let (r, s) = scenario (run request none) in
    (r ≡ ok succeeded) × (length s.provider.effects ≡ 1) × (length s.journal.events ≡ 4)
unfolding scenario
healthy_run = (refl, refl, refl)

-- F02: a crash after the effect, and the reconciliation that finds its receipt.
crash_after_effect :
    let (r, s) = scenario (run request (some "after_effect")) in
    (r ≡ err (simulated_crash "Kato stopped after effect before acknowledgement"))
    × (length s.provider.effects ≡ 1)
    × ((reconcile request false s).0 ≡ ok succeeded)
    × (length (reconcile request false s).1.provider.effects ≡ 1)
unfolding scenario
crash_after_effect = (refl, refl, refl, refl)

set_up-ready : scenario (pure tt) ≡ (ok tt, ready)
unfolding scenario
set_up-ready = refl

-- F07 and T06: a request with a stale inventory, and one for production.
abbrev stale : Request
stale = record request { inventory_fresh = false }

abbrev for_production : Request
for_production = record request { production = true }

-- A settled row, and a journal that holds it.
abbrev settled_row : Row
settled_row = record {
  actor = "Ruku";
  target = "service_a";
  action = "restart";
  tier = "GREEN";
  policy_hash = "policy-v1";
  correlation_id = "trace-001";
  idempotency_key = "op-0";
  state = stopped;
  before_generation = 0;
  changed = false;
  provider_op = none;
  lease_epoch = 1;
}

abbrev settled_state : Simulator
settled_state = record ready {
  journal = record ready.journal { operations = ("op-0", settled_row) ∷ [] };
}

abbrev broken_state : Simulator
broken_state = record ready { journal = record ready.journal { fail_writes = true } }

-- The calls of a crash, a reconciliation, a compensation and a second operation.
abbrev calls : List Call
calls =
    run_call request (some "after_effect")
    ∷ inject false true false true
    ∷ reconcile_call request true
    ∷ compensate_call request
    ∷ run_call (record request { operation_id = "op-2" }) none
    ∷ []

gates_iff_example : ((gates request ready).passed ≡ true) ↔ IsAuthorized request ready
gates_iff_example = gates_iff request ready

run-unauthorized_example : (run stale none ready).1.provider ≡ ready.provider
run-unauthorized_example = run-unauthorized stale none ready (λ a. cc a.fresh)

reconcile-unauthorized_example : (reconcile for_production true ready).1.provider ≡ ready.provider
reconcile-unauthorized_example =
    reconcile-unauthorized for_production true ready (λ a. cc a.simulated)

compensate-unauthorized_example : (compensate stale ready).1.provider ≡ ready.provider
compensate-unauthorized_example = compensate-unauthorized stale ready (λ a. cc a.fresh)

play-IsAccounted_example : IsAccounted (play calls ready).provider
play-IsAccounted_example =
    play-IsAccounted calls ready (record { idempotent = refl; keyed = tt; counted = refl })

play-IsLogged_example : IsLogged (play calls ready).journal
unfolding lookup last_state
play-IsLogged_example =
    play-IsLogged calls ready (record { state_of = λ id. refl; numbered = refl })

play-settled_example :
    lookup "op-0" (play calls settled_state).journal.operations ≡ some settled_row
unfolding is_terminal lookup
play-settled_example = play-settled "op-0" settled_row calls settled_state refl refl

methods_fail_closed_example :
    ((run request none broken_state).1 ≡ broken_state)
    × ((reconcile request true broken_state).1 ≡ broken_state)
    × ((compensate request broken_state).1 ≡ broken_state)
methods_fail_closed_example = methods_fail_closed request none true broken_state refl

-- F03: another controller takes the lease over.
abbrev new_lease : Lease
new_lease = record {
  lease_id = "lease-2-CyberCore";
  holder = "CyberCore";
  target = "service_a";
  epoch = 2;
  expires = pos 1_800_000_060;
}

abbrev taken_over : Simulator
taken_over = record ready {
  journal = record Journal.init {
    leases =
        (
          "service_a",
          record {
            holder = "CyberCore";
            lease_id = "lease-2-CyberCore";
            epoch = 2;
            expires = pos 1_800_000_060;
          },
        )
        ∷ [];
  };
  provider = record bare_provider { epochs = ("service_b", 0) ∷ ("service_a", 2) ∷ [] };
}

take_over : lease "CyberCore" "service_a" true (pos 60) ready ≡ (ok new_lease, taken_over)
unfolding scenario
take_over = refl

lease-IsHeld_example : IsHeld "CyberCore" "service_a" new_lease ready taken_over
lease-IsHeld_example = lease-IsHeld "CyberCore" "service_a" true (pos 60) ready take_over

lease-fences_run_example : (run request none taken_over).1.provider ≡ taken_over.provider
lease-fences_run_example =
    lease-fences_run "CyberCore" "service_a" true (pos 60) request none ready take_over refl
      (λ e. false≢true ((eq_iff "Ruku" "CyberCore").1 e))

stale_command_example :
    (Provider.mutate "service_a" "restart" 1 "old-command" taken_over.provider).1
    ≡ taken_over.provider
stale_command_example =
    stale_command "CyberCore" "service_a" true (pos 60) "restart" "old-command" 1 ready take_over
      (omega arith)
