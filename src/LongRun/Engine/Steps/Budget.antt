-- ===== src/LongRun/Engine/Steps/Budget.antt =====
-- The wall budget of a run, in src/cybercore/longrun/engine.py.
use cyber_core.Base.{
  ℕ, String, true, false, ◌≡◌, refl, sym, some, lookup, [], ◌∷◌, lookup-insert_self, string_eq,
  arith, subst,
}
use cyber_core.Base.Float.{Float, of_int, le_float, ◌-f◌}
use cyber_core.Base.Exec.{ok, ◌>>=◌}
use cyber_core.LongRun.Types.{RunState, running, stopped, text}
use cyber_core.LongRun.Manifest.{Manifest}
use cyber_core.LongRun.Store
use cyber_core.LongRun.Store.{Store}
use cyber_core.LongRun.Governor.{evaluate_watchdog, stop}
use cyber_core.LongRun.Engine.{Callbacks, Machine, call, persist, on_store, watchdog}
use cyber_core.LongRun.Engine.Steps.{
  run_step, run_until_terminal, step, stop_run, watch, is_terminal,
}
use cyber_core.LongRun.Engine.Steps.Contract.{loads, run-settled}

module _ {W : Type 0} (m : Manifest) (c : Callbacks W) (e : Machine W) (stored : RunState) where
  -- What the clock says, and the state that the run stops in.
  abbrev now : Float
  now = (c.clock e.world).0

  abbrev pub halted : RunState
  halted = record stored { status = stopped; updated_at = now }

  watchdog-stop :
      le_float (of_int m.maximum_wall_seconds) (now -f stored.started_at) ≡ true
      → watchdog m c stored now ≡ record { action = stop; reason = "maximum wall budget exhausted" }
  unfolding watchdog evaluate_watchdog
  watchdog-stop spent = rw spent refl

  -- The store with the stop in it.
  abbrev noted : Store
  noted =
      (Store.save_with_event halted "WATCHDOG_STOP"
        (("reason", text "maximum wall budget exhausted") ∷ []) now e.store).1

  step-exhausted :
      stored.status ≡ running
      → le_float (of_int m.maximum_wall_seconds) (now -f stored.started_at) ≡ true
      → step m c stored e ≡ (ok halted, record { store = noted; world = (c.clock e.world).1 })
  unfolding step stop_run watch call persist on_store is_terminal Store.save_with_event
      Store.encode_failure ◌>>=◌
  step-exhausted active spent =
      let ongoing : is_terminal stored.status ≡ false = ground (arith, active) in
      rw ongoing (rw (watchdog-stop spent) refl)

  noted-halted :
      lookup stored.run_id e.store.runs ≡ some stored
      → lookup stored.run_id noted.runs ≡ some halted
  unfolding Store.save_with_event Store.update_row Store.append_row Store.encode_failure ◌>>=◌
  noted-halted found = rw found (lookup-insert_self stored.run_id halted e.store.runs)

lookup_by :
    (id : String) (stored : RunState)
    → stored.run_id ≡ id
    → (s : Store) → Store.load id s ≡ some stored
    → lookup stored.run_id s.runs ≡ some stored
unfolding Store.load
lookup_by id stored named s found = subst (λ x. lookup x s.runs ≡ some stored) (sym named) found

run_step-exhausted :
    {W : Type 0} (m : Manifest) (c : Callbacks W) (e : Machine W) (stored : RunState)
    → Store.load m.run_id e.store ≡ some stored
    → stored.manifest_digest ≡ c.manifest_digest m
    → stored.status ≡ running
    → le_float (of_int m.maximum_wall_seconds) ((c.clock e.world).0 -f stored.started_at) ≡ true
    → run_step m c e ≡ (
      ok (halted m c e stored),
      record { store = noted m c e stored; world = (c.clock e.world).1 },
    )
unfolding run_step ◌>>=◌
run_step-exhausted m c e stored found same active spent =
    rw (loads m c e stored found same) (step-exhausted m c e stored active spent)

-- Once the wall budget is spent, a step of a running run stops it: the clock is read, the stop is stored,
-- and neither the planner nor the executor is called, in this step or in any further run.
pub run-halted :
    {W : Type 0} (m : Manifest) (c : Callbacks W) (e : Machine W) (stored : RunState) (steps : ℕ)
    → stored.run_id ≡ m.run_id
    → Store.load m.run_id e.store ≡ some stored
    → stored.manifest_digest ≡ c.manifest_digest m
    → stored.status ≡ running
    → le_float (of_int m.maximum_wall_seconds) ((c.clock e.world).0 -f stored.started_at) ≡ true
    → let (r, after) = run_step m c e in
      (r ≡ ok (halted m c e stored))
      × (after.world ≡ (c.clock e.world).1)
      × (run_until_terminal m c steps after ≡ (ok (halted m c e stored), after))
run-halted m c e stored steps named found same active spent =
    let state = halted m c e stored in
    let kept = lookup_by m.run_id stored named e.store found in
    let later : Store.load m.run_id (noted m c e stored) ≡ some state =
      unfold Store.load in
      subst (λ id. lookup id (noted m c e stored).runs ≡ some state) named
        (noted-halted m c e stored kept) in
    rw (run_step-exhausted m c e stored found same active spent)
      (refl, refl, (run-settled m c steps _ state later (unfold is_terminal in refl) same).1)
