-- ===== src/LongRun/Engine/Steps/Contract.antt =====
-- The mission contract of a stored run, in src/cybercore/longrun/engine.py.
use cyber_core.Base.{ℕ, zero, suc, true, ◌≡◌, ◌≢◌, refl, some, string_eq, eq_iff, beq_refl, arith}
use cyber_core.Base.Exec.{ok, err, ◌>>=◌}
use cyber_core.LongRun.Types.{RunState, runtime_error}
use cyber_core.LongRun.Manifest.{Manifest}
use cyber_core.LongRun.Store
use cyber_core.LongRun.Engine.{Callbacks, Machine, load_or_create}
use cyber_core.LongRun.Engine.Steps.{run_until_terminal, run_step, step, repeat, is_terminal}

module _ {W : Type 0} (m : Manifest) (c : Callbacks W) (e : Machine W) (stored : RunState)
    (found : Store.load m.run_id e.store ≡ some stored) where
  pub loads : (stored.manifest_digest ≡ c.manifest_digest m) → load_or_create m c e ≡ (ok stored, e)
  unfolding load_or_create ◌>>=◌
  loads same = rw found (rw same (rw (beq_refl (c.manifest_digest m)) refl))

  refuses :
      (stored.manifest_digest ≢ c.manifest_digest m)
      → load_or_create m c e
        ≡ (err (runtime_error "manifest digest mismatch; immutable mission contract changed"), e)
  unfolding load_or_create ◌>>=◌
  refuses changed = rw found (ground (arith, eq_iff stored.manifest_digest (c.manifest_digest m)))

repeat-settled :
    {W : Type 0} (m : Manifest) (c : Callbacks W) (e : Machine W) (stored : RunState)
    → is_terminal stored.status ≡ true
    → (n : ℕ) → repeat m c n stored e ≡ (ok stored, e)
unfolding repeat ◌>>=◌
repeat-settled m c e stored settled zero = refl
repeat-settled m c e stored settled (suc n) = rw settled refl

-- A run that is stored as completed, stopped or blocked stays as it is: a further step or a further run
-- returns it, and changes neither the store nor the world.
pub run-settled :
    {W : Type 0} (m : Manifest) (c : Callbacks W) (steps : ℕ) (e : Machine W) (stored : RunState)
    → Store.load m.run_id e.store ≡ some stored
    → is_terminal stored.status ≡ true
    → stored.manifest_digest ≡ c.manifest_digest m
    → (run_step m c e ≡ (ok stored, e)) × (run_until_terminal m c steps e ≡ (ok stored, e))
unfolding run_step run_until_terminal ◌>>=◌
run-settled m c steps e stored found settled same =
    let loaded = loads m c e stored found same in
    (
      rw loaded (unfold step in rw settled refl),
      rw loaded (repeat-settled m c e stored settled steps),
    )

-- A run that was stored under another manifest is neither continued nor changed.
pub run-refused :
    {W : Type 0} (m : Manifest) (c : Callbacks W) (steps : ℕ) (e : Machine W) (stored : RunState)
    → Store.load m.run_id e.store ≡ some stored
    → stored.manifest_digest ≢ c.manifest_digest m
    → (run_step m c e
        ≡ (err (runtime_error "manifest digest mismatch; immutable mission contract changed"), e))
      × (run_until_terminal m c steps e
          ≡ (err (runtime_error "manifest digest mismatch; immutable mission contract changed"), e))
unfolding run_step run_until_terminal ◌>>=◌
run-refused m c steps e stored found changed =
    let refused = refuses m c e stored found changed in (rw refused refl, rw refused refl)
