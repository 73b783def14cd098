-- ===== src/Failover/Methods/Fencing.antt =====
-- A lease that changes hands fences the controller that had it, in src/cybercore/failover_sim.py.
use cyber_core.Base.{
  ℕ, ◌<◌, String, Bool, ◌≡◌, ◌≢◌, refl, Option, none, some, lookup, lookup-insert_self, string_eq,
  nat_eq, arith,
}
use cyber_core.Base.Int.{ℤ}
use cyber_core.Base.Exec.{ok, ◌>>=◌}
use cyber_core.Failover.Types.{Lease, LeaseRow, Request}
use cyber_core.Failover.Journal
use cyber_core.Failover.Provider
use cyber_core.Failover.Provider.Effects.{mutate-cases}
use cyber_core.Failover.Simulator.{Simulator, lease, on_journal, on_provider}
use cyber_core.Failover.Simulator.Gates.{IsAuthorized}
use cyber_core.Failover.Methods.{run}
use cyber_core.Failover.Methods.Safety.{run-unauthorized}

abbrev old_epoch : Option LeaseRow → ℕ
old_epoch none = 0
old_epoch (some row) = row.epoch

-- What a granted lease is, in the state after it
pub record IsHeld (holder target : String) (held : Lease) (s t : Simulator) : Type 0 where
  pub current : Journal.current_lease target t.journal ≡ some held
  pub holder_of : held.holder ≡ holder
  pub later : old_epoch (lookup target s.journal.leases) < held.epoch
  pub fenced : lookup target t.provider.epochs ≡ some held.epoch

-- When a lease has been granted, it is the target's current one and its holder's, its epoch is later than
-- that of the lease row that the target had before, if any, and is the one that the provider then demands.
pub lease-IsHeld :
    (holder target : String) (takeover : Bool) (ttl : ℤ) (s : Simulator) {held : Lease}
    {t : Simulator}
    → lease holder target takeover ttl s ≡ (ok held, t)
    → IsHeld holder target held s t
unfolding lease on_journal on_provider Journal.acquire Journal.writable Provider.fence
    Journal.current_lease ◌>>=◌
lease-IsHeld holder target takeover ttl s h = record {
  current = grind (arith, lookup-insert_self);
  holder_of = ground arith;
  later = ground arith;
  fenced = grind (arith, lookup-insert_self);
}

lease-denies :
    (holder target : String) (takeover : Bool) (ttl : ℤ) (req : Request) (s : Simulator)
    {held : Lease} {t : Simulator}
    → lease holder target takeover ttl s ≡ (ok held, t)
    → req.target ≡ target
    → req.actor ≢ holder
    → ¬ IsAuthorized req t
lease-denies holder target takeover ttl req s granted aimed other a =
    let h = lease-IsHeld holder target takeover ttl s granted in
    other (ground (arith, h.current, h.holder_of, a.leased, a.holder))

-- Once a controller has been granted the lease of a target, by expiry or by takeover, a run of any
-- other actor on that target changes nothing at the provider.
pub lease-fences_run :
    (holder target : String) (takeover : Bool) (ttl : ℤ) (req : Request) (crash : Option String)
    (s : Simulator) {held : Lease} {t : Simulator}
    → lease holder target takeover ttl s ≡ (ok held, t)
    → req.target ≡ target
    → req.actor ≢ holder
    → (run req crash t).1.provider ≡ t.provider
lease-fences_run holder target takeover ttl req crash s {t = t} granted aimed other =
    run-unauthorized req crash t (lease-denies holder target takeover ttl req s granted aimed other)

-- Once a lease has been granted, a command that still carries an epoch of the target from before,
-- or any other epoch than the new one, has no effect at the provider.
pub stale_command :
    (holder target : String) (takeover : Bool) (ttl : ℤ) (action key : String) (epoch : ℕ)
    (s : Simulator) {held : Lease} {t : Simulator}
    → lease holder target takeover ttl s ≡ (ok held, t)
    → epoch ≢ held.epoch
    → (Provider.mutate target action epoch key t.provider).1 ≡ t.provider
stale_command holder target takeover ttl action key epoch s {t = t} granted stale =
    let h = lease-IsHeld holder target takeover ttl s granted in
    mutate-cases (λ p. p ≡ t.provider) target action epoch key t.provider refl
      (λ generation opened. absurd (stale (ground (arith, h.fenced, opened.fenced))))
