-- ===== src/Failover/History.antt =====
-- Histories of the simulator of src/cybercore/failover_sim.py: any sequence of calls by its clients and
-- of faults that a test bench injects. A call that raises leaves the state that it reached.
pub mod Invariants
pub mod Accounts
pub mod Log
pub mod Terminal
use cyber_core.Base.{ℕ, String, Bool, Option, List, [], ◌∷◌}
use cyber_core.Base.Int.{ℤ}
use cyber_core.Failover.Types.{Decision, Request}
use cyber_core.Failover.Simulator.{Simulator, advance, grant, lease, decide}
use cyber_core.Failover.Methods.{run, reconcile, compensate}

pub data Call : Type 0 where
  -- `Clock.advance`, `Simulator.grant`, `.lease`, `.allow`
  advance_clock : ℤ → Call
  grant_capability : (holder target action policy_hash : String) (ttl : ℤ) → Call
  take_lease : (holder target : String) (takeover : Bool) (ttl : ℤ) → Call
  give_verdict :
      (target action : String) (decision : Decision) (policy_hash : String) (ttl : ℤ) (valid : Bool)
      → Call
  -- `human_approvals.add`
  approve : String → Call
  -- the flags that a test bench sets: `fail_writes`, `fail_restart`, `fail_restore`, `readable`
  inject : (fail_writes fail_restart fail_restore readable : Bool) → Call
  run_call : Request → Option String → Call
  reconcile_call : Request → Bool → Call
  compensate_call : Request → Call

unfoldable pub step : Call → Simulator → Simulator
step (advance_clock seconds) s = advance seconds s
step (grant_capability holder target action policy_hash ttl) s =
    (grant holder target action policy_hash ttl s).1
step (take_lease holder target takeover ttl) s = (lease holder target takeover ttl s).1
step (give_verdict target action decision policy_hash ttl valid) s =
    (decide target action decision policy_hash ttl valid s).1
step (approve id) s = record s { human_approvals = id ∷ s.human_approvals }
step (inject fail_writes fail_restart fail_restore readable) s = record s {
  journal = record s.journal { fail_writes = fail_writes };
  provider = record s.provider {
    fail_restart = fail_restart;
    fail_restore = fail_restore;
    readable = readable;
  };
}
step (run_call req crash) s = (run req crash s).1
step (reconcile_call req retry) s = (reconcile req retry s).1
step (compensate_call req) s = (compensate req s).1

unfoldable pub play : List Call → Simulator → Simulator
play [] s = s
play (call ∷ calls) s = play calls (step call s)

-- What every call keeps, every history keeps.
pub play-induction :
    (P : Simulator → Type 0)
    → ((call : Call) (s : Simulator) → P s → P (step call s))
    → (calls : List Call) (s : Simulator) → P s
    → P (play calls s)
unfolding play
play-induction P keep [] s h = h
play-induction P keep (call ∷ calls) s h = play-induction P keep calls (step call s) (keep call s h)
