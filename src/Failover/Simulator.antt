-- ===== src/Failover/Simulator.antt =====
-- `class Simulator` of src/cybercore/failover_sim.py: the state, the authorities that a test bench
-- hands out.
pub mod Checks
pub mod Gates
pub mod Transition
pub mod Frame
pub mod Grants
use cyber_core.Base.{
  ℕ, ◌+◌, String, Bool, true, false, ◌&&◌, ◌||◌, not, Option, none, some, List, [], ◌∷◌, ◌++◌, Dict,
  lookup, insert, contains, ◌==◌, Comparable, string_eq, nat_eq, if◌then◌else◌,
}
use cyber_core.Base.Int.{ℤ, ◌+ℤ◌, leb_ℤ}
use cyber_core.Base.Text.{concat}
use cyber_core.Base.Exec.{
  Result, ok, err, Exec, pure, raise, raise_if, reads, modify, zoom, ◌>>=◌, ◌>>◌,
}
use cyber_core.Failover.Types.{
  Error, unsafe_effect, Capability, Lease, Decision, allow, deny, unknown, Verdict, Request,
  OpState, is_alert,
}
use cyber_core.Failover.Keys.{Triple, Pair, triple_eq, pair_eq}
use cyber_core.Failover.Journal
use cyber_core.Failover.Journal.{Journal, Change}
use cyber_core.Failover.Provider
use cyber_core.Failover.Provider.{Provider}

pub record Simulator : Type 0 where
  pub journal : Journal
  pub provider : Provider
  pub now : ℤ
  pub capabilities : Dict Triple Capability
  pub verdicts : Dict Pair Verdict
  pub human_approvals : List String
  pub alerts : List String

abbrev pub Action : Type 0 → Type 0
Action A = Exec Error Simulator A

-- A call of a method of the journal, or of the provider.
unfoldable pub on_journal : {A : Type 0} → Journal.Action A → Action A
on_journal = zoom (λ s. s.journal) (λ j s. record s { journal = j })

unfoldable pub on_provider : {A : Type 0} → Provider.Action A → Action A
on_provider = zoom (λ s. s.provider) (λ p s. record s { provider = p })

-- `Simulator.__init__`
abbrev pub create : Journal → Provider → ℤ → Simulator
create journal provider now = record {
  journal = journal;
  provider = provider;
  now = now;
  capabilities = [];
  verdicts = [];
  human_approvals = [];
  alerts = [];
}

-- `Clock.advance`
unfoldable pub advance : ℤ → Simulator → Simulator
advance seconds s = record s { now = s.now +ℤ seconds }

unfoldable pub grant : String → String → String → String → ℤ → Action Capability
grant holder target action policy_hash ttl = do
  valid ← reads (λ s. Provider.validate_target s.provider target)
  raise_if (not valid) (unsafe_effect "invalid fake target")
  now ← reads (λ s. s.now)
  let cap : Capability = record {
    capability_id = concat ("grant-" ∷ holder ∷ "-" ∷ target ∷ "-" ∷ action ∷ []);
    holder = holder;
    target = target;
    action = action;
    policy_hash = policy_hash;
    expires = now +ℤ ttl;
  }
  modify (λ s. record s { capabilities = insert (holder, target, action) cap s.capabilities })
  pure cap

unfoldable pub lease : String → String → Bool → ℤ → Action Lease
lease holder target takeover ttl = do
  usable ← reads (λ s. Provider.validate_target s.provider target && s.provider.fencing)
  raise_if (not usable) (unsafe_effect "fencing unavailable")
  now ← reads (λ s. s.now)
  held ← on_journal (Journal.acquire target holder now takeover ttl)
  on_provider (Provider.fence target held.epoch)
  pure held

-- `Simulator.allow`
unfoldable pub decide : String → String → Decision → String → ℤ → Bool → Action Verdict
decide target action decision policy_hash ttl valid = do
  now ← reads (λ s. s.now)
  let verdict : Verdict = record {
    decision = decision;
    target = target;
    action = action;
    policy_hash = policy_hash;
    expires = now +ℤ ttl;
    valid = valid;
  }
  modify (λ s. record s { verdicts = insert (target, action) verdict s.verdicts })
  pure verdict
