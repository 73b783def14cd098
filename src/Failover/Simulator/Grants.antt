-- ===== src/Failover/Simulator/Grants.antt =====
-- What handing out authority in src/cybercore/failover_sim.py changes: never the operations, the events
-- or the effects.
use cyber_core.Base.{ℕ, String, Bool, ◌≡◌, arith, refl, ◌∙◌}
use cyber_core.Base.Int.{ℤ}
use cyber_core.Base.Exec.{◌>>=◌}
use cyber_core.Base.Exec.Preserves.{Preserves, preserves_rules}
use cyber_core.Failover.Types.{Decision}
use cyber_core.Failover.Journal
use cyber_core.Failover.Journal.{Journal}
use cyber_core.Failover.Provider
use cyber_core.Failover.Simulator.{Simulator, grant, lease, decide, on_journal, on_provider}

-- The durable history: the operations and the log, and the effects that the provider has had.
pub record SameWork (s t : Simulator) : Type 0 where
  pub operations : s.journal.operations ≡ t.journal.operations
  pub events : s.journal.events ≡ t.journal.events
  pub last_seq : s.journal.last_seq ≡ t.journal.last_seq
  pub idempotency : s.provider.idempotency ≡ t.provider.idempotency
  pub effects : s.provider.effects ≡ t.provider.effects
  pub receipts : s.provider.receipts ≡ t.provider.receipts

acquire-work :
    (target holder : String) (now : ℤ) (takeover : Bool) (ttl : ℤ) (j : Journal)
    → let k = (Journal.acquire target holder now takeover ttl j).1 in
      (k.operations ≡ j.operations) × (k.events ≡ j.events) × (k.last_seq ≡ j.last_seq)
unfolding Journal.acquire Journal.writable ◌>>=◌
acquire-work target holder now takeover ttl j = (ground arith, ground arith, ground arith)

fence-work :
    (target : String) (epoch : ℕ) (p : Provider.Provider)
    → let q = (Provider.fence target epoch p).1 in
      (q.idempotency ≡ p.idempotency) × (q.effects ≡ p.effects) × (q.receipts ≡ p.receipts)
unfolding Provider.fence ◌>>=◌
fence-work target epoch p = (ground arith, ground arith, ground arith)

pub grant-SameWork :
    (holder target action policy_hash : String) (ttl : ℤ) (s : Simulator)
    → SameWork (grant holder target action policy_hash ttl s).1 s
unfolding grant ◌>>=◌
grant-SameWork holder target action policy_hash ttl s = record {
  operations = ground arith;
  events = ground arith;
  last_seq = ground arith;
  idempotency = ground arith;
  effects = ground arith;
  receipts = ground arith;
}

pub decide-SameWork :
    (target action : String) (decision : Decision) (policy_hash : String) (ttl : ℤ) (valid : Bool)
    (s : Simulator)
    → SameWork (decide target action decision policy_hash ttl valid s).1 s
unfolding decide ◌>>=◌
decide-SameWork target action decision policy_hash ttl valid s = ground arith

module _ (t : Simulator) where
  Preserves-acquire :
      (target holder : String) (now : ℤ) (takeover : Bool) (ttl : ℤ)
      → Preserves (λ s. SameWork s t) (on_journal (Journal.acquire target holder now takeover ttl))
  unfolding on_journal ◌>>=◌
  Preserves-acquire target holder now takeover ttl = record {
    after = λ s h.
        let (operations, events, last_seq) =
          acquire-work target holder now takeover ttl s.journal in
        record {
          operations = operations ∙ h.operations;
          events = events ∙ h.events;
          last_seq = last_seq ∙ h.last_seq;
          idempotency = h.idempotency;
          effects = h.effects;
          receipts = h.receipts;
        };
  }

  Preserves-fence :
      (target : String) (epoch : ℕ)
      → Preserves (λ s. SameWork s t) (on_provider (Provider.fence target epoch))
  unfolding on_provider ◌>>=◌
  Preserves-fence target epoch = record {
    after = λ s h.
        let (idempotency, effects, receipts) = fence-work target epoch s.provider in
        record {
          operations = h.operations;
          events = h.events;
          last_seq = h.last_seq;
          idempotency = idempotency ∙ h.idempotency;
          effects = effects ∙ h.effects;
          receipts = receipts ∙ h.receipts;
        };
  }

  Preserves-lease :
      (holder target : String) (takeover : Bool) (ttl : ℤ)
      → Preserves (λ s. SameWork s t) (lease holder target takeover ttl)
  unfolding lease
  Preserves-lease holder target takeover ttl =
      search (preserves_rules, Preserves-acquire, Preserves-fence) depth 9

pub lease-SameWork :
    (holder target : String) (takeover : Bool) (ttl : ℤ) (s : Simulator)
    → SameWork (lease holder target takeover ttl s).1 s
lease-SameWork holder target takeover ttl s =
    (Preserves-lease s holder target takeover ttl).after s (record {
      operations = refl;
      events = refl;
      last_seq = refl;
      idempotency = refl;
      effects = refl;
      receipts = refl;
    })
