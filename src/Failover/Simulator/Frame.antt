-- ===== src/Failover/Simulator/Frame.antt =====
-- What a journaled transition of src/cybercore/failover_sim.py leaves alone, and why the gates cannot
-- see it.
use cyber_core.Base.{String, ◌≡◌, refl, ◌∙◌, arith, some, lookup, string_eq}
use cyber_core.Base.Int.{ℤ}
use cyber_core.Base.Exec.{◌>>=◌}
use cyber_core.Base.Exec.Preserves.{Preserves}
use cyber_core.Failover.Types.{Request, OpState, Row}
use cyber_core.Failover.Journal
use cyber_core.Failover.Journal.{Journal, Change}
use cyber_core.Failover.Journal.Rows.{any_others-insert, moved, transition-cases}
use cyber_core.Failover.Provider
use cyber_core.Failover.Simulator.{Simulator, on_journal}
use cyber_core.Failover.Simulator.Checks.{gates, is_approved}
use cyber_core.Failover.Simulator.Transition.{Note, change, transition, alert}
use cyber_core.Failover.Simulator.Gates.{IsAuthorized}

-- Two states that the gates cannot tell apart for an operation on a target.
pub record SameGates (target id : String) (s t : Simulator) : Type 0 where
  pub provider : s.provider ≡ t.provider
  pub now : s.now ≡ t.now
  pub capabilities : s.capabilities ≡ t.capabilities
  pub verdicts : s.verdicts ≡ t.verdicts
  pub human_approvals : s.human_approvals ≡ t.human_approvals
  pub leases : s.journal.leases ≡ t.journal.leases
  pub others : Journal.in_flight target id s.journal ≡ Journal.in_flight target id t.journal

pub SameGates-refl : (target id : String) (s : Simulator) → SameGates target id s s
SameGates-refl target id s = record {
  provider = refl;
  now = refl;
  capabilities = refl;
  verdicts = refl;
  human_approvals = refl;
  leases = refl;
  others = refl;
}

pub SameGates-IsAuthorized :
    (req : Request) (s t : Simulator)
    → SameGates req.target req.operation_id s t
    → IsAuthorized req s
    → IsAuthorized req t
unfolding is_approved Journal.current_lease
SameGates-IsAuthorized req s t h a = record {
  simulated = a.simulated;
  fake = cc;
  effect = a.effect;
  fresh = a.fresh;
  restorable = a.restorable;
  tier = a.tier;
  alone = cc;
  approved = cc;
  capability = a.capability;
  granted = cc;
  capability_lives = cc;
  capability_policy = a.capability_policy;
  held = a.held;
  leased = cc;
  holder = a.holder;
  lease_lives = cc;
  fencing = cc;
  epoch = cc;
  verdict = a.verdict;
  judged = cc;
  allowed = a.allowed;
  valid = a.valid;
  verdict_lives = cc;
  verdict_policy = a.verdict_policy;
}

module _ (req : Request) (state : OpState) (note : Note) (s : Simulator) where
  pub journal-transition :
      (transition req state note s).1.journal
      ≡ (Journal.transition req.operation_id s.now (change (gates req s) state note) s.journal).1
  unfolding transition on_journal alert ◌>>=◌
  journal-transition = ground arith

  pub provider-transition : (transition req state note s).1.provider ≡ s.provider
  unfolding transition on_journal alert ◌>>=◌
  provider-transition = ground arith

  rest-transition :
      let t = (transition req state note s).1 in
      (t.now ≡ s.now)
      × (t.capabilities ≡ s.capabilities)
      × (t.verdicts ≡ s.verdicts)
      × (t.human_approvals ≡ s.human_approvals)
  unfolding transition on_journal alert ◌>>=◌
  rest-transition = (ground arith, ground arith, ground arith, ground arith)

-- A property of the provider alone, or of the journal alone, through a transition.
pub Preserves-transition_provider :
    (P : Provider.Provider → Type 0) (req : Request) (state : OpState) (note : Note)
    → Preserves (λ s. P s.provider) (transition req state note)
Preserves-transition_provider P req state note = record {
  after = λ s h. rw (provider-transition req state note s) h;
}

pub Preserves-transition_journal :
    (P : Journal → Type 0) (req : Request) (state : OpState) (note : Note)
    → ((j : Journal) (now : ℤ) (c : Change) (row : Row)
        → P j
        → lookup req.operation_id j.operations ≡ some row
        → P (moved req.operation_id now c row j))
    → Preserves (λ s. P s.journal) (transition req state note)
Preserves-transition_journal P req state note step = record {
  after = λ s h.
      let c = change (gates req s) state note in
      rw (journal-transition req state note s) (
        transition-cases P req.operation_id s.now c s.journal h
          (λ row found. step s.journal s.now c row h found));
}

-- What the gates see of the journal.
abbrev pub SameJournal : Request → Journal → Journal → Type 0
SameJournal req k j =
    (j.leases ≡ k.leases)
    × (Journal.in_flight req.target req.operation_id j
        ≡ Journal.in_flight req.target req.operation_id k)

SameJournal-moved :
    (req : Request) (k j : Journal) (now : ℤ) (c : Change) (row : Row)
    → SameJournal req k j
    → SameJournal req k (moved req.operation_id now c row j)
unfolding Journal.in_flight Journal.add_event
SameJournal-moved req k j now c row h =
    (h.0, any_others-insert req.target req.operation_id _ j.operations ∙ h.1)

pub SameGates-transition :
    (req : Request) (state : OpState) (note : Note) (s t : Simulator)
    → SameGates req.target req.operation_id s t
    → SameGates req.target req.operation_id (transition req state note s).1 t
SameGates-transition req state note s t h =
    let (now, capabilities, verdicts, approvals) = rest-transition req state note s in
    let (leases, others) =
      (Preserves-transition_journal (SameJournal req t.journal) req state note
          (λ j now c row kept found. SameJournal-moved req t.journal j now c row kept)).after
        s (h.leases, h.others) in
    record {
      provider = provider-transition req state note s ∙ h.provider;
      now = now ∙ h.now;
      capabilities = capabilities ∙ h.capabilities;
      verdicts = verdicts ∙ h.verdicts;
      human_approvals = approvals ∙ h.human_approvals;
      leases = leases;
      others = others;
    }
