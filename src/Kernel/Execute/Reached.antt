-- ===== src/Kernel/Execute/Reached.antt =====
-- How far an `execute` of src/cybercore/action_kernel.py has come: what it has written, and what it
-- has asked before. The rules say what each part of it adds.
use mathlib.Core.Bool.{false≢true}
use mathlib.Core.List.{append-nil, append_assoc, map-append}
use mathlib.Core.Option.{some-injective}
use cyber_core.Base.{
  ℕ, ◌+◌, ◌≤◌, ◌<◌, arith, String, Bool, true, false, ◌≡◌, refl, sym, ap, ◌∙◌, Option, none, some,
  List, [], ◌∷◌, ◌++◌, map, string_eq, if◌then◌else◌, Bool-cases, inl, inr, subst,
}
use cyber_core.Base.Int.{leb_ℤ}
use cyber_core.Base.Time.{DateTime}
use cyber_core.Base.Exec.{Result, ◌>>=◌}
use cyber_core.Kernel.{
  Kernel, Action, read_clock, decide, audit, audit_with, observe, deliver, make_event,
  kernel_provenance,
}
use cyber_core.Kernel.Types.{
  TaskRequest, PolicyDecision, PolicyVerdict, AuditStage, request, AuditEvent, Error,
}
use cyber_core.Kernel.Policy.Decision.{IsPermitted}

-- A trail on which the sink has accepted every event, after those before it.
pub data IsAccepted (sink : List AuditEvent → AuditEvent → Bool) : List AuditEvent → Type 0 where
  silent : IsAccepted sink []
  heard :
      {trail : List AuditEvent} (event : AuditEvent)
      → IsAccepted sink trail
      → sink trail event ≡ true
      → IsAccepted sink (trail ++ event ∷ [])

-- What an event says it is about.
abbrev pub entry : AuditEvent → AuditStage × String × String
entry e = (e.stage, e.task_id, e.actor)

abbrev pub about : TaskRequest → String → AuditStage → AuditStage × String × String
about req actor stage = (stage, req.task_id, actor)

-- The authority behind a dispatch: the policy was asked in this call, at reading `asked`, with the request
-- on the trail, and permitted it; and at a later reading, which was taken before the call ended, the
-- request was still live.
pub record IsGranted (k : Kernel) (req : TaskRequest) (actor : String) (end : ℕ) : Type 0 where
  pub asked : ℕ
  pub begun : k.readings ≤ asked
  pub observed : List AuditEvent
  pub noted : map entry observed ≡ about req actor request ∷ []
  pub permitted : IsPermitted (record k { readings = asked; trail = k.trail ++ observed }) req actor
  pub checked : ℕ
  pub rechecked : asked < checked
  pub ended : checked < end
  pub lives : leb_ℤ req.expires_at.instant (k.clock checked).instant ≡ false

-- What has been written since `k`: the identifier if it is reserved, and one event for each stage.
pub record Reached (k : Kernel) (req : TaskRequest) (actor : String) (reserved : Bool)
    (stages : List AuditStage) (j : Kernel) : Type 0 where
  pub frame : record k { used = j.used; readings = j.readings; trail = j.trail } ≡ j
  pub used : j.used ≡ (if reserved then req.task_id ∷ k.used else k.used)
  pub onward : k.readings ≤ j.readings
  pub granted : reserved ≡ true → IsGranted k req actor j.readings
  pub events : List AuditEvent
  pub trail : j.trail ≡ k.trail ++ events
  pub logged : map entry events ≡ map (about req actor) stages
  pub sunk :
      (sink : List AuditEvent → AuditEvent → Bool)
      → k.sink ≡ some sink
      → IsAccepted sink k.trail
      → IsAccepted sink j.trail

module _ {k : Kernel} {req : TaskRequest} {actor : String} where
  pub Reached-refl : Reached k req actor false [] k
  Reached-refl = record {
    frame = refl;
    used = refl;
    onward = omega arith;
    granted = λ e. absurd (false≢true e);
    events = [];
    trail = sym (append-nil k.trail);
    logged = refl;
    sunk = λ sink here accepted. accepted;
  }

  module _ {b : Bool} {stages : List AuditStage} {j : Kernel}
      (h : Reached k req actor b stages j) where
    granted-later : (n : ℕ) → j.readings ≤ n → b ≡ true → IsGranted k req actor n
    granted-later n later reserved =
        let g = h.granted reserved in
        record {
          asked = g.asked;
          begun = g.begun;
          observed = g.observed;
          noted = g.noted;
          permitted = g.permitted;
          checked = g.checked;
          rechecked = g.rechecked;
          ended = omega (arith, g.ended, later);
          lives = g.lives;
        }

    pub Reached-readings :
        (n : ℕ) → j.readings ≤ n → Reached k req actor b stages (record j { readings = n })
    Reached-readings n later = record {
      frame = ap {A = Kernel} (λ x. record x { readings = n }) h.frame;
      used = h.used;
      onward = omega (arith, h.onward, later);
      granted = granted-later n later;
      events = h.events;
      trail = h.trail;
      logged = h.logged;
      sunk = h.sunk;
    }

    Reached-event :
        (e : AuditEvent) (stage : AuditStage)
        → entry e ≡ about req actor stage
        → ((sink : List AuditEvent → AuditEvent → Bool)
            → j.sink ≡ some sink
            → sink j.trail e ≡ true)
        → Reached k req actor b (stages ++ stage ∷ []) (record j { trail = j.trail ++ e ∷ [] })
    Reached-event e stage same taken = record {
      frame = ap {A = Kernel} (λ x. record x { trail = j.trail ++ e ∷ [] }) h.frame;
      used = h.used;
      onward = h.onward;
      granted = h.granted;
      events = h.events ++ e ∷ [];
      trail = ap (λ t. t ++ e ∷ []) h.trail ∙ append_assoc k.trail h.events (e ∷ []);
      logged =
          rw (map-append entry h.events (e ∷ []))
            (rw (map-append (about req actor) stages (stage ∷ [])) (rw (h.logged, same) refl));
      sunk = λ sink here accepted.
          heard e (h.sunk sink here accepted) (taken sink (sym (ap (λ x. x.sink) h.frame) ∙ here));
    }

  -- One rule for each call: what is shown of the rest of the method, from where the call leaves the kernel.
  module _ {b : Bool} {stages : List AuditStage} {A : Type 0}
      (P : Result Error A × Kernel → Type 0) where
    pub clock-rule :
        (rest : DateTime → Action A)
        → ((j : Kernel) (now : DateTime) → Reached k req actor b stages j → P (rest now j))
        → (j : Kernel) → Reached k req actor b stages j
        → P ((read_clock >>= rest) j)
    unfolding ◌>>=◌ read_clock
    clock-rule rest later j h =
        later _ (j.clock j.readings) (Reached-readings h (j.readings + 1) (omega arith))

    pub decide-rule :
        (decision : PolicyDecision) (reason : String) (rest : PolicyVerdict → Action A)
        → ((j : Kernel) (v : PolicyVerdict) → Reached k req actor b stages j → P (rest v j))
        → (j : Kernel) → Reached k req actor b stages j
        → P ((decide req actor decision reason >>= rest) j)
    unfolding ◌>>=◌ read_clock decide
    decide-rule decision reason rest later j h =
        later _ _ (Reached-readings h (j.readings + 1) (omega arith))

    module _ (stage : AuditStage) (outcome reason : String) (sha256 : Option String)
        (rest : Bool → Action A) (least : ℕ)
        (recorded : (j : Kernel)
          → least ≤ j.readings
          → Reached k req actor b (stages ++ stage ∷ []) j
          → P (rest true j))
        (lost : (j : Kernel) → Reached k req actor b stages j → P (rest false j)) where
      audit_with-rule :
          (sink : Option (List AuditEvent → AuditEvent → Bool)) (j : Kernel)
          → j.sink ≡ sink
          → least ≤ j.readings
          → Reached k req actor b stages j
          → P ((audit_with req actor stage outcome reason sha256 sink >>= rest) j)
      unfolding ◌>>=◌ read_clock audit_with observe deliver make_event kernel_provenance
      audit_with-rule none j here later h = lost j h
      audit_with-rule (some sink) j here later h =
          let now = j.clock j.readings in
          let event =
            make_event req actor stage outcome reason sha256 (kernel_provenance j now) now in
          let i = Reached-readings h (j.readings + 1) (omega arith) in
          elim (Bool-cases (sink j.trail event)) [
            | inl accepted ↦
                let taken =
                  (λ (other : List AuditEvent → AuditEvent → Bool) (there : j.sink ≡ some other).
                    subst (λ f. f j.trail event ≡ true) (some-injective _ _ (sym here ∙ there))
                      accepted) in
                rw accepted
                  (recorded _ (omega (arith, later)) (Reached-event i event stage refl taken))
            | inr raised ↦ rw raised (lost _ i)
          ]

      -- What is recorded, is recorded at a later reading of the clock.
      pub audit_from-rule :
          (j : Kernel)
          → least ≤ j.readings
          → Reached k req actor b stages j
          → P ((audit req actor stage outcome reason sha256 >>= rest) j)
      unfolding ◌>>=◌ audit
      audit_from-rule j later h = audit_with-rule j.sink j refl later h

    pub audit-rule :
        (stage : AuditStage) (outcome reason : String) (sha256 : Option String)
        (rest : Bool → Action A)
        → ((j : Kernel) → Reached k req actor b (stages ++ stage ∷ []) j → P (rest true j))
        → ((j : Kernel) → Reached k req actor b stages j → P (rest false j))
        → (j : Kernel) → Reached k req actor b stages j
        → P ((audit req actor stage outcome reason sha256 >>= rest) j)
    audit-rule stage outcome reason sha256 rest recorded lost j h =
        audit_from-rule stage outcome reason sha256 rest 0 (λ i later. recorded i) lost j
          (omega arith) h
