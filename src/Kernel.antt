-- ===== src/Kernel.antt =====
-- `class ActionKernel` of src/cybercore/action_kernel.py. The clock and the evidence sink are injected
-- by the application: the clock is a sequence of readings, and the sink accepts or raises, on the
-- events that it has accepted before. `trail` is what it has accepted.
pub mod Types
pub mod Create
pub mod Policy
pub mod Execute
use cyber_core.Base.{
  ℕ, ◌+◌, String, Bool, true, false, ◌&&◌, ◌||◌, not, Option, none, some, List, [], ◌∷◌, ◌++◌, Dict,
  lookup, contains, ◌==◌, string_eq, ltb, if◌then◌else◌, is_some,
}
use cyber_core.Base.Time.{DateTime, le_time}
use cyber_core.Base.Exec.{Result, ok, err, Exec, pure, raise, reads, modify, ◌>>=◌, ◌>>◌}
use cyber_core.Kernel.Types.{
  Provenance, Arguments, TaskRequest, CapabilityDescriptor, PolicyDecision, allow, deny,
  PolicyVerdict, EvidenceMetadata, Status, denied, failed, executed, ExecutionReceipt, AuditStage,
  AuditEvent, schema_version, action_contract, capability_contract, provenance_contract, Error,
  type_error, key_error,
}

pub record Kernel : Type 0 where
  pub targets : Dict String (Dict String String)
  pub actors : List String
  pub capabilities : Dict String CapabilityDescriptor
  pub enabled : Bool
  pub max_bytes : ℕ
  pub max_evidence_bytes : ℕ
  pub sink : Option (List AuditEvent → AuditEvent → Bool)
  pub source_instance : String
  pub clock : ℕ → DateTime
  -- the byte count and the SHA-256 of the canonical JSON of a target and its status
  pub encode_evidence : String → String → EvidenceMetadata
  -- what changes: the reserved identifiers, the readings taken, the accepted events
  pub used : List String
  pub readings : ℕ
  pub trail : List AuditEvent

abbrev pub Action : Type 0 → Type 0
Action A = Exec Error Kernel A

-- `_now`
unfoldable pub read_clock : Action DateTime
read_clock k = (ok (k.clock k.readings), record k { readings = k.readings + 1 })

kernel_provenance : Kernel → DateTime → Provenance
kernel_provenance k observed_at = record {
  source = "cybercore";
  adapter = "action-kernel";
  source_instance = k.source_instance;
  observed_at = observed_at;
  confidence = "verified";
  collector_run = none;
  contract = provenance_contract;
}

-- `_verdict`
unfoldable pub decide : TaskRequest → String → PolicyDecision → String → Action PolicyVerdict
unfolding kernel_provenance read_clock
decide req actor decision reason = do
  now ← read_clock
  provenance ← reads (λ k. kernel_provenance k now)
  pure (record {
    task_id = req.task_id;
    correlation_id = req.correlation_id;
    decision = decision;
    reason = reason;
    actor = actor;
    capability = req.capability;
    target_id = req.target_id;
    evaluated_at = now;
    provenance = provenance;
  })

-- `_receipt`
unfoldable pub conclude :
    TaskRequest
    → String
    → PolicyVerdict
    → Status
    → String
    → Option EvidenceMetadata
    → Action ExecutionReceipt
unfolding kernel_provenance read_clock
conclude req actor verdict status reason evidence = do
  now ← read_clock
  provenance ← reads (λ k. kernel_provenance k now)
  pure (record {
    task_id = req.task_id;
    correlation_id = req.correlation_id;
    status = status;
    reason = reason;
    actor = actor;
    capability = req.capability;
    target_id = req.target_id;
    policy = verdict;
    completed_at = now;
    provenance = provenance;
    evidence = evidence;
    authorization_expires_at = some req.expires_at;
  })

-- `self._sink(event)` under its `try`: the event is on the trail if the sink did not raise.
deliver : (List AuditEvent → AuditEvent → Bool) → AuditEvent → Action Bool
deliver sink event k =
    if sink k.trail event
    then (ok true, record k { trail = k.trail ++ event ∷ [] })
    else (ok false, k)

make_event :
    TaskRequest
    → String
    → AuditStage
    → String
    → String
    → Option String
    → Provenance
    → DateTime
    → AuditEvent
make_event req actor stage outcome reason sha256 provenance now = record {
  stage = stage;
  task_id = req.task_id;
  correlation_id = req.correlation_id;
  actor = actor;
  capability = req.capability;
  target_id = req.target_id;
  outcome = outcome;
  reason = reason;
  occurred_at = now;
  provenance = provenance;
  evidence_sha256 = sha256;
}

observe :
    TaskRequest
    → String
    → AuditStage
    → String
    → String
    → Option String
    → (List AuditEvent → AuditEvent → Bool)
    → Action Bool
observe req actor stage outcome reason sha256 sink = do
  now ← read_clock
  provenance ← reads (λ k. kernel_provenance k now)
  deliver sink (make_event req actor stage outcome reason sha256 provenance now)

audit_with :
    TaskRequest
    → String
    → AuditStage
    → String
    → String
    → Option String
    → Option (List AuditEvent → AuditEvent → Bool)
    → Action Bool
audit_with req actor stage outcome reason sha256 none = pure false
audit_with req actor stage outcome reason sha256 (some sink) =
    observe req actor stage outcome reason sha256 sink

-- `_audit`
unfoldable pub audit :
    TaskRequest → String → AuditStage → String → String → Option String → Action Bool
unfolding audit_with observe deliver make_event kernel_provenance read_clock
audit req actor stage outcome reason sha256 = do
  sink ← reads (λ k. k.sink)
  audit_with req actor stage outcome reason sha256 sink

-- `not text`
abbrev pub is_empty : String → Bool
is_empty text = text == ""

unfoldable pub valid_provenance : Provenance → Bool
valid_provenance p =
    p.contract == provenance_contract
    && not (is_empty p.source)
    && not (is_empty p.adapter)
    && not (is_empty p.source_instance)
    && p.observed_at.is_aware
    && (p.confidence == "verified"
        || p.confidence == "supported"
        || p.confidence == "inferred"
        || p.confidence == "unknown")

or_type_error : Option Bool → Action Bool
or_type_error none = raise type_error
or_type_error (some test) = pure test

-- `a <= b` in a condition.
unfoldable pub is_due : DateTime → DateTime → Action Bool
unfolding or_type_error
is_due a b = or_type_error (le_time a b)
