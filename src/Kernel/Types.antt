-- ===== src/Kernel/Types.antt =====
-- The records of src/cybercore/action_kernel.py.
use cyber_core.Base.{ℕ, String, Bool, Option, List}
use cyber_core.Base.Time.{DateTime}

pub record Provenance : Type 0 where
  pub source : String
  pub adapter : String
  pub source_instance : String
  pub observed_at : DateTime
  pub confidence : String
  pub collector_run : Option String
  pub contract : String

-- What `json.dumps` makes of a mapping: canonical JSON of so many bytes, one of the exceptions that the
-- kernel catches (TypeError, ValueError, OverflowError), or the RecursionError of a mapping that nests
-- too deep, which it does not catch.
pub data Encoding : Type 0 where
  sized : ℕ → Encoding
  unencodable too_deep : Encoding

-- The mapping of arguments, as the kernel sees it: its encoding, and whether it is empty.
pub record Arguments : Type 0 where
  pub encoding : Encoding
  pub is_empty : Bool

pub record TaskRequest : Type 0 where
  pub task_id : String
  pub correlation_id : String
  pub actor : String
  pub capability : String
  pub target_id : String
  pub arguments : Arguments
  pub requested_at : DateTime
  pub expires_at : DateTime
  pub provenance : Provenance
  pub schema_version : String
  pub nexus_contract_family : String

pub record CapabilityDescriptor : Type 0 where
  pub name : String
  pub version : String
  pub mode : String
  pub allowed_targets : List String
  pub arguments_allowed : Bool
  pub schema_version : String
  pub nexus_contract_family : String

pub data PolicyDecision : Type 0 where
  allow deny : PolicyDecision

pub record PolicyVerdict : Type 0 where
  pub task_id : String
  pub correlation_id : String
  pub decision : PolicyDecision
  pub reason : String
  pub actor : String
  pub capability : String
  pub target_id : String
  pub evaluated_at : DateTime
  pub provenance : Provenance

pub record EvidenceMetadata : Type 0 where
  pub sha256 : String
  pub byte_count : ℕ

-- The texts that the field `status` takes.
pub data Status : Type 0 where
  denied failed executed : Status

pub record ExecutionReceipt : Type 0 where
  pub task_id : String
  pub correlation_id : String
  pub status : Status
  pub reason : String
  pub actor : String
  pub capability : String
  pub target_id : String
  pub policy : PolicyVerdict
  pub completed_at : DateTime
  pub provenance : Provenance
  pub evidence : Option EvidenceMetadata
  pub authorization_expires_at : Option DateTime

pub data AuditStage : Type 0 where
  request policy execution evidence : AuditStage

pub record AuditEvent : Type 0 where
  pub stage : AuditStage
  pub task_id : String
  pub correlation_id : String
  pub actor : String
  pub capability : String
  pub target_id : String
  pub outcome : String
  pub reason : String
  pub occurred_at : DateTime
  pub provenance : Provenance
  pub evidence_sha256 : Option String

-- `ACTION_KERNEL_SCHEMA_VERSION` and the contracts of Nexus.
abbrev pub schema_version : String
schema_version = "action-kernel/v1"

abbrev pub action_contract : String
action_contract = "action/v1"

abbrev pub capability_contract : String
capability_contract = "capability/v1"

abbrev pub provenance_contract : String
provenance_contract = "provenance/v1"

-- A comparison of a naive with an aware time, a missing key of a dictionary, and arguments that nest too
-- deep to be encoded.
pub data Error : Type 0 where
  type_error key_error recursion_error : Error
