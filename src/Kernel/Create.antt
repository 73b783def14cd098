-- ===== src/Kernel/Create.antt =====
-- The constructor of `ActionKernel`, in src/cybercore/action_kernel.py.
use cyber_core.Base.{ℕ, String, Bool, false, Option, none, some, List, [], ◌∷◌, Dict}
use cyber_core.Base.Time.{DateTime}
use cyber_core.Kernel.{Kernel}
use cyber_core.Kernel.Types.{
  CapabilityDescriptor, EvidenceMetadata, AuditEvent, schema_version, capability_contract,
}

-- `frozenset(self._targets)`
keys : {V : Type 0} → Dict String V → List String
keys [] = []
keys ((k, _) ∷ d) = k ∷ keys d

default_capability : Dict String (Dict String String) → CapabilityDescriptor
default_capability targets = record {
  name = "diagnostics.synthetic_status.v1";
  version = "1";
  mode = "read";
  allowed_targets = keys targets;
  arguments_allowed = false;
  schema_version = schema_version;
  nexus_contract_family = capability_contract;
}

capabilities_of :
    Dict String (Dict String String)
    → Option (Dict String CapabilityDescriptor)
    → Dict String CapabilityDescriptor
capabilities_of targets none = (default.name, default) ∷ []
  where
    default : CapabilityDescriptor
    default = default_capability targets
capabilities_of targets (some capabilities) = capabilities

-- `__init__`
unfoldable pub create :
    Dict String (Dict String String)
    → List String
    → Option (Dict String CapabilityDescriptor)
    → Bool
    → ℕ
    → ℕ
    → Option (List AuditEvent → AuditEvent → Bool)
    → String
    → (ℕ → DateTime)
    → (String → String → EvidenceMetadata)
    → Kernel
unfolding keys default_capability capabilities_of
create targets actors capabilities enabled max_bytes max_evidence_bytes sink source_instance clock
      encode_evidence =
    record {
      targets = targets;
      actors = actors;
      capabilities = capabilities_of targets capabilities;
      enabled = enabled;
      max_bytes = max_bytes;
      max_evidence_bytes = max_evidence_bytes;
      sink = sink;
      source_instance = source_instance;
      clock = clock;
      encode_evidence = encode_evidence;
      used = [];
      readings = 0;
      trail = [];
    }
