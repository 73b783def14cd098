-- ===== src/Audit/Tests.antt =====
-- Runs of the log of src/cybercore/action_kernel_sqlite_audit.py and of its checkpoints on concrete
-- events, and the theorems about them there.
use Prim.Native.String.{◌++◌ as append}
use cyber_core.Base.{
  suc, zero, ℕ, ◌+◌, String, true, false, ◌≡◌, refl, ◌↔◌, ◌⊎◌, none, some, List, [], ◌∷◌,
}
use cyber_core.Base.Int.{pos}
use cyber_core.Base.Text.{concat, is_blank}
use cyber_core.Base.Time.{DateTime}
use cyber_core.Base.Exec.{ok, err}
use cyber_core.Kernel.{Kernel}
use cyber_core.Kernel.Types.{
  sized, AuditEvent, AuditStage, TaskRequest, schema_version, action_contract, provenance_contract,
}
use cyber_core.Kernel.Create.{create}
use cyber_core.Kernel.Execute.{execute}
use cyber_core.Kernel.Execute.Outcomes.{status_of}
use cyber_core.Audit.Document.{document}
use cyber_core.Audit.Sink.{AuditTable, Database, value_error, genesis, verify_chain, call}
use cyber_core.Audit.Checkpoint.{
  AuditCheckpoint, audit_checkpoint, verify_anchored_checkpoint, is_hexadecimal,
}
use cyber_core.Audit.Anchor.{verify_and_propose_anchor}
use cyber_core.Audit.Chain.{first}
use cyber_core.Audit.Log.{rows_of, log_events, accepted, payloads}
use cyber_core.Audit.History.{verdict, log_events-verifies, exported-anchored}
use cyber_core.Audit.Tamper.{Collision, anchored-pins}
use cyber_core.Audit.Recorded.{IsShown, recorder, executes, file, execute-IsShown}
use cyber_core.Audit.Rules.{MayFollow, verify_and_propose_anchor-MayFollow}

abbrev isoformat : DateTime → String
isoformat _ = "2026-01-01T00:00:00+00:00"

-- A digest of the right width
abbrev digest : String → String
digest _ = genesis

abbrev event : AuditStage → String → AuditEvent
event stage reason = record {
  stage = stage;
  task_id = "t1";
  correlation_id = "c1";
  actor = "chatgpt:johnny-work";
  capability = "diagnostics.synthetic_status.v1";
  target_id = "herrerbook";
  outcome = "OBSERVED";
  reason = reason;
  occurred_at = record { instant = pos 0; is_aware = true };
  provenance = record {
    source = "cybercore";
    adapter = "action-kernel";
    source_instance = "cybercore-local";
    observed_at = record { instant = pos 0; is_aware = true };
    confidence = "verified";
    collector_run = none;
    contract = provenance_contract;
  };
  evidence_sha256 = none;
}

prints :
    document isoformat (event AuditStage.request "a \"b\"\n")
    ≡ "{\"actor\":\"chatgpt:johnny-work\",\"capability\":\"diagnostics.synthetic_status.v1\",\"correlation_id\":\"c1\",\"evidence_sha256\":null,\"occurred_at\":\"2026-01-01T00:00:00+00:00\",\"outcome\":\"OBSERVED\",\"provenance\":{\"adapter\":\"action-kernel\",\"confidence\":\"verified\",\"contract\":\"provenance/v1\",\"observedAt\":\"2026-01-01T00:00:00+00:00\",\"source\":\"cybercore\",\"sourceInstance\":\"cybercore-local\"},\"reason\":\"a \\\"b\\\"\\n\",\"schema_version\":\"action-kernel/v1\",\"stage\":\"request\",\"target_id\":\"herrerbook\",\"task_id\":\"t1\"}"
unfolding document concat
prints = refl

abbrev two_events : List AuditEvent
two_events = event AuditStage.request "REQUEST_RECEIVED" ∷ event AuditStage.policy "ALLOWED" ∷ []

abbrev third : List AuditEvent
third = event AuditStage.execution "SYNTHETIC_ONLY" ∷ []

hexadecimals :
    (is_hexadecimal genesis ≡ true)
    × (is_hexadecimal "0xAB_c" ≡ true)
    × (is_hexadecimal " -1f " ≡ true)
    × (is_hexadecimal "g" ≡ false)
    × (is_hexadecimal "1__2" ≡ false)
    × (is_hexadecimal "0x" ≡ false)
unfolding is_hexadecimal is_blank
hexadecimals = (refl, refl, refl, refl, refl, refl)

log : Database
log = log_events isoformat digest two_events none

abbrev checkpoint : AuditCheckpoint
checkpoint = record { sequence = 2; event_hash = genesis; database_identity = "audit" }

exported : audit_checkpoint digest log "audit" ≡ ok checkpoint
unfolding log log_events call audit_checkpoint document concat is_blank
exported = refl

blank_identity : audit_checkpoint digest log " " ≡ err value_error
unfolding log log_events call audit_checkpoint document concat is_blank
blank_identity = refl

anchored : verify_anchored_checkpoint digest log checkpoint "audit" ≡ true
unfolding log log_events call verify_anchored_checkpoint document concat
anchored = refl

log_events-verifies_example :
    (verify_chain digest (log_events isoformat digest two_events none)
      ≡ verdict (accepted isoformat two_events))
    × (payloads (rows_of (log_events isoformat digest two_events none))
        ≡ accepted isoformat two_events)
log_events-verifies_example = log_events-verifies isoformat digest two_events

exported-anchored_example :
    verify_anchored_checkpoint digest
      (log_events isoformat digest third (log_events isoformat digest two_events none))
      checkpoint
      "audit"
    ≡ true
unfolding log
exported-anchored_example =
    exported-anchored isoformat digest two_events third "audit" checkpoint exported

abbrev table_of : Database → AuditTable
table_of none = record { rows = []; last_seq = 0 }
table_of (some table) = table

longer : AuditTable
unfolding log log_events call document concat
longer = table_of (log_events isoformat digest third log)

anchored_later : verify_anchored_checkpoint digest (some longer) checkpoint "audit" ≡ true
unfolding longer verify_anchored_checkpoint log log_events call document concat
anchored_later = refl

anchored-pins_example :
    (first checkpoint.sequence (table_of log).rows ≡ first checkpoint.sequence longer.rows)
    ⊎ Collision digest
        (first checkpoint.sequence (table_of log).rows)
        (first checkpoint.sequence longer.rows)
unfolding log log_events call document concat
anchored-pins_example =
    anchored-pins digest (λ _. refl) checkpoint "audit" (table_of log) longer anchored
      anchored_later

verify_and_propose_anchor-MayFollow_example :
    ((verify_and_propose_anchor digest log checkpoint none).accepted ≡ true) ↔ (
      MayFollow none checkpoint × (verify_anchored_checkpoint digest log checkpoint "audit" ≡ true))
verify_and_propose_anchor-MayFollow_example =
    verify_and_propose_anchor-MayFollow digest log checkpoint none

abbrev at : ℕ → DateTime
at seconds = record { instant = pos seconds; is_aware = true }

abbrev task : TaskRequest
task = record {
  task_id = "t1";
  correlation_id = "c1";
  actor = "chatgpt:johnny-work";
  capability = "diagnostics.synthetic_status.v1";
  target_id = "herrerbook";
  arguments = record { encoding = sized 2; is_empty = true };
  requested_at = at 100;
  expires_at = at 220;
  provenance = record {
    source = "chatgpt";
    adapter = "cybercore-action-kernel-client";
    source_instance = "test-client";
    observed_at = at 100;
    confidence = "verified";
    collector_run = none;
    contract = provenance_contract;
  };
  schema_version = schema_version;
  nexus_contract_family = action_contract;
}

abbrev new_kernel : Kernel
new_kernel =
    create (("herrerbook", ("synthetic_status", "offline") ∷ []) ∷ []) ("chatgpt:johnny-work" ∷ [])
      none true 2048 2048 (some (recorder isoformat digest)) "cybercore-local" (λ n. at (100 + n))
      (λ _ _. record { sha256 = genesis; byte_count = 59 })

abbrev once : Kernel
once = executes ((task, "chatgpt:johnny-work") ∷ []) new_kernel

abbrev doubled : ℕ → String → String
doubled zero text = text
doubled (suc n) text = doubled n (append text text)

execute-IsShown_example :
    IsShown isoformat digest once task "chatgpt:johnny-work"
      (file isoformat digest once)
      (file isoformat digest (execute task "chatgpt:johnny-work" once).1)
      (status_of (execute task "chatgpt:johnny-work" once).0)
unfolding create
execute-IsShown_example =
    execute-IsShown isoformat digest new_kernel ((task, "chatgpt:johnny-work") ∷ []) task
      "chatgpt:johnny-work" refl refl

-- The sink takes an event up to its limit.
limited :
    (recorder isoformat digest [] (event AuditStage.request "REQUEST_RECEIVED") ≡ true)
    × (recorder isoformat digest two_events (event AuditStage.policy (doubled 13 "x")) ≡ false)
unfolding recorder log_events call document concat
limited = (refl, refl)
