-- ===== src/Audit/Document.antt =====
-- The document of an event: `__call__` of src/cybercore/action_kernel_sqlite_audit.py up to its limit,
-- and `as_nexus` of src/cybercore/action_kernel.py, as `json.dumps` prints them with sorted keys.
use Prim.Native.Nat.{◌/◌, ◌%◌, suc}
use Prim.Native.Char.{code}
use Prim.Native.String.{slice, ◌++◌ as append}
use cyber_core.Base.{
  ℕ, String, Option, none, some, List, [], ◌∷◌, ◌++◌, ltb, nat_beq, if◌then◌else◌,
}
use cyber_core.Base.Text.{concat}
use cyber_core.Base.Time.{DateTime}
use cyber_core.Kernel.Types.{Provenance, AuditStage, AuditEvent, schema_version}

hex_digit : ℕ → String
hex_digit n = slice "0123456789abcdef" n (suc n)

-- The escape of a character below 0x20
escape_control : ℕ → String
unfolding hex_digit
escape_control c =
    if nat_beq c 8
    then "\\b"
    else if nat_beq c 9
    then "\\t"
    else if nat_beq c 10
    then "\\n"
    else if nat_beq c 12
    then "\\f"
    else if nat_beq c 13
    then "\\r"
    else append "\\u00" (append (hex_digit (c / 16)) (hex_digit (c % 16)))

escape : String → String
unfolding escape_control
escape String.[] = ""
escape (String.◌∷◌ c s) =
    let rest = escape s in
    if nat_beq (code c) 34
    then append "\\\"" rest
    else if nat_beq (code c) 92
    then append "\\\\" rest
    else if ltb (code c) 32
    then append (escape_control (code c)) rest
    else String.◌∷◌ c rest

-- A text, with `ensure_ascii=False`
json_text : String → String
unfolding escape
json_text s = concat ("\"" ∷ escape s ∷ "\"" ∷ [])

json_option : Option String → String
unfolding json_text
json_option none = "null"
json_option (some s) = json_text s

-- The fields that follow another one
fields_from : List (String × String) → String
unfolding json_text
fields_from [] = "}"
fields_from ((key, value) ∷ rest) =
    concat ("," ∷ json_text key ∷ ":" ∷ value ∷ fields_from rest ∷ [])

-- An object, with `separators=(",", ":")`: each value is printed already.
json_object : List (String × String) → String
unfolding json_text fields_from
json_object [] = "{}"
json_object ((key, value) ∷ rest) =
    concat ("{" ∷ json_text key ∷ ":" ∷ value ∷ fields_from rest ∷ [])

stage_text : AuditStage → String
stage_text AuditStage.request = "request"
stage_text AuditStage.policy = "policy"
stage_text AuditStage.execution = "execution"
stage_text AuditStage.evidence = "evidence"

collector_field : Option String → List (String × String)
unfolding json_text
collector_field none = []
collector_field (some run) = ("collectorRun", json_text run) ∷ []

module _ (isoformat : DateTime → String) where
  as_nexus : Provenance → String
  unfolding json_text json_object collector_field
  as_nexus p = json_object (
      (("adapter", json_text p.adapter) ∷ collector_field p.collector_run)
      ++ ("confidence", json_text p.confidence)
        ∷ ("contract", json_text p.contract)
        ∷ ("observedAt", json_text (isoformat p.observed_at))
        ∷ ("source", json_text p.source)
        ∷ ("sourceInstance", json_text p.source_instance)
        ∷ [])

  -- The text that `json.dumps(document, sort_keys=True, …)` gives.
  unfoldable pub document : AuditEvent → String
  unfolding json_text json_option json_object stage_text as_nexus
  document event = json_object (
      ("actor", json_text event.actor)
      ∷ ("capability", json_text event.capability)
      ∷ ("correlation_id", json_text event.correlation_id)
      ∷ ("evidence_sha256", json_option event.evidence_sha256)
      ∷ ("occurred_at", json_text (isoformat event.occurred_at))
      ∷ ("outcome", json_text event.outcome)
      ∷ ("provenance", as_nexus event.provenance)
      ∷ ("reason", json_text event.reason)
      ∷ ("schema_version", json_text schema_version)
      ∷ ("stage", json_text (stage_text event.stage))
      ∷ ("target_id", json_text event.target_id)
      ∷ ("task_id", json_text event.task_id)
      ∷ [])
