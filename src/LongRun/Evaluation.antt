-- ===== src/LongRun/Evaluation.antt =====
-- The validation of an evaluation, in src/cybercore/longrun/evaluation.py.
use cyber_core.Base.{
  ℕ, ◌+◌, String, Bool, true, false, ◌&&◌, ◌||◌, not, Option, none, some, List, [], ◌∷◌, ◌==◌,
  string_eq, any, if◌then◌else◌,
}
use cyber_core.Base.Text.{is_blank, concat, decimal}
use cyber_core.Base.Int.{pos}
use cyber_core.Base.Float.{is_finite, le_float, of_int, zero_float}
use cyber_core.LongRun.Types.{
  Json, null, text, flag, integer, float, array, object, other, Items, no_items, item, Fields,
  no_fields, field, EvaluationResult,
}

-- The first exception that is raised.
abbrev pub or_else : Option String → Option String → Option String
or_else (some message) rest = some message
or_else none rest = rest

has_text_keys : Fields → Bool
has_text_keys no_fields = true
has_text_keys (field none value rest) = false
has_text_keys (field (some key) value rest) = has_text_keys rest

mutual
  -- `_validate_json_value`: the message of its ValueError. A tree has no cycle.
  json_failure : String → Json → Option String
  json_failure label null = none
  json_failure label (text s) = none
  json_failure label (flag b) = none
  json_failure label (integer n) = none
  json_failure label (float f) =
      if is_finite f
      then none
      else some (concat (label ∷ " must contain canonical JSON values with finite numbers" ∷ []))
  json_failure label (array items) = items_failure label 0 items
  json_failure label (object fields) =
      let found = fields_failure label fields in
      if has_text_keys fields
      then found
      else some
          (concat (label ∷ " must contain canonical JSON values with string-keyed objects" ∷ []))
  json_failure label other = some (concat (label ∷ " must contain canonical JSON values" ∷ []))

  items_failure : String → ℕ → Items → Option String
  items_failure label index no_items = none
  items_failure label index (item value rest) =
      or_else (json_failure (concat (label ∷ "[" ∷ decimal index ∷ "]" ∷ [])) value)
        (items_failure label (index + 1) rest)

  fields_failure : String → Fields → Option String
  fields_failure label no_fields = none
  fields_failure label (field none value rest) = fields_failure label rest
  fields_failure label (field (some key) value rest) =
      or_else (json_failure (concat (label ∷ "." ∷ key ∷ [])) value) (fields_failure label rest)

-- `validate`: the message of its ValueError.
unfoldable pub evaluation_failure : EvaluationResult → String → Option String
unfolding has_text_keys json_failure
evaluation_failure e expected_evidence_digest =
    if is_blank e.evaluator_id
    then some "evaluator identity and version are required"
    else if is_blank e.evaluator_version
    then some "evaluator identity and version are required"
    else if not (le_float zero_float e.score && le_float e.score (of_int (pos 1)))
    then some "evaluation score must be between 0 and 1"
    else if not (e.verdict == "PASS" || e.verdict == "FAIL")
    then some "evaluation verdict must be PASS or FAIL"
    else if is_empty e.reasons || any is_blank e.reasons
    then some "evaluation reasons must contain non-empty strings"
    else if not (e.evidence_digest == expected_evidence_digest)
    then some "evaluation evidence digest does not match executor evidence"
    else if not (has_text_keys e.metadata)
    then some "evaluation metadata must be an object with string keys"
    else json_failure "evaluation metadata" (object e.metadata)
  where
    is_empty : List String → Bool
    is_empty [] = true
    is_empty (_ ∷ _) = false
