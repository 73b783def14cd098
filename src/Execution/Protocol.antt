-- ===== src/Execution/Protocol.antt =====
-- src/cybercore/execution/models.py, src/cybercore/execution/server/protocol.py, and what the client of
-- src/cybercore/execution/ssh_runner.py sends. A message is the value that its JSON encodes.
use cyber_core.Base.{
  ℕ, String, Bool, false, ◌&&◌, not, Option, none, some, List, [], ◌∷◌, Dict, ◌==◌, string_eq, ltb,
  if◌then◌else◌,
}
use cyber_core.Base.Int.{ℤ, pos}
use cyber_core.Base.Text.{is_blank}
use cyber_core.Base.Exec.{Result, ok, err}
use cyber_core.Execution.Json.{Json, integer, text, object, Fields, empty, field, get, has_keys}

pub record ExecutionTarget : Type 0 where
  pub id : String
  pub hostname : String
  pub ssh_user : String
  pub subsystem : String

pub record GovernedAction : Type 0 where
  pub operation_id : String
  pub operation : String
  pub target_id : String
  pub plan_id : String
  pub plan_revision : String
  pub authorization_reference : String
  pub arguments : Dict String String

-- `arguments` is empty in every request that is made, `version` is 1.
pub record ServerRequest : Type 0 where
  pub operation_id : String
  pub operation : String
  pub target_id : String
  pub plan_id : String
  pub plan_revision : String
  pub authorization_reference : String

-- RequestValidationError with its text, and the OSError of a program that cannot be started
pub data ServerError : Type 0 where
  validation_error : String → ServerError
  os_error : ServerError

infixl 5 ◌>>=◌
unfoldable pub ◌>>=◌ :
    {A B : Type 0} → Result ServerError A → (A → Result ServerError B) → Result ServerError B
err e >>= f = err e
ok a >>= f = f a

-- `if refused: raise RequestValidationError(reason)`
unfoldable pub reject_if : Bool → String → Result ServerError Unit
reject_if refused reason = if refused then err (validation_error reason) else ok tt

-- `_REQUIRED_KEYS`
abbrev pub request_keys : List String
request_keys =
    "version" ∷ "operation_id" ∷ "operation" ∷ "target_id" ∷ "plan_id" ∷ "plan_revision"
    ∷ "authorization_reference" ∷ "arguments" ∷ []

is_one : ℤ → Bool
is_one (pos n) = not (ltb n 1) && not (ltb 1 n)
is_one _ = false

check_version : Option Json → Result ServerError Unit
unfolding is_one reject_if
check_version (some (integer n)) = reject_if (not (is_one n)) "unsupported protocol version"
check_version _ = err (validation_error "protocol version must be an integer")

-- A field of the request that must be a text with a character that is not white space
unfoldable pub required_text : String → Option Json → Result ServerError String
required_text reason (some (text s)) = if is_blank s then err (validation_error reason) else ok s
required_text reason _ = err (validation_error reason)

check_arguments : Option Json → Result ServerError Unit
check_arguments (some (object empty)) = ok tt
check_arguments (some (object (field _ _ _))) =
    err (validation_error "free-form operation arguments are not supported")
check_arguments _ = err (validation_error "arguments must be an object")

-- `ServerRequest.from_mapping`
unfoldable pub from_mapping : Fields → Result ServerError ServerRequest
unfolding check_version check_arguments
from_mapping value = do
  exact ←
      reject_if (not (has_keys request_keys value))
        "request fields do not match the exact protocol schema"
  version ← check_version (get "version" value)
  operation_id ← required_text "operation_id must be a non-empty string" (get "operation_id" value)
  operation ← required_text "operation must be a non-empty string" (get "operation" value)
  target_id ← required_text "target_id must be a non-empty string" (get "target_id" value)
  plan_id ← required_text "plan_id must be a non-empty string" (get "plan_id" value)
  plan_revision ←
      required_text "plan_revision must be a non-empty string" (get "plan_revision" value)
  authorization_reference ←
      required_text "authorization_reference must be a non-empty string"
        (get "authorization_reference" value)
  arguments ← check_arguments (get "arguments" value)
  canonical ←
      reject_if (not (target_id == "tasks.cyberdjs.org"))
        "request target is not the canonical server target"
  ok (record {
    operation_id = operation_id;
    operation = operation;
    target_id = target_id;
    plan_id = plan_id;
    plan_revision = plan_revision;
    authorization_reference = authorization_reference;
  })

load_value : Option Json → Result ServerError ServerRequest
load_value none = err (validation_error "request is not valid UTF-8 JSON")
load_value (some (object value)) = from_mapping value
load_value (some _) = err (validation_error "request root must be an object")

-- `_load_request`: the number of bytes read, and what they decode to, if they are UTF-8 JSON
unfoldable pub load_request : ℕ → Option Json → Result ServerError ServerRequest
unfolding load_value
load_request size parsed =
    if ltb 16384 size
    then err (validation_error "request exceeds the maximum encoded size")
    else load_value parsed

argument_fields : Dict String String → Fields
argument_fields [] = empty
argument_fields ((key, value) ∷ rest) = field key (text value) (argument_fields rest)

-- `_request_bytes`, before it is encoded
unfoldable pub request_payload : GovernedAction → Fields
unfolding argument_fields
request_payload action = field "version" (integer (pos 1)) (
    field "operation_id" (text action.operation_id) (
      field "operation" (text action.operation) (
        field "target_id" (text action.target_id) (
          field "plan_id" (text action.plan_id) (
            field "plan_revision" (text action.plan_revision) (
              field "authorization_reference" (text action.authorization_reference)
                (field "arguments" (object (argument_fields action.arguments)) empty)))))))
