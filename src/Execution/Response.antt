-- ===== src/Execution/Response.antt =====
-- What the client of src/cybercore/execution/ssh_runner.py makes of a server's receipt. `none` is the ValueError, whose
-- text the caller drops.
use Prim.Native.Char.{code}
use Prim.Native.String.{count}
use cyber_core.Base.{
  String, Bool, true, false, ◌||◌, ◌&&◌, not, Option, none, some, List, [], ◌∷◌, ◌==◌, string_eq,
  leb, nat_beq, if◌then◌else◌,
}
use cyber_core.Base.Int.{leb_ℤ}
use cyber_core.Base.Time.{DateTime}
use cyber_core.Execution.Json.{Json, boolean, integer, text, object, Fields, get, has_keys}
use cyber_core.Execution.Inventory.{◌>>=◌, Inventory}
use cyber_core.Execution.Report.{validate_inventory_payload}
use cyber_core.Execution.Protocol.{GovernedAction}
use cyber_core.Execution.Process.{is_zero}

-- `_INVENTORY_RECEIPT_KEYS`
abbrev pub receipt_keys : List String
receipt_keys =
    "operation_id" ∷ "operation" ∷ "target_id" ∷ "plan_id" ∷ "plan_revision"
    ∷ "authorization_reference_sha256" ∷ "started_at" ∷ "completed_at" ∷ "exit_code"
    ∷ "stdout_sha256" ∷ "stderr_sha256" ∷ "status" ∷ "mutation_possible" ∷ "result"
    ∷ "secret_values_recorded" ∷ []

-- A step that raises unless the test holds
unfoldable pub ensure : Bool → Option Bool
ensure b = if b then some true else none

is_hex_text : String → Bool
is_hex_text String.[] = true
is_hex_text (String.◌∷◌ c s) =
    ((leb b'0' (code c) && leb (code c) b'9') || (leb b'a' (code c) && leb (code c) b'f'))
    && is_hex_text s

-- `_require_server_receipt_sha256`, of a text
unfoldable pub is_sha256 : String → Bool
unfolding is_hex_text
is_sha256 s = nat_beq (count s) 64 && is_hex_text s

is_sha256_value : Option Json → Bool
is_sha256_value (some (text s)) = is_sha256 s
is_sha256_value _ = false

is_success : Option Json → Bool
is_success (some (integer n)) = is_zero n
is_success _ = false

is_text : String → Option Json → Bool
is_text expected (some (text s)) = s == expected
is_text expected _ = false

is_false : Option Json → Bool
is_false (some (boolean b)) = not b
is_false _ = false

aware : DateTime → Option DateTime
aware t = if t.is_aware then some t else none

module _ (digest : String → String) (decode : String → Option Json)
    (parse_time : String → Option DateTime) where
  -- `_require_server_receipt_timestamp`: `fromisoformat` of the text, and its time zone
  unfoldable pub timestamp : Option Json → Option DateTime
  unfolding aware
  timestamp (some (text s)) = do t ← parse_time s; aware t
  timestamp _ = none

  unfoldable pub bound_result : GovernedAction → Fields → Option Inventory
  unfolding is_sha256_value is_success is_text is_false ensure
  bound_result action payload = do
    exact ← ensure (has_keys receipt_keys payload)
    success ← ensure (is_success (get "exit_code" payload))
    started_at ← timestamp (get "started_at" payload)
    completed_at ← timestamp (get "completed_at" payload)
    ordered ← ensure (leb_ℤ started_at.instant completed_at.instant)
    hashed ← ensure (
        is_sha256_value (get "stdout_sha256" payload)
        && is_sha256_value (get "stderr_sha256" payload))
    bound ← ensure (
        is_text action.operation_id (get "operation_id" payload)
        && is_text action.operation (get "operation" payload)
        && is_text action.target_id (get "target_id" payload)
        && is_text action.plan_id (get "plan_id" payload)
        && is_text action.plan_revision (get "plan_revision" payload)
        && is_text (digest action.authorization_reference)
            (get "authorization_reference_sha256" payload)
        && is_text "EXECUTED" (get "status" payload)
        && is_false (get "mutation_possible" payload)
        && is_false (get "secret_values_recorded" payload))
    result ← get "result" payload
    validate_inventory_payload result

  object_result : GovernedAction → Option Json → Option Inventory
  object_result action (some (object payload)) = bound_result action payload
  object_result action _ = none

  -- `_inventory_result_from_server_response`
  unfoldable pub inventory_result : GovernedAction → String → Option Inventory
  unfolding object_result
  inventory_result action stdout = object_result action (decode stdout)
