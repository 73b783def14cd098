-- ===== src/Execution/Tests.antt =====
-- Runs of the client and the server of src/cybercore/execution/ on concrete inputs, and the theorems about them there.
use cyber_core.Base.{
  ltb, String, true, false, ◌≡◌, refl, ◌⊎◌, Option, none, some, [], ◌∷◌, contains, all, lookup,
  ◌==◌, string_eq, if◌then◌else◌,
}
use cyber_core.Base.Int.{pos, leb_ℤ}
use cyber_core.Base.Float.{zero_float, is_finite, lt_float, le_float}
use cyber_core.Base.Text.{is_blank}
use cyber_core.Base.Time.{DateTime}
use cyber_core.Base.Exec.{ok, err, ◌>>=◌}
use cyber_core.Execution.Json.{Json, text, object, get, has_keys}
use cyber_core.Execution.Inventory.{
  ◌>>=◌ as then, Inventory, require_exact_dict, require_int, require_positive_int, require_number,
  require_text, require_non_empty_text, require_boolean, read_host, read_memory, read_filesystem,
  unless,
}
use cyber_core.Execution.Docker.{
  read_docker, read_version, read_bounded, read_rows, read_container, read_storage,
}
use cyber_core.Execution.Report.{validate_inventory_payload, inventory_json}
use cyber_core.Execution.Stable.Rows.{validate_inventory_payload-again}
use cyber_core.Execution.Protocol.{
  GovernedAction, validation_error, from_mapping, request_payload, load_request, ◌>>=◌ as and_then,
  required_text, reject_if,
}
use cyber_core.Execution.Policy.{evaluate_action, vikunja_target}
use cyber_core.Execution.Process.{completed}
use cyber_core.Execution.Server.{
  OperationSpec, resolve_operation, ServerReceipt, as_dict, Host, Server,
}
use cyber_core.Execution.Dispatcher.{execute_request, main, structured_result, receipt_of}
use cyber_core.Execution.Dispatcher.Authority.{
  Started, execute_request-Started, IsHarmless, main-IsHarmless,
}
use cyber_core.Execution.Client as C
use cyber_core.Execution.Client.Authority.{Sent, execute_action-Sent}
use cyber_core.Execution.Response.{inventory_result, timestamp, is_sha256}
use cyber_core.Execution.Agreement.{request_of, request_payload-understood}
use cyber_core.Execution.Transfer.{inventory-transfers}

abbrev action : String → GovernedAction
action operation = record {
  operation_id = "op-1";
  operation = operation;
  target_id = "tasks.cyberdjs.org";
  plan_id = "WB-0037";
  plan_revision = "1";
  authorization_reference = "issue-1";
  arguments = [];
}

abbrev inventory : Inventory
inventory = record {
  host = record {
    hostname = "tasks";
    cpu_logical = 2;
    load_1m = zero_float;
    load_5m = zero_float;
    load_15m = zero_float;
  };
  memory = record {
    total_bytes = 4096;
    available_bytes = 1024;
    swap_total_bytes = 0;
    swap_free_bytes = 0;
  };
  filesystem = record { total_bytes = 4096; used_bytes = 1024; free_bytes = 2048 };
  docker = record {
    cli_present = true;
    access_status = "ok";
    server_version = some "27.1";
    containers =
        record {
          name = "vikunja";
          image = "vikunja/vikunja";
          status = "Up";
          ports = "";
          size = "1MB";
        }
        ∷ [];
    storage =
        record {
          kind = "Images";
          total_count = "1";
          active = "1";
          size = "1MB";
          reclaimable = "0B";
        }
        ∷ [];
  };
}

-- A digest of the right form
abbrev digest : String → String
digest _ = "00000000000000000000000000000000000000000000000000000000000000ab"

abbrev host : Host
host = record {
  utc_now = λ _. "2026-01-01T00:00:00Z";
  run = λ _ _. completed (pos 0) "inventory" "";
  digest = digest;
  decode = λ s. if s == "inventory" then some (inventory_json inventory) else none;
}

abbrev idle : Server
idle = record { readings = 0; started = [] }

validates : validate_inventory_payload (inventory_json inventory) ≡ some inventory
unfolding validate_inventory_payload inventory_json require_exact_dict has_keys contains all get
    require_int then read_host read_memory read_filesystem read_docker require_positive_int
    require_number require_text require_non_empty_text require_boolean unless read_version
    read_bounded read_rows read_container read_storage is_blank is_finite lt_float le_float leb_ℤ
validates = refl

accepted : (evaluate_action (action "system.inventory") vikunja_target).allowed ≡ true
unfolding evaluate_action contains is_blank
accepted = refl

unsupported :
    (evaluate_action (action "system.reboot") vikunja_target).reason
    ≡ "operation is not supported by WB-0037 V1"
unfolding evaluate_action contains is_blank
unsupported = refl

-- `main` blocks a request that mutates.
blocks :
    (main host 300 (some (object (request_payload (action "vikunja.backup.run")))) idle).0.1 ≡ 2
unfolding main execute_request load_request from_mapping request_payload has_keys contains all get
    and_then required_text reject_if is_blank resolve_operation lookup ◌>>=◌
blocks = refl

abbrev receipt : ServerReceipt
receipt = record {
  operation_id = "op-1";
  operation = "system.inventory";
  target_id = "tasks.cyberdjs.org";
  plan_id = "WB-0037";
  plan_revision = "1";
  authorization_reference_sha256 = digest "issue-1";
  started_at = "2026-01-01T00:00:00Z";
  completed_at = "2026-01-01T00:00:00Z";
  exit_code = pos 0;
  stdout_sha256 = digest "inventory";
  stderr_sha256 = digest "";
  status = "EXECUTED";
  mutation_possible = false;
  result = some inventory;
  secret_values_recorded = false;
}

served : (execute_request host (request_of (action "system.inventory")) none idle).0 ≡ ok receipt
unfolding execute_request resolve_operation lookup ◌>>=◌ receipt_of structured_result
    validate_inventory_payload inventory_json require_exact_dict has_keys contains all get
    require_int then read_host read_memory read_filesystem read_docker require_positive_int
    require_number require_text require_non_empty_text require_boolean unless read_version
    read_bounded read_rows read_container read_storage is_blank is_finite lt_float le_float leb_ℤ
served = refl

abbrev read : String → Option Json
read _ = some (object (as_dict receipt))

abbrev moment : DateTime
moment = record { instant = pos 0; is_aware = true }

abbrev parse_time : String → Option DateTime
parse_time _ = some moment

hashes : (s : String) → is_sha256 (digest s) ≡ true
unfolding is_sha256
hashes s = refl

on_time : timestamp digest read parse_time (some (text "2026-01-01T00:00:00Z")) ≡ some moment
unfolding timestamp then
on_time = refl

inventory-transfers_example :
    (i : Inventory) × (receipt.result ≡ some i)
    × (inventory_result digest read parse_time (action "system.inventory") "receipt" ≡ some i)
unfolding leb_ℤ
inventory-transfers_example =
    inventory-transfers host read parse_time hashes (action "system.inventory") refl none idle
      receipt "receipt" moment moment served refl refl on_time on_time refl

validate_inventory_payload-again_example :
    validate_inventory_payload (inventory_json inventory) ≡ some inventory
validate_inventory_payload-again_example =
    validate_inventory_payload-again (inventory_json inventory) inventory validates

request_payload-understood_example :
    (load_request 300 (some (object (request_payload (action "system.inventory")))) ≡ (
      if ltb 16384 300
      then err (validation_error "request exceeds the maximum encoded size")
      else ok (request_of (action "system.inventory"))))
    × ((spec : OperationSpec) × (resolve_operation (request_of (action "system.inventory"))
          ≡ ok spec)
        × (spec.name ≡ "system.inventory")
        × (spec.mutating ≡ (evaluate_action (action "system.inventory") vikunja_target).mutating))
request_payload-understood_example =
    request_payload-understood (action "system.inventory") 300 accepted

execute_request-Started_example :
    let after = (execute_request host (request_of (action "vikunja.backup.run")) none idle).1 in
    (after.started ≡ []) ⊎ Started (request_of (action "vikunja.backup.run")) none idle after
execute_request-Started_example =
    execute_request-Started host (request_of (action "vikunja.backup.run")) none idle

main-IsHarmless_example :
    IsHarmless host idle
      (main host 300 (some (object (request_payload (action "vikunja.backup.run")))) idle).1
main-IsHarmless_example =
    main-IsHarmless host idle 300 (some (object (request_payload (action "vikunja.backup.run"))))

abbrev workstation : C.Host
workstation = record {
  utc_now = λ _. "2026-01-01T00:00:00Z";
  run = λ _ _ _. completed (pos 0) "receipt" "";
  digest = digest;
  decode = read;
  parse_time = parse_time;
}

abbrev ready : C.Client
ready = record { readings = 0; sent = [] }

execute_action-Sent_example :
    let after =
      (C.execute_action workstation (action "system.inventory") vikunja_target none ready).1 in
    (after.sent ≡ []) ⊎ Sent (action "system.inventory") vikunja_target none ready after
execute_action-Sent_example =
    execute_action-Sent workstation (action "system.inventory") vikunja_target none ready
