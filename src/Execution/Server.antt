-- ===== src/Execution/Server.antt =====
-- src/cybercore/execution/server/operations.py and src/cybercore/execution/server/dispatcher.py.
use cyber_core.Base.{
  ℕ, String, Bool, true, false, Option, none, some, List, [], ◌∷◌, Dict, lookup, string_eq,
}
use cyber_core.Base.Int.{ℤ}
use cyber_core.Base.Exec.{Result, ok, err, Exec}
use cyber_core.Execution.Json.{Json, boolean, integer, text, Fields, empty, field}
use cyber_core.Execution.Inventory.{Inventory}
use cyber_core.Execution.Report.{inventory_json}
use cyber_core.Execution.Protocol.{ServerRequest, ServerError, validation_error}
use cyber_core.Execution.Authorization.{Grant}
use cyber_core.Execution.Process.{Outcome}

-- `result_kind` is None or "system_inventory" in every entry.
pub record OperationSpec : Type 0 where
  pub name : String
  pub argv : List String
  pub mutating : Bool
  pub timeout_seconds : ℕ
  pub is_inventory : Bool

-- `_OPERATION_SPECS`
abbrev pub operation_specs : Dict String OperationSpec
operation_specs =
    (
      "system.inventory",
      record {
        name = "system.inventory";
        argv = "/usr/bin/python3" ∷ "/usr/local/libexec/cybercore-exec/inventory.py" ∷ [];
        mutating = false;
        timeout_seconds = 20;
        is_inventory = true;
      },
    )
    ∷ (
      "vikunja.backup.install",
      record {
        name = "vikunja.backup.install";
        argv = "/usr/bin/systemctl" ∷ "start" ∷ "cybercore-vikunja-backup-install.service" ∷ [];
        mutating = true;
        timeout_seconds = 120;
        is_inventory = false;
      },
    )
    ∷ (
      "vikunja.backup.run",
      record {
        name = "vikunja.backup.run";
        argv = "/usr/bin/systemctl" ∷ "start" ∷ "cybercore-vikunja-backup-run.service" ∷ [];
        mutating = true;
        timeout_seconds = 120;
        is_inventory = false;
      },
    )
    ∷ (
      "vikunja.backup.status",
      record {
        name = "vikunja.backup.status";
        argv = "/usr/bin/systemctl" ∷ "is-active" ∷ "vikunja-backup.timer" ∷ [];
        mutating = false;
        timeout_seconds = 15;
        is_inventory = false;
      },
    )
    ∷ (
      "vikunja.health.verify",
      record {
        name = "vikunja.health.verify";
        argv =
            "/usr/bin/curl" ∷ "--fail" ∷ "--silent" ∷ "--show-error" ∷ "--max-time" ∷ "10"
            ∷ "http://127.0.0.1:3456/api/v1/info" ∷ [];
        mutating = false;
        timeout_seconds = 15;
        is_inventory = false;
      },
    )
    ∷ []

unfoldable pub or_unsupported : Option OperationSpec → Result ServerError OperationSpec
or_unsupported none = err (validation_error "operation is not supported by the server allowlist")
or_unsupported (some spec) = ok spec

-- `resolve_operation`: the arguments of a request are empty.
unfoldable pub resolve_operation : ServerRequest → Result ServerError OperationSpec
unfolding or_unsupported
resolve_operation request = or_unsupported (lookup request.operation operation_specs)

pub record ServerReceipt : Type 0 where
  pub operation_id : String
  pub operation : String
  pub target_id : String
  pub plan_id : String
  pub plan_revision : String
  pub authorization_reference_sha256 : String
  pub started_at : String
  pub completed_at : String
  pub exit_code : ℤ
  pub stdout_sha256 : String
  pub stderr_sha256 : String
  pub status : String
  pub mutation_possible : Bool
  pub result : Option Inventory
  pub secret_values_recorded : Bool

result_field : Option Inventory → Fields
result_field none = empty
result_field (some inventory) = field "result" (inventory_json inventory) empty

-- `as_dict`
unfoldable pub as_dict : ServerReceipt → Fields
unfolding result_field
as_dict r = field "operation_id" (text r.operation_id) (
    field "operation" (text r.operation) (
      field "target_id" (text r.target_id) (
        field "plan_id" (text r.plan_id) (
          field "plan_revision" (text r.plan_revision) (
            field "authorization_reference_sha256" (text r.authorization_reference_sha256) (
              field "started_at" (text r.started_at) (
                field "completed_at" (text r.completed_at) (
                  field "exit_code" (integer r.exit_code) (
                    field "stdout_sha256" (text r.stdout_sha256) (
                      field "stderr_sha256" (text r.stderr_sha256) (
                        field "status" (text r.status) (
                          field "mutation_possible" (boolean r.mutation_possible) (
                            field "secret_values_recorded" (boolean r.secret_values_recorded)
                              (result_field r.result))))))))))))))

-- What the server is given: its clock, reading by reading; what the n-th program that it runs answers;
-- the SHA-256 in hexadecimal; UTF-8 JSON
pub record Host : Type 0 where
  pub utc_now : ℕ → String
  pub run : ℕ → List String → Outcome
  pub digest : String → String
  pub decode : String → Option Json

-- What changes: the readings taken, and the programs started, with whether they mutate.
pub record Server : Type 0 where
  pub readings : ℕ
  pub started : List (List String × Bool)

abbrev pub Serve : Type 0 → Type 0
Serve A = Exec ServerError Server A

unfoldable pub grant_of : ServerRequest → Grant
grant_of request = record {
  operation_id = request.operation_id;
  operation = request.operation;
  target_id = request.target_id;
  plan_id = request.plan_id;
  plan_revision = request.plan_revision;
  authorization_reference = request.authorization_reference;
}
