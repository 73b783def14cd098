-- ===== src/Execution/Dispatcher.antt =====
-- `execute_request` and `main` of src/cybercore/execution/server/dispatcher.py.
pub mod Authority
pub mod Served
use Prim.Native.String.{◌++◌ as append}
use cyber_core.Base.{
  ℕ, ◌+◌, String, Bool, true, false, ◌&&◌, not, Option, none, some, List, [], ◌∷◌, ◌++◌, ◌==◌,
  string_eq, if◌then◌else◌, length,
}
use cyber_core.Base.Int.{ℤ, pos}
use cyber_core.Base.Exec.{Result, ok, err, Exec, pure, raise, reads, raise_if, ◌>>=◌, ◌>>◌}
use cyber_core.Execution.Json.{Json, boolean, text, Fields, empty, field}
use cyber_core.Execution.Inventory.{Inventory}
use cyber_core.Execution.Report.{validate_inventory_payload}
use cyber_core.Execution.Protocol.{
  ServerRequest, ServerError, validation_error, os_error, load_request,
}
use cyber_core.Execution.Authorization.{Verifier, or_deny_all}
use cyber_core.Execution.Process.{Outcome, completed, timed_out, missing, is_zero}
use cyber_core.Execution.Server.{
  OperationSpec, resolve_operation, ServerReceipt, as_dict, Host, Server, Serve, grant_of,
}

pub record Ran : Type 0 where
  pub exit_code : ℤ
  pub stdout : String
  pub stderr : String

-- What is kept of a program that was run
ran_of : Outcome → Result ServerError Ran
ran_of (completed returncode stdout stderr) =
    ok (record { exit_code = returncode; stdout = stdout; stderr = stderr })
ran_of (timed_out stdout stderr) = ok (record {
  exit_code = pos 124;
  stdout = stdout;
  stderr = append stderr "\ncybercore-exec operation timed out";
})
ran_of missing = err os_error

inventory_of : Option Json → Result ServerError (Option Inventory)
inventory_of none = err (validation_error "system inventory output failed validation")
inventory_of (some value) = elim (validate_inventory_payload value) [
  | none ↦ err (validation_error "system inventory output failed validation")
  | some inventory ↦ ok (some inventory)
]

-- `_structured_result`, where the exit code is 0
unfoldable pub structured_result : Bool → Bool → Option Json → Result ServerError (Option Inventory)
unfolding inventory_of
structured_result succeeded is_inventory decoded =
    if succeeded && is_inventory then inventory_of decoded else ok none

passed : {A : Type 0} → Result ServerError A → Serve A
passed r s = (r, s)

module _ (host : Host) where
  utc_now : Serve String
  utc_now s = (ok (host.utc_now s.readings), record s { readings = s.readings + 1 })

  -- `runner(list(spec.argv), …)`
  start : OperationSpec → Serve Outcome
  start spec s = (
    ok (host.run (length s.started) spec.argv),
    record s { started = s.started ++ (spec.argv, spec.mutating) ∷ [] },
  )

  unfoldable pub receipt_of :
      ServerRequest → OperationSpec → String → String → Ran → Option Inventory → ServerReceipt
  receipt_of request spec started_at completed_at ran result = record {
    operation_id = request.operation_id;
    operation = request.operation;
    target_id = request.target_id;
    plan_id = request.plan_id;
    plan_revision = request.plan_revision;
    authorization_reference_sha256 = host.digest request.authorization_reference;
    started_at = started_at;
    completed_at = completed_at;
    exit_code = ran.exit_code;
    stdout_sha256 = host.digest ran.stdout;
    stderr_sha256 = host.digest ran.stderr;
    status = if is_zero ran.exit_code then "EXECUTED" else "FAILED";
    mutation_possible = spec.mutating;
    result = result;
    secret_values_recorded = false;
  }

  run_operation : ServerRequest → OperationSpec → Serve ServerReceipt
  unfolding passed ran_of structured_result
  run_operation request spec = do
    started_at ← utc_now
    outcome ← start spec
    ran ← passed (ran_of outcome)
    completed_at ← utc_now
    result ←
        passed
          (structured_result (is_zero ran.exit_code) spec.is_inventory (host.decode ran.stdout))
    pure (receipt_of request spec started_at completed_at ran result)

  is_unauthorized : ServerRequest → Option Verifier → OperationSpec → Bool
  is_unauthorized request verifier spec =
      spec.mutating && not (or_deny_all verifier (grant_of request)).authorized

  unfoldable pub execute_request : ServerRequest → Option Verifier → Serve ServerReceipt
  unfolding passed run_operation is_unauthorized utc_now start
  execute_request request verifier = do
    spec ← passed (resolve_operation request)
    raise_if (is_unauthorized request verifier spec)
        (validation_error "mutating request lacks verified authorization")
    run_operation request spec

  -- `_blocked`
  blocked : String → Fields
  blocked reason =
      field "status" (text "BLOCKED")
        (field "reason" (text reason) (field "secret_values_recorded" (boolean false) empty))

  -- What `main` writes, and the code that it returns
  answer : Result ServerError ServerReceipt → Fields × ℕ
  unfolding blocked
  answer (ok receipt) = (as_dict receipt, if receipt.status == "EXECUTED" then 0 else 1)
  answer (err (validation_error reason)) = (blocked reason, 2)
  answer (err os_error) = (blocked "fixed operation executable is unavailable", 126)

  serve : Result ServerError ServerRequest → Serve ServerReceipt
  serve (err e) = raise e
  serve (ok request) = execute_request request none

  unfoldable pub main : ℕ → Option Json → Server → (Fields × ℕ) × Server
  unfolding answer serve
  main size parsed s = let (r, reached) = serve (load_request size parsed) s in (answer r, reached)
