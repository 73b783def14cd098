-- ===== src/Execution/Dispatcher/Served.antt =====
-- What a receipt of `execute_request` of src/cybercore/execution/server/dispatcher.py is made of.
use cyber_core.Base.{String, ◌≡◌, refl, Option}
use cyber_core.Base.Exec.{Result, ok}
use cyber_core.Base.Exec.Returns.{Returns, Returns-bind, Returns-bind-knowing, Returns-pure}
use cyber_core.Execution.Inventory.{Inventory}
use cyber_core.Execution.Protocol.{ServerRequest, ServerError}
use cyber_core.Execution.Authorization.{Verifier}
use cyber_core.Execution.Process.{is_zero}
use cyber_core.Execution.Server.{OperationSpec, resolve_operation, ServerReceipt, Host}
use cyber_core.Execution.Dispatcher.{
  Ran, structured_result, passed, receipt_of, run_operation, execute_request,
}

pub record IsServed (host : Host) (request : ServerRequest) (receipt : ServerReceipt) : Type 0 where
  pub spec : OperationSpec
  pub resolved : resolve_operation request ≡ ok spec
  pub started_at : String
  pub completed_at : String
  pub ran : Ran
  pub result : Option Inventory
  pub structured :
      structured_result (is_zero ran.exit_code) spec.is_inventory (host.decode ran.stdout)
      ≡ ok result
  pub made : receipt ≡ receipt_of host request spec started_at completed_at ran result

Returns-passed : {A : Type 0} (r : Result ServerError A) → Returns (λ a. r ≡ ok a) (passed r)
unfolding passed
Returns-passed r = record { returned = λ s a h. h }

pub execute_request-IsServed :
    (host : Host) (request : ServerRequest) (verifier : Option Verifier)
    → Returns (IsServed host request) (execute_request host request verifier)
unfolding execute_request run_operation
execute_request-IsServed host request verifier =
    Returns-bind-knowing _ _ (Returns-passed (resolve_operation request)) (λ spec resolved.
      Returns-bind _ _ (λ _. Returns-bind _ _ (λ started_at. Returns-bind _ _ (λ outcome.
        Returns-bind _ _ (λ ran. Returns-bind _ _ (λ completed_at.
          Returns-bind-knowing _ _ (Returns-passed _) (λ result structured. Returns-pure _ (record {
            spec = spec;
            resolved = resolved;
            started_at = started_at;
            completed_at = completed_at;
            ran = ran;
            result = result;
            structured = structured;
            made = refl;
          }))))))))
