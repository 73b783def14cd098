-- ===== src/Execution/Client.antt =====
-- `execute_action` of src/cybercore/execution/ssh_runner.py and `build_receipt` of src/cybercore/execution/receipt.py.
pub mod Authority
use Prim.Native.String.{◌++◌ as append}
use cyber_core.Base.{
  ℕ, ◌+◌, String, Bool, true, false, ◌&&◌, not, Option, none, some, List, [], ◌∷◌, ◌++◌, ◌==◌,
  string_eq, if◌then◌else◌, length,
}
use cyber_core.Base.Int.{ℤ, pos}
use cyber_core.Base.Text.{concat}
use cyber_core.Base.Time.{DateTime}
use cyber_core.Base.Exec.{Result, ok, err, Exec, pure, raise, reads, raise_if, ◌>>=◌, ◌>>◌}
use cyber_core.Execution.Json.{Json, Fields}
use cyber_core.Execution.Inventory.{Inventory}
use cyber_core.Execution.Protocol.{ExecutionTarget, GovernedAction, request_payload}
use cyber_core.Execution.Authorization.{ExecutionAuthorizationCheck, Grant, Verifier, or_deny_all}
use cyber_core.Execution.Process.{Outcome, completed, timed_out, missing, is_zero}
use cyber_core.Execution.Policy.{PolicyDecision, evaluate_action}
use cyber_core.Execution.Response.{inventory_result}

pub data ExecutionStatus : Type 0 where
  executed failed : ExecutionStatus

pub record ExecutionReceipt : Type 0 where
  pub operation_id : String
  pub operation : String
  pub target_id : String
  pub plan_id : String
  pub plan_revision : String
  pub authorization_reference_sha256 : String
  pub transport_argv : List String
  pub started_at : String
  pub completed_at : String
  pub exit_code : ℤ
  pub stdout_sha256 : String
  pub stderr_sha256 : String
  pub status : ExecutionStatus
  pub mutation_possible : Bool
  pub result : Option Inventory
  pub secret_values_recorded : Bool

-- ExecutionBlockedError with its reason, and the OSError of a transport that cannot be started
pub data ClientError : Type 0 where
  blocked : String → ClientError
  os_error : ClientError

-- What the client is given; `run` says what the n-th transport that it starts answers.
pub record Host : Type 0 where
  pub utc_now : ℕ → String
  pub run : ℕ → List String → Fields → Outcome
  pub digest : String → String
  pub decode : String → Option Json
  pub parse_time : String → Option DateTime

-- What changes: the readings taken, and what was sent, over which transport.
pub record Client : Type 0 where
  pub readings : ℕ
  pub sent : List (List String × Fields)

abbrev pub Request : Type 0 → Type 0
Request A = Exec ClientError Client A

unfoldable pub build_transport_argv : ExecutionTarget → List String
unfolding concat
build_transport_argv target =
    "ssh"
    ∷ "-o"
    ∷ "BatchMode=yes"
    ∷ "-o"
    ∷ "IdentitiesOnly=yes"
    ∷ "-o"
    ∷ "StrictHostKeyChecking=yes"
    ∷ "-o"
    ∷ "ConnectTimeout=15"
    ∷ "-s"
    ∷ concat (target.ssh_user ∷ "@" ∷ target.hostname ∷ [])
    ∷ target.subsystem
    ∷ []

pub record Ran : Type 0 where
  pub exit_code : ℤ
  pub stdout : String
  pub stderr : String
  pub result : Option Inventory

unfoldable pub grant_of : GovernedAction → Grant
grant_of action = record {
  operation_id = action.operation_id;
  operation = action.operation;
  target_id = action.target_id;
  plan_id = action.plan_id;
  plan_revision = action.plan_revision;
  authorization_reference = action.authorization_reference;
}

-- A successful inventory is the one that the response carries, or a failure with the code 65.
with_inventory : String → String → Option Inventory → Ran
with_inventory stdout stderr none = record {
  exit_code = pos 65;
  stdout = stdout;
  stderr = append stderr "\ncybercore-exec structured inventory response failed validation";
  result = none;
}
with_inventory stdout stderr (some inventory) = record {
  exit_code = pos 0;
  stdout = stdout;
  stderr = stderr;
  result = some inventory;
}

module _ (host : Host) where
  utc_now : Request String
  utc_now c = (ok (host.utc_now c.readings), record c { readings = c.readings + 1 })

  send : List String → Fields → Request Outcome
  send argv payload c = (
    ok (host.run (length c.sent) argv payload),
    record c { sent = c.sent ++ (argv, payload) ∷ [] },
  )

  ran_of : GovernedAction → Outcome → Result ClientError Ran
  unfolding with_inventory
  ran_of action missing = err os_error
  ran_of action (timed_out stdout stderr) = ok (record {
    exit_code = pos 124;
    stdout = stdout;
    stderr = append stderr "\ncybercore-exec transport timed out";
    result = none;
  })
  ran_of action (completed returncode stdout stderr) =
      if action.operation == "system.inventory" && is_zero returncode
      then ok (
          with_inventory stdout stderr
            (inventory_result host.digest host.decode host.parse_time action stdout))
      else ok (record { exit_code = returncode; stdout = stdout; stderr = stderr; result = none })

  unfoldable pub build_receipt :
      GovernedAction → List String → String → String → Ran → Bool → ExecutionReceipt
  build_receipt action argv started_at completed_at ran mutating = record {
    operation_id = action.operation_id;
    operation = action.operation;
    target_id = action.target_id;
    plan_id = action.plan_id;
    plan_revision = action.plan_revision;
    authorization_reference_sha256 = host.digest action.authorization_reference;
    transport_argv = argv;
    started_at = started_at;
    completed_at = completed_at;
    exit_code = ran.exit_code;
    stdout_sha256 = host.digest ran.stdout;
    stderr_sha256 = host.digest ran.stderr;
    status = if is_zero ran.exit_code then executed else failed;
    mutation_possible = mutating;
    result = ran.result;
    secret_values_recorded = false;
  }

  passed : {A : Type 0} → Result ClientError A → Request A
  passed r c = (r, c)

  deliver : GovernedAction → ExecutionTarget → Bool → Request ExecutionReceipt
  unfolding ran_of
  deliver action target mutating = do
    started_at ← utc_now
    outcome ← send (build_transport_argv target) (request_payload action)
    ran ← passed (ran_of action outcome)
    completed_at ← utc_now
    pure (build_receipt action (build_transport_argv target) started_at completed_at ran mutating)

  is_unauthorized : GovernedAction → Option Verifier → PolicyDecision → Bool
  is_unauthorized action verifier decision =
      decision.mutating && not (or_deny_all verifier (grant_of action)).authorized

  unfoldable pub execute_action :
      GovernedAction → ExecutionTarget → Option Verifier → Request ExecutionReceipt
  unfolding deliver is_unauthorized passed send utc_now
  execute_action action target verifier = do
    decision ← reads (λ _. evaluate_action action target)
    raise_if (not decision.allowed) (blocked decision.reason)
    raise_if (is_unauthorized action verifier decision)
        (blocked (or_deny_all verifier (grant_of action)).reason)
    deliver action target decision.mutating
