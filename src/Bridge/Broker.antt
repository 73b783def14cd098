-- ===== src/Bridge/Broker.antt =====
-- `TrustedLocalHiveBroker` of src/cybercore/action_kernel_trusted_broker.py: the kernel and the bridge, composed.
pub mod Authority
use cyber_core.Base.{
  String, Bool, true, false, ◌||◌, not, Option, none, some, ◌==◌, string_eq, if◌then◌else◌,
}
use cyber_core.Base.Exec.{Result, ok, err}
use cyber_core.Kernel.{Kernel, is_empty}
use cyber_core.Kernel.Types.{TaskRequest, ExecutionReceipt, Status, executed, denied, failed, Error}
use cyber_core.Kernel.Execute.{execute as execute_task}
use cyber_core.Bridge.Guards.{ReplayGuard}
use cyber_core.Bridge.Interop.{BridgeError}
use cyber_core.Bridge.Process.{HiveDryRunReceipt, Setting, Process, is_allowed}
use cyber_core.Bridge.DryRun.{run_local_hive_dry_run}

pub record BrokerResult : Type 0 where
  pub status : String
  pub reason : String
  pub hive : Option HiveDryRunReceipt

-- What the kernel or the bridge raises
pub data BrokerError : Type 0 where
  of_kernel : Error → BrokerError
  of_bridge : BridgeError → BrokerError

status_text : Status → String
status_text executed = "EXECUTED"
status_text denied = "DENIED"
status_text failed = "FAILED"

dry_run : Result BridgeError HiveDryRunReceipt → Result BrokerError BrokerResult
dry_run (err e) = err (of_bridge e)
dry_run (ok receipt) =
    ok (record { status = "DRY_RUN"; reason = "HIVE_DRY_RUN_ONLY"; hive = some receipt })

module _ {S : Type 0} (setting : Setting) (store : ReplayGuard S) where
  -- `_kernel`, and what the bridge keeps
  abbrev pub Broker : Type 0
  Broker = Kernel × Process S

  forward :
      TaskRequest
      → String
      → Result Error ExecutionReceipt
      → Broker
      → Result BrokerError BrokerResult × Broker
  unfolding dry_run status_text
  forward task actor (err e) broker = (err (of_kernel e), broker)
  forward task actor (ok receipt) (k, p) =
      if not (is_allowed receipt.status receipt.policy.decision)
      then (
        ok (record { status = status_text receipt.status; reason = receipt.reason; hive = none }),
        (k, p),
      )
      else let (answer, q) = run_local_hive_dry_run setting task actor receipt (some store) p in
        (dry_run answer, (k, q))

  unfoldable pub execute : TaskRequest → String → Broker → Result BrokerError BrokerResult × Broker
  unfolding forward
  execute task actor (k, p) =
      if is_empty actor || not (task.actor == actor)
      then (ok (record { status = "DENIED"; reason = "ACTOR_MISMATCH"; hive = none }), (k, p))
      else let (receipt, reached) = execute_task task actor k in
        forward task actor receipt (reached, p)
