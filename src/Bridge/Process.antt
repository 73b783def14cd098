-- ===== src/Bridge/Process.antt =====
-- The process of src/cybercore/action_kernel_hive_bridge.py, and what its bridge tests. Instants count
-- microseconds. The clocks are sequences of readings; the registry of the nodes answers, or raises, on
-- the requests that it was sent before.
use cyber_core.Base.{
  ℕ, ◌+◌, String, Bool, true, false, ◌&&◌, ◌||◌, not, Option, none, some, List, [], ◌∷◌, ◌==◌,
  string_eq, if◌then◌else◌,
}
use cyber_core.Base.Int.{ℤ, pos, leb_ℤ, ◌-ℤ◌}
use cyber_core.Base.Float.{Float}
use cyber_core.Base.Text.{concat}
use cyber_core.Base.Time.{DateTime, le_time}
use cyber_core.Base.Exec.{ok, Exec, pure, raise_if, ◌>>=◌, ◌>>◌}
use cyber_core.Kernel.Types.{TaskRequest, ExecutionReceipt, Status, executed, PolicyDecision, allow}
use cyber_core.Bridge.Guards.{ProcessGuard}
use cyber_core.Bridge.Interop.{BridgeError, permission_error, HiveRequest}

-- `correlation_id` is `none` where the result has no such attribute, and may be None itself.
pub record HiveResult : Type 0 where
  pub request_id : String
  pub target_node : String
  pub action : String
  pub status : String
  pub correlation_id : Option (Option String)

pub record HiveDryRunReceipt : Type 0 where
  pub request_id : String
  pub correlation_id : String
  pub target_id : String
  pub status : String
  pub reason : String

-- What the process is composed with
pub record Setting : Type 0 where
  -- `datetime.now(timezone.utc)` and `monotonic()`, reading by reading
  pub utc : ℕ → ℤ
  pub monotonic : ℕ → Float
  -- `total_seconds` of a difference
  pub total_seconds : ℤ → Float
  pub isoformat : DateTime → String
  -- whether `cyberhive_core.node_agent` can be imported
  pub is_installed : Bool
  -- `registry.dispatch`, where `none` is an exception
  pub registry : List (HiveRequest DateTime) → HiveRequest DateTime → Option HiveResult

-- What changes: `_PROCESS_REPLAY_GUARD`, the durable guard's state, the readings taken, and the
-- requests sent, in order.
pub record Process (S : Type 0) : Type 0 where
  pub claims : ProcessGuard
  pub durable : S
  pub utc_readings : ℕ
  pub monotonic_readings : ℕ
  pub sent : List (HiveRequest DateTime)

abbrev pub five_minutes : ℤ
five_minutes = pos 300000000

unfoldable pub is_allowed : Status → PolicyDecision → Bool
is_allowed executed allow = true
is_allowed _ _ = false

same_time : DateTime → DateTime → Bool
same_time a b =
    if a.is_aware
    then b.is_aware && leb_ℤ a.instant b.instant && leb_ℤ b.instant a.instant
    else not b.is_aware && leb_ℤ a.instant b.instant && leb_ℤ b.instant a.instant

-- The receipt is one for this task and this actor.
unfoldable pub is_receipt_of : TaskRequest → String → ExecutionReceipt → Bool
is_receipt_of task actor receipt =
    receipt.task_id == task.task_id
    && receipt.correlation_id == task.correlation_id
    && receipt.actor == actor
    && receipt.capability == task.capability
    && receipt.target_id == task.target_id

unfoldable pub is_expiry_of : TaskRequest → Option DateTime → Bool
unfolding same_time
is_expiry_of task none = false
is_expiry_of task (some expiry) = same_time expiry task.expires_at

-- `a or b`, where the first test may raise a TypeError
or_test : Option Bool → Bool → Option Bool
or_test none later = none
or_test (some test) later = some (test || later)

unfoldable pub exceeds_lifetime : TaskRequest → ExecutionReceipt → Option Bool
unfolding or_test
exceeds_lifetime task receipt =
    if not task.requested_at.is_aware || not receipt.completed_at.is_aware
    then some true
    else or_test (le_time task.expires_at task.requested_at) (
        not (leb_ℤ task.requested_at.instant receipt.completed_at.instant)
        || not (leb_ℤ (task.expires_at.instant -ℤ receipt.completed_at.instant) five_minutes))

unfoldable pub claim_key : String → TaskRequest → String
unfolding concat
claim_key actor task = concat (actor ∷ ":" ∷ task.task_id ∷ ":" ∷ task.correlation_id ∷ [])

abbrev pub Bridge : Type 0 → Type 0 → Type 0
Bridge S A = Exec BridgeError (Process S) A

module _ {S : Type 0} (setting : Setting) where
  abbrev pub utc_now : Bridge S ℤ
  utc_now p = (ok (setting.utc p.utc_readings), record p { utc_readings = p.utc_readings + 1 })

  abbrev pub monotonic : Bridge S Float
  monotonic p = (
    ok (setting.monotonic p.monotonic_readings),
    record p { monotonic_readings = p.monotonic_readings + 1 },
  )

  -- `_assert_not_expired`
  unfoldable pub assert_not_expired : TaskRequest → Bridge S ℤ
  assert_not_expired task = do
    now ← utc_now
    raise_if (not task.expires_at.is_aware || leb_ℤ task.expires_at.instant now)
        (permission_error "Task authorization expired")
    pure now
