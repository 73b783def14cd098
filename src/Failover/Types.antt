-- ===== src/Failover/Types.antt =====
-- The values of src/cybercore/failover_sim.py: requests, grants, leases, verdicts, and the rows of
-- the journal's three tables.
use cyber_core.Base.{ℕ, String, Bool, true, false, Option}
use cyber_core.Base.Int.{ℤ}

-- The exceptions; `key_error` is Python's own, of a missing dictionary key.
pub data Error : Type 0 where
  simulated_crash unsafe_effect audit_unavailable : String → Error
  key_error : Error

pub record Capability : Type 0 where
  pub capability_id : String
  pub holder : String
  pub target : String
  pub action : String
  pub policy_hash : String
  pub expires : ℤ

pub record Lease : Type 0 where
  pub lease_id : String
  pub holder : String
  pub target : String
  pub epoch : ℕ
  pub expires : ℤ

pub data Decision : Type 0 where
  allow deny unknown : Decision

pub record Verdict : Type 0 where
  pub decision : Decision
  pub target : String
  pub action : String
  pub policy_hash : String
  pub expires : ℤ
  pub valid : Bool

pub record Request : Type 0 where
  pub operation_id : String
  pub actor : String
  pub target : String
  pub action : String
  pub tier : String
  pub policy_hash : String
  pub inventory_fresh : Bool
  pub restore_verified : Bool
  pub production : Bool
  pub human_approval : Option String
  pub correlation_id : String

-- The texts that the column `state` takes.
pub data OpState : Type 0 where
  prepared executing verifying unknown recovering : OpState
  stopped succeeded recovery_failed recovery_blocked : OpState

-- A row of the table `operations`, whose primary key is `operation_id`.
pub record Row : Type 0 where
  pub actor : String
  pub target : String
  pub action : String
  pub tier : String
  pub policy_hash : String
  pub correlation_id : String
  pub idempotency_key : String
  pub state : OpState
  pub before_generation : ℕ
  pub changed : Bool
  pub provider_op : Option String
  pub lease_epoch : ℕ

-- A row of the table `leases`, whose primary key is `target`.
pub record LeaseRow : Type 0 where
  pub holder : String
  pub lease_id : String
  pub epoch : ℕ
  pub expires : ℤ

-- The JSON object of an event, decoded. The first five entries stand in every event; `detail` is
-- what `transition` adds to them.
pub record Detail : Type 0 where
  pub capability_id : String
  pub lease_id : String
  pub lease_epoch : ℕ
  pub voodoo : String
  pub reason : String

-- A row of the table `events`.
pub record Event : Type 0 where
  pub seq : ℕ
  pub operation_id : String
  pub timestamp : ℤ
  pub state : OpState
  pub actor : String
  pub target : String
  pub policy_hash : String
  pub correlation_id : String
  pub detail : Option Detail

-- The states in the list of `Journal.in_flight`.
unfoldable pub is_in_flight : OpState → Bool
is_in_flight prepared = true
is_in_flight executing = true
is_in_flight verifying = true
is_in_flight unknown = true
is_in_flight recovering = true
is_in_flight _ = false

-- The states that `reconcile` returns at once.
unfoldable pub is_terminal : OpState → Bool
is_terminal stopped = true
is_terminal succeeded = true
is_terminal recovery_failed = true
is_terminal recovery_blocked = true
is_terminal _ = false

-- The states for which `_transition` raises an alert.
unfoldable pub is_alert : OpState → Bool
is_alert stopped = true
is_alert unknown = true
is_alert recovery_failed = true
is_alert recovery_blocked = true
is_alert _ = false
