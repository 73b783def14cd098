-- ===== src/Failover/Journal.antt =====
-- `class Journal` of src/cybercore/failover_sim.py: the durable tables, each method one transaction.
pub mod Rows
use cyber_core.Base.{
  ℕ, suc, ◌+◌, String, Bool, true, false, ◌&&◌, not, Option, none, some, List, [], ◌∷◌, ◌++◌, Dict,
  lookup, insert, any, ◌==◌, string_eq, ltb, is_some, if◌then◌else◌,
}
use cyber_core.Base.Int.{ℤ, pos, ◌+ℤ◌, leb_ℤ}
use cyber_core.Base.Text.{concat, decimal}
use cyber_core.Base.Exec.{Result, ok, err, Exec, pure, raise, raise_if, reads, modify, ◌>>=◌, ◌>>◌}
use cyber_core.Failover.Types.{
  Error, unsafe_effect, audit_unavailable, Lease, Request, OpState, prepared, Row, LeaseRow, Detail,
  Event, is_in_flight,
}

pub record Journal : Type 0 where
  pub operations : Dict String Row
  pub events : List Event
  -- the counter behind `seq INTEGER PRIMARY KEY AUTOINCREMENT`
  pub last_seq : ℕ
  pub leases : Dict String LeaseRow
  pub fail_writes : Bool

abbrev pub Action : Type 0 → Type 0
Action A = Exec Error Journal A

-- `Journal.__init__` on an empty file.
abbrev pub init : Journal
init = record { operations = []; events = []; last_seq = 0; leases = []; fail_writes = false }

unfoldable pub writable : Action Unit
writable j = raise_if j.fail_writes (audit_unavailable "injected journal-write failure") j

unfoldable pub get : String → Journal → Option Row
get operation_id j = lookup operation_id j.operations

-- `_event`
unfoldable pub add_event : String → ℤ → OpState → Row → Option Detail → Journal → Journal
add_event operation_id now state row detail j = record j {
  events =
      j.events
      ++ record {
        seq = j.last_seq + 1;
        operation_id = operation_id;
        timestamp = now;
        state = state;
        actor = row.actor;
        target = row.target;
        policy_hash = row.policy_hash;
        correlation_id = row.correlation_id;
        detail = detail;
      }
        ∷ [];
  last_seq = j.last_seq + 1;
}

abbrev new_row : Request → ℕ → Row
new_row req generation = record {
  actor = req.actor;
  target = req.target;
  action = req.action;
  tier = req.tier;
  policy_hash = req.policy_hash;
  correlation_id = req.correlation_id;
  idempotency_key = req.operation_id;
  state = prepared;
  before_generation = generation;
  changed = false;
  provider_op = none;
  lease_epoch = 0;
}

-- A row with this primary key makes the INSERT fail, and the transaction is rolled back.
unfoldable pub begin : Request → ℕ → ℤ → Action Unit
unfolding writable get add_event
begin req generation now = do
  writable
  known ← reads (λ j. is_some (get req.operation_id j))
  raise_if known (audit_unavailable "journal prepare failed")
  let row = new_row req generation
  modify (λ j. record j { operations = insert req.operation_id row j.operations })
  modify (add_event req.operation_id now prepared row none)

-- The arguments of `transition` that have defaults.
pub record Change : Type 0 where
  pub state : OpState
  pub detail : Detail
  pub provider_op : Option String
  pub changed : Option Bool

-- The UPDATE statement: COALESCE keeps the old value for NULL.
abbrev pub update_row : Change → Row → Row
update_row c row = record row {
  state = c.state;
  changed = elim c.changed [ none ↦ row.changed | some b ↦ b ];
  provider_op = elim c.provider_op [ none ↦ row.provider_op | some p ↦ some p ];
  lease_epoch = if ltb 0 c.detail.lease_epoch then c.detail.lease_epoch else row.lease_epoch;
}

or_missing : Option Row → Action Row
or_missing none = raise (audit_unavailable "missing persisted operation")
or_missing (some row) = pure row

unfoldable pub transition : String → ℤ → Change → Action Unit
unfolding writable get add_event or_missing
transition operation_id now c = do
  writable
  found ← reads (get operation_id)
  row ← or_missing found
  modify (λ j. record j { operations = insert operation_id (update_row c row) j.operations })
  modify (add_event operation_id now c.state row (some c.detail))

next_epoch : Option LeaseRow → ℕ
next_epoch none = 1
next_epoch (some row) = row.epoch + 1

is_held : Option LeaseRow → ℤ → Bool
is_held none now = false
is_held (some row) now = not (leb_ℤ row.expires now)

unfoldable pub acquire : String → String → ℤ → Bool → ℤ → Action Lease
unfolding writable next_epoch is_held
acquire target holder now takeover ttl = do
  writable
  current ← reads (λ j. lookup target j.leases)
  raise_if (is_held current now && not takeover)
      (unsafe_effect "active lease prevents competing controller")
  let epoch = next_epoch current
  let lease_id = concat ("lease-" ∷ decimal epoch ∷ "-" ∷ holder ∷ [])
  let row : LeaseRow = record {
    holder = holder;
    lease_id = lease_id;
    epoch = epoch;
    expires = now +ℤ ttl;
  }
  modify (λ j. record j { leases = insert target row j.leases })
  pure (record {
    lease_id = lease_id;
    holder = holder;
    target = target;
    epoch = epoch;
    expires = now +ℤ ttl;
  })

unfoldable pub in_flight : String → String → Journal → Bool
in_flight target excluding j =
    any
      (λ (entry : String × Row).
        entry.1.target == target && not (entry.0 == excluding) && is_in_flight entry.1.state)
      j.operations

as_lease : String → Option LeaseRow → Option Lease
as_lease target none = none
as_lease target (some row) = some (record {
  lease_id = row.lease_id;
  holder = row.holder;
  target = target;
  epoch = row.epoch;
  expires = row.expires;
})

unfoldable pub current_lease : String → Journal → Option Lease
unfolding as_lease
current_lease target j = as_lease target (lookup target j.leases)
