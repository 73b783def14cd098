-- ===== src/Bridge/Guards/Once.antt =====
-- What the bridge asks of a durable guard, and the two guards that do it: `InMemoryReplayGuard` of
-- src/cybercore/action_kernel_hive_bridge.py for a process, `SQLiteReplayGuard` of
-- src/cybercore/action_kernel_sqlite_replay.py for a host.
use cyber_core.Base.{
  String, Bool, true, false, ◌≡◌, refl, List, contains, string_eq, beq_refl, arith, Bool-cases, inl,
  inr,
}
use cyber_core.Base.Exec.{ok}
use cyber_core.Bridge.Guards.{
  ReplayGuard, claim_in_memory, claim_in_database, in_memory_guard, sqlite_guard, is_invalid_key,
}

-- A key is granted once: it was not claimed before, it is from then on, and no claim is forgotten.
pub record IsDurable {S : Type 0} (guard : ReplayGuard S) : Type 0 where
  pub claimed : S → String → Bool
  pub grants :
      (key : String) (state : S)
      → (guard.claim_once key state).0 ≡ ok true
      → (claimed state key ≡ false) × (claimed (guard.claim_once key state).1 key ≡ true)
  pub keeps :
      (key other : String) (state : S)
      → claimed state other ≡ true
      → claimed (guard.claim_once key state).1 other ≡ true

pub in_memory_guard-IsDurable : IsDurable in_memory_guard
unfolding claim_in_memory contains
in_memory_guard-IsDurable = record {
  claimed = contains;
  grants = λ key state h. (ground (arith, h), ground (arith, h, beq_refl key));
  keeps = λ key other state h. ground (arith, h);
}

pub sqlite_guard-IsDurable : IsDurable sqlite_guard
unfolding claim_in_database contains
sqlite_guard-IsDurable = record {
  claimed = contains;
  grants = λ key state h. (ground (arith, h), ground (arith, h, beq_refl key));
  keeps = λ key other state h. ground (arith, h);
}

-- For a key that is neither empty nor longer than 1024 bytes, the database does what the set does.
pub claim_in_database-claim_in_memory :
    (key : String) (claimed : List String)
    → is_invalid_key key ≡ false
    → claim_in_database key claimed ≡ claim_in_memory key claimed
unfolding claim_in_database claim_in_memory
claim_in_database-claim_in_memory key claimed valid =
    rw valid (elim (Bool-cases (contains claimed key)) [
      | inl there ↦ rw there refl
      | inr free ↦ rw free refl
    ])
