-- ===== src/Bridge/Guards.antt =====
-- The guards against replays: `SQLiteReplayGuard` of src/cybercore/action_kernel_sqlite_replay.py, and
-- `InMemoryReplayGuard` and `_ExpiringProcessReplayGuard` of src/cybercore/action_kernel_hive_bridge.py.
pub mod Claims
pub mod Bounds
pub mod Memory
pub mod Once
use Prim.Native.String.{len}
use cyber_core.Base.{
  ℕ, suc, ◌+◌, String, Bool, true, false, ◌||◌, not, none, some, Option, List, [], ◌∷◌, Dict,
  lookup, insert, contains, keep, length, ◌==◌, string_eq, ltb, leb, nat_beq, if◌then◌else◌,
  is_some,
}
use cyber_core.Base.Int.{ℤ, leb_ℤ}
use cyber_core.Base.Exec.{Result, ok, err}

pub data GuardError : Type 0 where
  value_error permission_error : String → GuardError
  unavailable : GuardError

-- The protocol `ReplayGuard`, over the state that a guard keeps
pub record ReplayGuard (S : Type 0) : Type 0 where
  pub claim_once : String → S → Result GuardError Bool × S

-- `_claimed`, and the column `key` of `replay_claims`: the set of the keys that were claimed
unfoldable pub claim_in_memory : String → List String → Result GuardError Bool × List String
claim_in_memory key claimed =
    if contains claimed key then (ok false, claimed) else (ok true, key ∷ claimed)

abbrev pub is_invalid_key : String → Bool
is_invalid_key key = nat_beq (len key) 0 || ltb 1024 (len key)

-- `INSERT OR IGNORE`, and whether it inserted a row
insert_or_ignore : String → List String → Bool × List String
insert_or_ignore key claimed =
    if contains claimed key then (false, claimed) else (true, key ∷ claimed)

unfoldable pub claim_in_database : String → List String → Result GuardError Bool × List String
unfolding insert_or_ignore
claim_in_database key claimed =
    if is_invalid_key key
    then (err (value_error "Invalid replay key"), claimed)
    else let (inserted, after) = insert_or_ignore key claimed in (ok inserted, after)

abbrev pub in_memory_guard : ReplayGuard (List String)
in_memory_guard = record { claim_once = claim_in_memory }

abbrev pub sqlite_guard : ReplayGuard (List String)
sqlite_guard = record { claim_once = claim_in_database }

-- A claim of the process: until when, and whose. The times have a zone: the bridge checks it before.
pub record Claim : Type 0 where
  pub until : ℤ
  pub actor : String

pub record ProcessGuard : Type 0 where
  pub max_entries : ℕ
  pub max_per_actor : ℕ
  pub claimed_until : Dict String Claim

-- The constructor; `max_per_actor` defaults to `max_entries`.
unfoldable pub make_process_guard : ℕ → Option ℕ → Result GuardError ProcessGuard
make_process_guard max_entries none =
    if nat_beq max_entries 0
    then err (value_error "Replay cache capacity must be positive")
    else ok (record { max_entries = max_entries; max_per_actor = max_entries; claimed_until = [] })
make_process_guard max_entries (some per_actor) =
    if nat_beq max_entries 0
    then err (value_error "Replay cache capacity must be positive")
    else if nat_beq per_actor 0
    then err (value_error "Per-actor replay capacity must be positive")
    else ok (record { max_entries = max_entries; max_per_actor = per_actor; claimed_until = [] })

-- `del` of the expired keys
unfoldable pub evict : ℤ → Dict String Claim → Dict String Claim
evict now claims = keep (λ (key, claim). not (leb_ℤ claim.until now)) claims

unfoldable pub actor_claims : String → Dict String Claim → ℕ
actor_claims actor [] = 0
actor_claims actor ((key, claim) ∷ claims) =
    let rest = actor_claims actor claims in if claim.actor == actor then suc rest else rest

-- `claim_once`, once the expired keys are gone
claim_live : String → ℤ → ℤ → String → ProcessGuard → Result GuardError Bool × ProcessGuard
unfolding actor_claims
claim_live key expires_at now actor guard =
    if is_some (lookup key guard.claimed_until)
    then (ok false, guard)
    else if leb_ℤ expires_at now
    then (ok true, guard)
    else if leb guard.max_entries (length guard.claimed_until)
    then (err (permission_error "Process replay guard capacity exhausted"), guard)
    else if leb guard.max_per_actor (actor_claims actor guard.claimed_until)
    then (err (permission_error "Actor replay guard capacity exhausted"), guard)
    else (
      ok true,
      record guard {
        claimed_until =
            insert key (record { until = expires_at; actor = actor }) guard.claimed_until;
      },
    )

unfoldable pub claim_in_process :
    String → ℤ → ℤ → String → ProcessGuard → Result GuardError Bool × ProcessGuard
unfolding evict claim_live
claim_in_process key expires_at now actor guard =
    claim_live key expires_at now actor
      (record guard { claimed_until = evict now guard.claimed_until })
