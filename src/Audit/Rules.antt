-- ===== src/Audit/Rules.antt =====
-- Which logs the checks accept, and which checkpoints an authority may accept after which.
use cyber_core.Base.{◌<◌, String, true, ◌≡◌, ◌↔◌, ap, Option, none, some, eq_iff, arith}
use cyber_core.Base.Exec.{ok}
use cyber_core.Audit.Sink.{Database, genesis, verify_chain}
use cyber_core.Audit.Checkpoint.{
  AuditCheckpoint, Snapshot, verified_snapshot, verify_anchored_checkpoint,
}
use cyber_core.Audit.Chain.{
  entries, chain_from-IsChain, snapshot_from-IsChain, IsChain-snapshot_from,
}
use cyber_core.Audit.Anchor.{check_anchor_transition, verify_and_propose_anchor}

-- A first checkpoint counts at least one row; a further one is of the same database and counts more.
pub MayFollow : Option AuditCheckpoint → AuditCheckpoint → Type 0
MayFollow none candidate = 0 < candidate.sequence
MayFollow (some previous) candidate =
    (previous.database_identity ≡ candidate.database_identity)
    × (previous.sequence < candidate.sequence)

check_anchor_transition-MayFollow :
    (previous : Option AuditCheckpoint) (candidate : AuditCheckpoint)
    → ((check_anchor_transition previous candidate).accepted ≡ true) ↔ MayFollow previous candidate
unfolding check_anchor_transition MayFollow
check_anchor_transition-MayFollow none candidate = ground arith
check_anchor_transition-MayFollow (some previous) candidate =
    let p = eq_iff previous.database_identity candidate.database_identity in
    let q = eq_iff candidate.event_hash previous.event_hash in
    (λ h. ground (arith, h, p, q), λ (a, b). ground (arith, a, b, p, q))

module _ (digest : String → String) where
  -- `verify_chain` says True of exactly the files that `_verified_snapshot` returns a snapshot of.
  pub verify_chain-verified_snapshot :
      (database : Database)
      → (verify_chain digest database ≡ ok true)
        ↔ ((snapshot : Snapshot) × (verified_snapshot digest database ≡ ok snapshot))
  unfolding verify_chain verified_snapshot
  verify_chain-verified_snapshot none = (λ h. ground (arith, h), λ (s, h). ground (arith, h))
  verify_chain-verified_snapshot (some table) =
      let (to, from) = chain_from-IsChain digest 0 genesis table.rows in
      (
        λ h. (
          entries table.rows,
          IsChain-snapshot_from digest 0 genesis table.rows (to (ground (arith, h))),
        ),
        λ (s, h). ap (λ b. ok b) (from (snapshot_from-IsChain digest 0 genesis table.rows s h).0),
      )

  -- A candidate is accepted exactly if it may follow the previous checkpoint and is anchored in the
  -- local log.
  pub verify_and_propose_anchor-MayFollow :
      (database : Database) (candidate : AuditCheckpoint) (previous : Option AuditCheckpoint)
      → ((verify_and_propose_anchor digest database candidate previous).accepted ≡ true) ↔ (
          MayFollow previous candidate
          × (verify_anchored_checkpoint digest database candidate candidate.database_identity
              ≡ true))
  unfolding verify_and_propose_anchor
  verify_and_propose_anchor-MayFollow database candidate previous =
      ground (arith, check_anchor_transition-MayFollow previous candidate)
