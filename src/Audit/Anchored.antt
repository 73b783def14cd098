-- ===== src/Audit/Anchored.antt =====
-- What it means that a checkpoint is anchored in a log, for `verify_anchored_checkpoint` of
-- src/cybercore/action_kernel_audit_checkpoint.py.
use cyber_core.Base.{
  ℕ, suc, zero, ◌+◌, ◌-◌, ◌<◌, ◌≤◌, String, true, ◌≡◌, subst, ◌↔◌, List, [], ◌∷◌, length, eq_iff,
  arith, some, inl, inr, nat_beq, if◌then◌else◌, ◌==◌, string_eq,
}
use cyber_core.Base.Exec.{Result-cases}
use cyber_core.Audit.Sink.{AuditRow, genesis, last_hash}
use cyber_core.Audit.Checkpoint.{
  snapshot_from, holds_at, AuditCheckpoint, verify_anchored_checkpoint,
}
use cyber_core.Audit.Chain.{IsChain, entries, first, snapshot_from-IsChain, IsChain-snapshot_from}

-- The log verifies, has as many rows as the checkpoint counts, and the last of these has the hash of
-- the checkpoint.
pub record IsAnchored (digest : String → String) (trusted : AuditCheckpoint) (rows : List AuditRow)
    : Type 0 where
  pub chained : IsChain digest 0 genesis rows
  pub counted : trusted.sequence ≤ length rows
  pub hashed : last_hash genesis (first trusted.sequence rows) ≡ trusted.event_hash

module _ (digest : String → String) where
  holds_at-last_hash :
      (seq index n : ℕ) (previous hash : String) (rows : List AuditRow)
      → IsChain digest seq previous rows
      → n ≡ seq + suc index
      → (holds_at (entries rows) index (n, hash) ≡ true)
        ↔ ((index < length rows) × (last_hash previous (first (suc index) rows) ≡ hash))
  unfolding holds_at IsChain entries first last_hash
  holds_at-last_hash seq index n previous hash [] chained e = ground arith
  holds_at-last_hash seq zero n previous hash (row ∷ rows) (a, b, c, rest) e =
      let p = eq_iff row.event_hash hash in
      (λ h. ground (arith, a, h, p), λ h. ground (arith, a, h, p))
  holds_at-last_hash seq (suc index) n previous hash (row ∷ rows) (a, b, c, rest) e =
      let (to, from) =
        holds_at-last_hash row.seq index n row.event_hash hash rows rest (omega (arith, a, e)) in
      (
        λ h. let (more, found) = to (ground (arith, h)) in (omega (arith, more), found),
        λ (more, found). ground (arith, from (omega (arith, more), found)),
      )

  -- The tests of the sequence and of the entry
  anchored_entry :
      (n : ℕ) (hash : String) (rows : List AuditRow)
      → IsChain digest 0 genesis rows
      → ((if nat_beq n 0 then hash == genesis else holds_at (entries rows) (n - 1) (n, hash))
          ≡ true)
        ↔ ((n ≤ length rows) × (last_hash genesis (first n rows) ≡ hash))
  unfolding last_hash first
  anchored_entry zero hash rows chained = ground (arith, eq_iff hash genesis)
  anchored_entry (suc index) hash rows chained =
      let (to, from) =
        holds_at-last_hash 0 index (suc index) genesis hash rows chained (omega arith) in
      (
        λ h. let (more, found) = to (ground (arith, h)) in (omega (arith, more), found),
        λ (more, found). ground (arith, from (omega (arith, more), found)),
      )

  pub verify-IsAnchored :
      (rows : List AuditRow) (last_seq : ℕ) (trusted : AuditCheckpoint) (identity : String)
      → verify_anchored_checkpoint digest
          (some (record { rows = rows; last_seq = last_seq }))
          trusted
          identity
        ≡ true
      → (trusted.database_identity ≡ identity) × IsAnchored digest trusted rows
  unfolding verify_anchored_checkpoint
  verify-IsAnchored rows last_seq trusted identity h =
      elim (Result-cases (snapshot_from digest 0 genesis rows)) [
        | inr (e, failed) ↦ absurd (ground (arith, h, failed))
        | inl (snapshot, made) ↦
            let (chained, listed) = snapshot_from-IsChain digest 0 genesis rows snapshot made in
            let tested = (anchored_entry trusted.sequence trusted.event_hash rows chained).0 (
              subst
                (λ seen.
                  (if nat_beq trusted.sequence 0
                    then trusted.event_hash == genesis
                    else holds_at seen (trusted.sequence - 1)
                        (trusted.sequence, trusted.event_hash))
                  ≡ true)
                listed (ground (arith, h, made))) in
            (
              ground (arith, h, eq_iff trusted.database_identity identity),
              record { chained = chained; counted = tested.0; hashed = tested.1 },
            )
      ]

  pub IsAnchored-verify :
      (rows : List AuditRow) (last_seq : ℕ) (trusted : AuditCheckpoint)
      → IsAnchored digest trusted rows
      → verify_anchored_checkpoint digest
          (some (record { rows = rows; last_seq = last_seq }))
          trusted
          trusted.database_identity
        ≡ true
  unfolding verify_anchored_checkpoint
  IsAnchored-verify rows last_seq trusted h =
      rw (IsChain-snapshot_from digest 0 genesis rows h.chained) ground (
        arith,
        eq_iff trusted.database_identity trusted.database_identity,
        (anchored_entry trusted.sequence trusted.event_hash rows h.chained).1 (h.counted, h.hashed),
      )
