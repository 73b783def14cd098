-- ===== src/Audit/Chain.antt =====
-- What the two checks of the chain decide, those of src/cybercore/action_kernel_sqlite_audit.py and of
-- src/cybercore/action_kernel_audit_checkpoint.py.
use cyber_core.Base.{
  ℕ, suc, zero, ◌≤◌, String, true, ◌≡◌, refl, ◌↔◌, inl, inr, List, [], ◌∷◌, length, eq_iff, arith,
  string_eq,
}
use cyber_core.Base.Exec.{ok, Result-cases}
use cyber_core.Audit.Sink.{AuditRow, event_digest, chain_from}
use cyber_core.Audit.Checkpoint.{Snapshot, snapshot_from}

-- The rows that follow the number and the hash of a row: they count up, and each carries the hash
-- of the row before it and the digest of that hash and its payload.
unfoldable pub IsChain : (String → String) → ℕ → String → List AuditRow → Type 0
IsChain digest seq previous [] = Unit
IsChain digest seq previous (row ∷ rows) =
    (row.seq ≡ suc seq)
    × (row.previous_hash ≡ previous)
    × (row.event_hash ≡ event_digest digest row.previous_hash row.payload)
    × IsChain digest row.seq row.event_hash rows

unfoldable pub entries : List AuditRow → Snapshot
entries [] = []
entries (row ∷ rows) = (row.seq, row.event_hash) ∷ entries rows

-- The first rows
unfoldable pub first : ℕ → List AuditRow → List AuditRow
first zero rows = []
first (suc n) [] = []
first (suc n) (row ∷ rows) = row ∷ first n rows

module _ (digest : String → String) where
  pub chain_from-IsChain :
      (seq : ℕ) (previous : String) (rows : List AuditRow)
      → (chain_from digest seq previous rows ≡ true) ↔ IsChain digest seq previous rows
  unfolding chain_from IsChain
  chain_from-IsChain seq previous [] = (λ _. tt, λ _. refl)
  chain_from-IsChain seq previous (row ∷ rows) =
      let p = eq_iff row.previous_hash previous in
      let q = eq_iff (event_digest digest row.previous_hash row.payload) row.event_hash in
      let (to, from) = chain_from-IsChain row.seq row.event_hash rows in
      (
        λ h.
            (ground (arith, h), ground (arith, h, p), ground (arith, h, q), to (ground (arith, h))),
        λ (a, b, c, rest). ground (arith, a, b, c, from rest, p, q),
      )

  pub snapshot_from-IsChain :
      (seq : ℕ) (previous : String) (rows : List AuditRow) (snapshot : Snapshot)
      → snapshot_from digest seq previous rows ≡ ok snapshot
      → IsChain digest seq previous rows × (snapshot ≡ entries rows)
  unfolding snapshot_from IsChain entries
  snapshot_from-IsChain seq previous [] snapshot h = (tt, ground (arith, h))
  snapshot_from-IsChain seq previous (row ∷ rows) snapshot h =
      let p = eq_iff row.previous_hash previous in
      let q = eq_iff row.event_hash (event_digest digest row.previous_hash row.payload) in
      elim (Result-cases (snapshot_from digest row.seq row.event_hash rows)) [
        | inr (e, failed) ↦ absurd (ground (arith, h, failed))
        | inl (later, made) ↦
            let (chained, listed) = snapshot_from-IsChain row.seq row.event_hash rows later made in
            (
              (ground (arith, h), ground (arith, h, p), ground (arith, h, q), chained),
              ground (arith, h, made, listed),
            )
      ]

  pub IsChain-snapshot_from :
      (seq : ℕ) (previous : String) (rows : List AuditRow)
      → IsChain digest seq previous rows
      → snapshot_from digest seq previous rows ≡ ok (entries rows)
  unfolding snapshot_from IsChain entries
  IsChain-snapshot_from seq previous [] h = refl
  IsChain-snapshot_from seq previous (row ∷ rows) (a, b, c, rest) =
      rw (IsChain-snapshot_from row.seq row.event_hash rows rest) ground (
        arith,
        a,
        b,
        c,
        eq_iff row.previous_hash previous,
        eq_iff row.event_hash (event_digest digest row.previous_hash row.payload),
      )

pub length-first : (n : ℕ) (rows : List AuditRow) → n ≤ length rows → length (first n rows) ≡ n
unfolding first
length-first zero rows h = refl
length-first (suc n) [] h = absurd (omega (arith, h))
length-first (suc n) (row ∷ rows) h = omega (arith, length-first n rows (omega (arith, h)))

pub first-IsChain :
    (digest : String → String) (seq : ℕ) (previous : String) (n : ℕ) (rows : List AuditRow)
    → IsChain digest seq previous rows
    → IsChain digest seq previous (first n rows)
unfolding first IsChain
first-IsChain digest seq previous zero rows h = tt
first-IsChain digest seq previous (suc n) [] h = tt
first-IsChain digest seq previous (suc n) (row ∷ rows) (a, b, c, rest) =
    (a, b, c, first-IsChain digest row.seq row.event_hash n rows rest)
