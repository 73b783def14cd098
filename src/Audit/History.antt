-- ===== src/Audit/History.antt =====
-- The log over its life: what verifies, and what stays anchored while it grows.
use cyber_core.Base.{
  ℕ, suc, ◌+◌, String, Bool, true, ◌≡◌, refl, ap, sym, ◌∙◌, List, [], ◌∷◌, length, arith, none,
  some, inl, inr,
}
use cyber_core.Base.Exec.{Result, ok, err, Result-cases}
use cyber_core.Base.Time.{DateTime}
use cyber_core.Kernel.Types.{AuditEvent}
use cyber_core.Audit.Sink.{
  SinkError, operational_error, AuditRow, Database, genesis, last_hash, create_table, verify_chain,
}
use cyber_core.Audit.Checkpoint.{
  AuditCheckpoint, checkpoint_of, audit_checkpoint, make_checkpoint, last_entry, snapshot_from,
  verify_anchored_checkpoint,
}
use cyber_core.Audit.Chain.{IsChain, entries, first, chain_from-IsChain, snapshot_from-IsChain}
use cyber_core.Audit.Anchored.{IsAnchored, IsAnchored-verify}
use cyber_core.Audit.Log.{
  IsLog, IsFilled, rows_of, log_events-IsFilled, payloads, log_events, accepted, log_events-IsLog,
  log_events-payloads, log_events-IsAnchored, log_events-exists,
}

first-all : (rows : List AuditRow) → first (length rows) rows ≡ rows
unfolding first
first-all [] = refl
first-all (row ∷ rows) = ap (λ r. row ∷ r) (first-all rows)

last_entry-entries :
    (digest : String → String) (row : AuditRow) (rows : List AuditRow)
    → IsChain digest row.seq row.event_hash rows
    → last_entry (row.seq, row.event_hash) (entries rows)
      ≡ (row.seq + length rows, last_hash row.event_hash rows)
unfolding last_entry entries last_hash IsChain
last_entry-entries digest row [] h = ap (λ n. (n, row.event_hash)) (omega arith)
last_entry-entries digest row (next ∷ rows) (a, b, c, rest) =
    last_entry-entries digest next rows rest
    ∙ ap (λ n. (n, last_hash next.event_hash rows)) (omega (arith, a))

make_checkpoint-fields :
    (n : ℕ) (hash identity : String) (c : AuditCheckpoint)
    → make_checkpoint n hash identity ≡ ok c
    → (c.sequence ≡ n) × (c.event_hash ≡ hash) × (c.database_identity ≡ identity)
unfolding make_checkpoint
make_checkpoint-fields n hash identity c h = ground (arith, h)

-- What the check of a log with these payloads is to answer
abbrev pub verdict : List String → Result SinkError Bool
verdict [] = err operational_error
verdict (payload ∷ later) = ok true

module _ (isoformat : DateTime → String) (digest : String → String) where
  empty-IsLog : IsLog digest (create_table none)
  unfolding create_table IsChain
  empty-IsLog = record { chained = tt; counted = refl }

  verdict-IsLog :
      (database : Database)
      → IsLog digest (create_table database)
      → IsFilled database
      → verify_chain digest database ≡ verdict (payloads (rows_of database))
  unfolding verify_chain payloads create_table
  verdict-IsLog none log filled = refl
  verdict-IsLog (some table) log (row, rows, e) =
      ap (λ b. ok b) ((chain_from-IsChain digest 0 genesis table.rows).1 log.chained)
      ∙ ap (λ r. verdict (payloads r)) (sym e)

  -- Whatever events are sent to a sink on a fresh file, the payloads of its rows are the documents of the
  -- events that were not refused for their size, in order. If there are any, the chain verifies; if there
  -- are none, the file has no table, and the check raises an OperationalError.
  pub log_events-verifies :
      (es : List AuditEvent)
      → let file = log_events isoformat digest es none in
        (verify_chain digest file ≡ verdict (accepted isoformat es))
        × (payloads (rows_of file) ≡ accepted isoformat es)
  unfolding payloads create_table
  log_events-verifies es =
      let kept = log_events-payloads isoformat digest es none in
      (
        verdict-IsLog (log_events isoformat digest es none)
              (log_events-IsLog isoformat digest es none empty-IsLog)
              (log_events-IsFilled isoformat digest es none tt)
            ∙ ap verdict kept,
        kept,
      )

  checkpoint_of-IsAnchored :
      (rows : List AuditRow) (identity : String) (c : AuditCheckpoint)
      → IsChain digest 0 genesis rows
      → checkpoint_of (entries rows) identity ≡ ok c
      → (c.database_identity ≡ identity) × IsAnchored digest c rows
  unfolding checkpoint_of entries IsChain last_hash first
  checkpoint_of-IsAnchored [] identity c chained h =
      let (n, hash, named) = make_checkpoint-fields 0 genesis identity c h in
      (
        named,
        record {
          chained = chained;
          counted = omega (arith, n);
          hashed = ap (λ k. last_hash genesis (first k [])) n ∙ sym hash;
        },
      )
  checkpoint_of-IsAnchored (row ∷ rows) identity c chained h =
      let e = last_entry-entries digest row rows chained.3 in
      let (n, hash, named) =
        make_checkpoint-fields (row.seq + length rows) (last_hash row.event_hash rows) identity c
          (ap (λ x. make_checkpoint x.0 x.1 identity) (sym e) ∙ h) in
      let all : c.sequence ≡ suc (length rows) = omega (arith, n, chained.0) in
      (
        named,
        record {
          chained = chained;
          counted = omega (arith, all);
          hashed =
              ap (λ k. last_hash genesis (first k (row ∷ rows))) all
              ∙ ap (λ k. last_hash genesis k) (first-all (row ∷ rows))
              ∙ sym hash;
        },
      )

  audit_checkpoint-exists :
      (database : Database) (identity : String) (c : AuditCheckpoint)
      → audit_checkpoint digest database identity ≡ ok c
      → database ≡ some (create_table database)
  unfolding audit_checkpoint create_table
  audit_checkpoint-exists none identity c h = absurd (ground (arith, h))
  audit_checkpoint-exists (some table) identity c h = refl

  audit_checkpoint-IsAnchored :
      (database : Database) (identity : String) (c : AuditCheckpoint)
      → audit_checkpoint digest database identity ≡ ok c
      → (c.database_identity ≡ identity) × IsAnchored digest c (create_table database).rows
  unfolding audit_checkpoint create_table
  audit_checkpoint-IsAnchored none identity c h = absurd (ground (arith, h))
  audit_checkpoint-IsAnchored (some table) identity c h =
      elim (Result-cases (snapshot_from digest 0 genesis table.rows)) [
        | inr (e, failed) ↦ absurd (ground (arith, h, failed))
        | inl (snapshot, made) ↦
            let (chained, listed) =
              snapshot_from-IsChain digest 0 genesis table.rows snapshot made in
            checkpoint_of-IsAnchored table.rows identity c chained
              (ap (λ seen. checkpoint_of seen identity) (sym listed) ∙ ground (arith, h, made))
      ]

  -- A checkpoint that was exported from the log stays anchored in it, whatever is logged later.
  pub exported-anchored :
      (es fs : List AuditEvent) (identity : String) (c : AuditCheckpoint)
      → audit_checkpoint digest (log_events isoformat digest es none) identity ≡ ok c
      → verify_anchored_checkpoint digest
          (log_events isoformat digest fs (log_events isoformat digest es none))
          c
          identity
        ≡ true
  exported-anchored es fs identity c h =
      let before = log_events isoformat digest es none in
      let later = log_events isoformat digest fs before in
      let table = create_table later in
      let (named, anchored) = audit_checkpoint-IsAnchored before identity c h in
      let kept =
        log_events-IsAnchored isoformat digest fs before c
          (log_events-IsLog isoformat digest es none empty-IsLog) anchored in
      let there =
        log_events-exists isoformat digest fs before
          (audit_checkpoint-exists before identity c h) in
      ap (λ d. verify_anchored_checkpoint digest d c identity) there
      ∙ ap (λ n. verify_anchored_checkpoint digest (some table) c n) (sym named)
      ∙ IsAnchored-verify digest table.rows table.last_seq c kept
