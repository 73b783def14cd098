-- ===== src/Audit/Log.antt =====
-- The log that a sequence of events writes: `__call__` of src/cybercore/action_kernel_sqlite_audit.py,
-- again and again.
use Prim.Native.String.{len}
use mathlib.Core.List.{append-nil, append_assoc}
use cyber_core.Base.{
  ℕ, suc, zero, ◌+◌, ◌≤◌, String, Bool, true, false, ◌≡◌, refl, ap, sym, ◌∙◌, List, [], ◌∷◌, ◌++◌,
  length, length-append, keep, arith, none, some, Bool-cases, inl, inr, leb, ltb,
}
use cyber_core.Base.Time.{DateTime}
use cyber_core.Kernel.Types.{AuditEvent}
use cyber_core.Audit.Document.{document}
use cyber_core.Audit.Sink.{
  AuditRow, AuditTable, Database, genesis, last_hash, event_digest, write_payload, insert_row,
  new_row, call, create_table,
}
use cyber_core.Audit.Checkpoint.{AuditCheckpoint}
use cyber_core.Audit.Chain.{IsChain, first}
use cyber_core.Audit.Anchored.{IsAnchored}

-- A table that only the sink has written
pub record IsLog (digest : String → String) (table : AuditTable) : Type 0 where
  pub chained : IsChain digest 0 genesis table.rows
  pub counted : table.last_seq ≡ length table.rows

unfoldable pub payloads : List AuditRow → List String
payloads [] = []
payloads (row ∷ rows) = row.payload ∷ payloads rows

-- The rows of a file: none before the table is created
abbrev pub rows_of : Database → List AuditRow
rows_of database = (create_table database).rows

-- The table of a file has a row.
abbrev pub IsFilled : Database → Type 0
IsFilled none = Unit
IsFilled (some table) = (row : AuditRow) × (rows : List AuditRow) × (table.rows ≡ row ∷ rows)

snoc-filled :
    (rows : List AuditRow) (added : AuditRow)
    → (row : AuditRow) × (later : List AuditRow) × (rows ++ added ∷ [] ≡ row ∷ later)
snoc-filled [] added = (added, [], refl)
snoc-filled (row ∷ rows) added = (row, rows ++ added ∷ [], refl)

-- What the sink does not refuse
abbrev pub is_short : String → Bool
is_short payload = leb (len payload) 8192

-- A further row at the end
snoc-IsChain :
    (digest : String → String) (seq : ℕ) (previous : String) (rows : List AuditRow)
    (added : AuditRow)
    → IsChain digest seq previous rows
    → added.seq ≡ suc (seq + length rows)
    → added.previous_hash ≡ last_hash previous rows
    → added.event_hash ≡ event_digest digest added.previous_hash added.payload
    → IsChain digest seq previous (rows ++ (added ∷ []))
unfolding IsChain last_hash
snoc-IsChain digest seq previous [] added h n p e = (omega (arith, n), p, e, tt)
snoc-IsChain digest seq previous (row ∷ rows) added (a, b, c, rest) n p e =
    (a, b, c, snoc-IsChain digest row.seq row.event_hash rows added rest (omega (arith, n, a)) p e)

first-append :
    (n : ℕ) (rows others : List AuditRow)
    → n ≤ length rows
    → first n (rows ++ others) ≡ first n rows
unfolding first
first-append zero rows others h = refl
first-append (suc n) [] others h = absurd (omega (arith, h))
first-append (suc n) (row ∷ rows) others h =
    ap (λ r. row ∷ r) (first-append n rows others (omega (arith, h)))

payloads-append :
    (rows others : List AuditRow) → payloads (rows ++ others) ≡ payloads rows ++ payloads others
unfolding payloads
payloads-append [] others = refl
payloads-append (row ∷ rows) others = ap (λ r. row.payload ∷ r) (payloads-append rows others)

module _ (digest : String → String) where
  insert_row-IsLog :
      (table : AuditTable) (payload : String)
      → IsLog digest table
      → IsLog digest (insert_row digest table payload)
  unfolding insert_row
  insert_row-IsLog table payload h = record {
    chained =
        snoc-IsChain digest 0 genesis table.rows (new_row digest table payload) h.chained
          (omega (arith, h.counted)) refl refl;
    counted =
        rw (length-append table.rows (new_row digest table payload ∷ [])) omega (arith, h.counted);
  }

  insert_row-IsAnchored :
      (table : AuditTable) (payload : String) (trusted : AuditCheckpoint)
      → IsLog digest table
      → IsAnchored digest trusted table.rows
      → IsAnchored digest trusted (insert_row digest table payload).rows
  unfolding insert_row
  insert_row-IsAnchored table payload trusted log h = record {
    chained = (insert_row-IsLog table payload log).chained;
    counted =
        rw (length-append table.rows (new_row digest table payload ∷ [])) omega (arith, h.counted);
    hashed =
        rw (first-append trusted.sequence table.rows (new_row digest table payload ∷ []) h.counted)
          h.hashed;
  }

  write_payload-IsLog :
      (payload : String) (database : Database)
      → IsLog digest (create_table database)
      → IsLog digest (create_table (write_payload digest payload database).1)
  unfolding write_payload
  write_payload-IsLog payload database h = elim (Bool-cases (ltb 8192 (len payload))) [
    | inl long ↦ rw long h
    | inr short ↦ rw short (insert_row-IsLog (create_table database) payload h)
  ]

  write_payload-IsFilled :
      (payload : String) (database : Database)
      → IsFilled database
      → IsFilled (write_payload digest payload database).1
  unfolding write_payload insert_row
  write_payload-IsFilled payload database h = elim (Bool-cases (ltb 8192 (len payload))) [
    | inl long ↦ rw long h
    | inr short ↦ rw short (snoc-filled (rows_of database) _)
  ]

  write_payload-payloads :
      (p : String) (database : Database)
      → payloads (create_table (write_payload digest p database).1).rows
        ≡ payloads (create_table database).rows ++ keep is_short (p ∷ [])
  unfolding write_payload payloads keep
  write_payload-payloads p database = elim (Bool-cases (ltb 8192 (len p))) [
    | inl long ↦
        let refused : leb (len p) 8192 ≡ false = ground (arith, long) in
        rw long (rw refused (sym (append-nil _)))
    | inr short ↦
        let accepted : leb (len p) 8192 ≡ true = ground (arith, short) in
        let added = new_row digest (create_table database) p ∷ [] in
        rw short (rw accepted (payloads-append (create_table database).rows added))
  ]

  write_payload-IsAnchored :
      (p : String) (database : Database) (trusted : AuditCheckpoint)
      → IsLog digest (create_table database)
      → IsAnchored digest trusted (create_table database).rows
      → IsAnchored digest trusted (create_table (write_payload digest p database).1).rows
  unfolding write_payload
  write_payload-IsAnchored p database trusted log h = elim (Bool-cases (ltb 8192 (len p))) [
    | inl long ↦ rw long h
    | inr short ↦ rw short (insert_row-IsAnchored (create_table database) p trusted log h)
  ]

-- The documents of the events that the sink does not refuse
unfoldable pub accepted : (DateTime → String) → List AuditEvent → List String
accepted isoformat [] = []
accepted isoformat (e ∷ es) = keep is_short (document isoformat e ∷ []) ++ accepted isoformat es

module _ (isoformat : DateTime → String) (digest : String → String) where
  -- The sink, called with one event after another; a call that raises leaves the file as it was.
  unfoldable pub log_events : List AuditEvent → Database → Database
  log_events [] database = database
  log_events (e ∷ es) database = log_events es (call isoformat digest e database).1

  pub log_events-IsLog :
      (es : List AuditEvent) (database : Database)
      → IsLog digest (create_table database)
      → IsLog digest (create_table (log_events es database))
  unfolding log_events call
  log_events-IsLog [] database h = h
  log_events-IsLog (e ∷ es) database h =
      log_events-IsLog es (call isoformat digest e database).1
        (write_payload-IsLog digest (document isoformat e) database h)

  pub log_events-IsFilled :
      (es : List AuditEvent) (database : Database)
      → IsFilled database
      → IsFilled (log_events es database)
  unfolding log_events call
  log_events-IsFilled [] database h = h
  log_events-IsFilled (e ∷ es) database h =
      log_events-IsFilled es (call isoformat digest e database).1
        (write_payload-IsFilled digest (document isoformat e) database h)

  pub log_events-payloads :
      (es : List AuditEvent) (database : Database)
      → payloads (create_table (log_events es database)).rows
        ≡ payloads (create_table database).rows ++ accepted isoformat es
  unfolding log_events accepted call
  log_events-payloads [] database = sym (append-nil _)
  log_events-payloads (e ∷ es) database =
      log_events-payloads es (call isoformat digest e database).1
      ∙ ap (λ seen. seen ++ accepted isoformat es)
          (write_payload-payloads digest (document isoformat e) database)
      ∙ append_assoc (payloads (create_table database).rows)
          (keep is_short (document isoformat e ∷ [])) (accepted isoformat es)

  pub log_events-IsAnchored :
      (es : List AuditEvent) (database : Database) (trusted : AuditCheckpoint)
      → IsLog digest (create_table database)
      → IsAnchored digest trusted (create_table database).rows
      → IsAnchored digest trusted (create_table (log_events es database)).rows
  unfolding log_events call
  log_events-IsAnchored [] database trusted log h = h
  log_events-IsAnchored (e ∷ es) database trusted log h =
      log_events-IsAnchored es (call isoformat digest e database).1 trusted
        (write_payload-IsLog digest (document isoformat e) database log)
        (write_payload-IsAnchored digest (document isoformat e) database trusted log h)

  call-exists :
      (e : AuditEvent) (database : Database)
      → database ≡ some (create_table database)
      → (call isoformat digest e database).1
        ≡ some (create_table (call isoformat digest e database).1)
  unfolding call create_table
  call-exists e database h = elim (Bool-cases (ltb 8192 (len (document isoformat e)))) [
    | inl long ↦ rw long h
    | inr short ↦ rw short refl
  ]

  -- A file that has the table keeps it.
  pub log_events-exists :
      (es : List AuditEvent) (database : Database)
      → database ≡ some (create_table database)
      → log_events es database ≡ some (create_table (log_events es database))
  unfolding log_events
  log_events-exists [] database h = h
  log_events-exists (e ∷ es) database h =
      log_events-exists es (call isoformat digest e database).1 (call-exists e database h)
