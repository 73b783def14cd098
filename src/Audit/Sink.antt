-- ===== src/Audit/Sink.antt =====
-- `SQLiteAuditSink` of src/cybercore/action_kernel_sqlite_audit.py. The digest is the hexadecimal
-- SHA-256 of a text's UTF-8.
use Prim.Native.String.{len, ◌++◌ as append}
use cyber_core.Base.{
  ℕ, suc, String, Bool, true, ◌&&◌, Option, none, some, List, [], ◌∷◌, ◌++◌, ltb, nat_beq, ◌==◌,
  string_eq, if◌then◌else◌,
}
use cyber_core.Base.Exec.{Result, ok, err}
use cyber_core.Base.Time.{DateTime}
use cyber_core.Kernel.Types.{AuditEvent}
use cyber_core.Audit.Document.{document}

-- A row of the table `audit_events`
pub record AuditRow : Type 0 where
  pub seq : ℕ
  pub payload : String
  pub previous_hash : String
  pub event_hash : String

-- The table, its rows in the order of `seq`; `last_seq` is what AUTOINCREMENT keeps: the greatest
-- number ever given. A sink writes nothing else into the file.
pub record AuditTable : Type 0 where
  pub rows : List AuditRow
  pub last_seq : ℕ

-- The file: `none` before the table is created.
abbrev pub Database : Type 0
Database = Option AuditTable

pub data SinkError : Type 0 where
  value_error operational_error : SinkError

-- `"0" * 64`
abbrev pub genesis : String
genesis = "0000000000000000000000000000000000000000000000000000000000000000"

-- `SELECT event_hash FROM audit_events ORDER BY seq DESC LIMIT 1`, or the genesis
unfoldable pub last_hash : String → List AuditRow → String
last_hash before [] = before
last_hash before (row ∷ rows) = last_hash row.event_hash rows

-- `CREATE TABLE IF NOT EXISTS audit_events`
unfoldable pub create_table : Database → AuditTable
create_table none = record { rows = []; last_seq = 0 }
create_table (some table) = table

module _ (digest : String → String) where
  -- The hash that binds a payload to the hash before it.
  abbrev pub event_digest : String → String → String
  event_digest previous payload = digest (append previous (append "\n" payload))

  unfoldable pub new_row : AuditTable → String → AuditRow
  unfolding last_hash
  new_row table payload =
      let previous = last_hash genesis table.rows in
      record {
        seq = suc table.last_seq;
        payload = payload;
        previous_hash = previous;
        event_hash = event_digest previous payload;
      }

  unfoldable pub insert_row : AuditTable → String → AuditTable
  unfolding new_row
  insert_row table payload = record {
    rows = table.rows ++ (new_row table payload ∷ []);
    last_seq = suc table.last_seq;
  }

  -- `__call__`, given the payload
  unfoldable pub write_payload : String → Database → Result SinkError Unit × Database
  unfolding insert_row create_table
  write_payload payload database =
      if ltb 8192 (len payload)
      then (err value_error, database)
      else (ok tt, some (insert_row (create_table database) payload))

  -- The loop of `verify_chain`
  unfoldable pub chain_from : ℕ → String → List AuditRow → Bool
  chain_from seq previous [] = true
  chain_from seq previous (row ∷ rows) =
      let rest = chain_from row.seq row.event_hash rows in
      nat_beq row.seq (suc seq)
      && row.previous_hash == previous
      && event_digest row.previous_hash row.payload == row.event_hash
      && rest

  -- A file without the table raises sqlite3.OperationalError.
  unfoldable pub verify_chain : Database → Result SinkError Bool
  unfolding chain_from
  verify_chain none = err operational_error
  verify_chain (some table) = ok (chain_from 0 genesis table.rows)

-- `__call__`
unfoldable pub call :
    (DateTime → String)
    → (String → String)
    → AuditEvent
    → Database
    → Result SinkError Unit × Database
unfolding write_payload
call isoformat digest event database = write_payload digest (document isoformat event) database
