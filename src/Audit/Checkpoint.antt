-- ===== src/Audit/Checkpoint.antt =====
-- src/cybercore/action_kernel_audit_checkpoint.py: snapshots of the log, to be kept elsewhere.
use Prim.Native.Char.{code}
use Prim.Native.String.{count}
use cyber_core.Base.{
  ℕ, ◌-◌, suc, String, Bool, true, false, ◌&&◌, ◌||◌, not, none, some, List, [], ◌∷◌, leb, nat_beq,
  ◌==◌, string_eq, if◌then◌else◌,
}
use cyber_core.Base.Exec.{Result, ok, err}
use cyber_core.Base.Text.{is_blank}
use cyber_core.Audit.Sink.{
  AuditRow, Database, SinkError, value_error, operational_error, genesis, event_digest,
}

pub record AuditCheckpoint : Type 0 where
  pub sequence : ℕ
  pub event_hash : String
  pub database_identity : String

is_hex : ℕ → Bool
is_hex c = (leb b'0' c && leb c b'9') || (leb b'a' c && leb c b'f') || (leb b'A' c && leb c b'F')

is_white : ℕ → Bool
is_white c = nat_beq c 32 || (leb 9 c && leb c 13) || (leb 28 c && leb c 31)

-- Digits with single underscores between them, then white space; `due` says that a digit must follow.
hex_run : Bool → String → Bool
unfolding is_hex is_white
hex_run due String.[] = not due
hex_run due (String.◌∷◌ c s) =
    let digit = is_hex (code c) in
    let rest = hex_run (not digit) s in
    if digit
    then rest
    else if nat_beq (code c) b'_'
    then not due && rest
    else not due && is_white (code c) && is_blank s

skip_underscore : String → String
skip_underscore String.[] = String.[]
skip_underscore (String.◌∷◌ c s) = if nat_beq (code c) b'_' then s else String.◌∷◌ c s

is_prefix : ℕ → ℕ → Bool
is_prefix zero_digit letter =
    nat_beq zero_digit b'0' && (nat_beq letter b'x' || nat_beq letter b'X')

skip_prefix : String → String
unfolding is_prefix skip_underscore
skip_prefix (String.◌∷◌ c (String.◌∷◌ d s)) =
    if is_prefix (code c) (code d) then skip_underscore s else String.◌∷◌ c (String.◌∷◌ d s)
skip_prefix s = s

skip_sign : String → String
skip_sign String.[] = String.[]
skip_sign (String.◌∷◌ c s) =
    if nat_beq (code c) b'+' || nat_beq (code c) b'-' then s else String.◌∷◌ c s

skip_white : String → String
unfolding is_white
skip_white String.[] = String.[]
skip_white (String.◌∷◌ c s) =
    let rest = skip_white s in if is_white (code c) then rest else String.◌∷◌ c s

-- Whether `int(s, 16)` returns, on the ASCII characters.
unfoldable pub is_hexadecimal : String → Bool
unfolding skip_white skip_sign skip_prefix hex_run
is_hexadecimal s = hex_run true (skip_prefix (skip_sign (skip_white s)))

-- The constructor, with `__post_init__`
unfoldable pub make_checkpoint : ℕ → String → String → Result SinkError AuditCheckpoint
unfolding is_hexadecimal
make_checkpoint sequence event_hash database_identity =
    if not (nat_beq (count event_hash) 64)
      || is_blank database_identity
      || not (is_hexadecimal event_hash)
    then err value_error
    else ok (record {
      sequence = sequence;
      event_hash = event_hash;
      database_identity = database_identity;
    })

abbrev pub Snapshot : Type 0
Snapshot = List (ℕ × String)

prepend : (ℕ × String) → Result SinkError Snapshot → Result SinkError Snapshot
prepend entry (ok snapshot) = ok (entry ∷ snapshot)
prepend entry (err e) = err e

-- `snapshot[-1]`, where the list is not empty
unfoldable pub last_entry : (ℕ × String) → Snapshot → ℕ × String
last_entry entry [] = entry
last_entry entry (next ∷ rest) = last_entry next rest

-- `index < len(snapshot) and snapshot[index] == entry`
unfoldable pub holds_at : Snapshot → ℕ → (ℕ × String) → Bool
holds_at [] index entry = false
holds_at (found ∷ rest) index entry =
    let later = holds_at rest (index - 1) entry in
    if nat_beq index 0 then nat_beq found.0 entry.0 && found.1 == entry.1 else later

unfoldable pub checkpoint_of : Snapshot → String → Result SinkError AuditCheckpoint
unfolding make_checkpoint last_entry
checkpoint_of [] identity = make_checkpoint 0 genesis identity
checkpoint_of (entry ∷ rest) identity =
    let (seq, hash) = last_entry entry rest in make_checkpoint seq hash identity

is_anchored : AuditCheckpoint → Result SinkError Snapshot → Bool
unfolding holds_at
is_anchored trusted (err e) = false
is_anchored trusted (ok snapshot) =
    if nat_beq trusted.sequence 0
    then trusted.event_hash == genesis
    else holds_at snapshot (trusted.sequence - 1) (trusted.sequence, trusted.event_hash)

module _ (digest : String → String) where
  -- The loop of `_verified_snapshot`
  unfoldable pub snapshot_from : ℕ → String → List AuditRow → Result SinkError Snapshot
  unfolding prepend
  snapshot_from seq previous [] = ok []
  snapshot_from seq previous (row ∷ rows) =
      let rest = snapshot_from row.seq row.event_hash rows in
      if not (nat_beq row.seq (suc seq))
        || not (row.previous_hash == previous)
        || not (row.event_hash == event_digest digest row.previous_hash row.payload)
      then err value_error
      else prepend (row.seq, row.event_hash) rest

  -- A missing file or table raises sqlite3.OperationalError.
  unfoldable pub verified_snapshot : Database → Result SinkError Snapshot
  unfolding snapshot_from
  verified_snapshot none = err operational_error
  verified_snapshot (some table) = snapshot_from 0 genesis table.rows

  checkpoint_from : Result SinkError Snapshot → String → Result SinkError AuditCheckpoint
  unfolding checkpoint_of
  checkpoint_from (err e) identity = err e
  checkpoint_from (ok snapshot) identity = checkpoint_of snapshot identity

  unfoldable pub audit_checkpoint : Database → String → Result SinkError AuditCheckpoint
  unfolding verified_snapshot checkpoint_from
  audit_checkpoint database identity = checkpoint_from (verified_snapshot database) identity

  unfoldable pub verify_anchored_checkpoint : Database → AuditCheckpoint → String → Bool
  unfolding verified_snapshot is_anchored
  verify_anchored_checkpoint database trusted expected_identity =
      trusted.database_identity == expected_identity
      && is_anchored trusted (verified_snapshot database)
