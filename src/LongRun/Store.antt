-- ===== src/LongRun/Store.antt =====
-- `LongRunStateStore` of src/cybercore/longrun/state.py: its two tables, as their rows.
-- SQLite reads NaN as NULL; that a NOT NULL column refuses it is left out.
use mathlib.Core.List.{reverse}
use cyber_core.Base.{
  ℕ, zero, suc, ◌+◌, String, ◌||◌, Option, none, some, List, [], ◌∷◌, ◌++◌, Dict, lookup, insert,
  keep, ◌==◌, string_eq, ltb, if◌then◌else◌, is_some,
}
use cyber_core.Base.Float.{Float}
use cyber_core.Base.Exec.{Exec, pure, raise, reads, modify, raise_if, ◌>>=◌, ◌>>◌}
use cyber_core.LongRun.Types.{
  RunState, RunEvent, Payload, Value, evidence, Error, encode_error, value_error, integrity_error,
}

pub record Store : Type 0 where
  -- keyed by `run_id`
  pub runs : Dict String RunState
  pub events : List RunEvent
  -- the AUTOINCREMENT counter
  pub last_id : ℕ

-- `_init` on a new file
abbrev pub init : Store
init = record { runs = []; events = []; last_id = 0 }

value_failure : Value → Option String
value_failure (evidence e) = e.encode_failure
value_failure _ = none

-- `_encode_payload`: the type of the exception that `json.dumps` raises.
unfoldable pub encode_failure : Payload → Option String
unfolding value_failure
encode_failure [] = none
encode_failure ((key, value) ∷ rest) =
    let later = encode_failure rest in first_failure (value_failure value) later
  where
    first_failure : Option String → Option String → Option String
    first_failure (some name) later = some name
    first_failure none later = later

or_encode_error : Option String → Exec Error Store Unit
or_encode_error none = pure tt
or_encode_error (some name) = raise (encode_error name)

-- `_append_encoded_event`
unfoldable pub append_row : String → ℕ → String → Payload → Float → Store → Store
append_row run_id step_index kind payload created_at s = record s {
  last_id = s.last_id + 1;
  events =
      s.events
      ++ record {
        id = s.last_id + 1;
        run_id = run_id;
        step_index = step_index;
        kind = kind;
        payload = payload;
        created_at = created_at;
      }
        ∷ [];
}

-- The UPDATE of a run, which changes no row where there is none.
unfoldable pub update_row : RunState → Store → Store
update_row state s = record s {
  runs = if is_some (lookup state.run_id s.runs) then insert state.run_id state s.runs else s.runs;
}

insert_row : RunState → Exec Error Store Unit
insert_row state = do
  taken ← reads (λ s. is_some (lookup state.run_id s.runs))
  raise_if taken (integrity_error "UNIQUE constraint failed: runs.run_id")
  modify (λ s. record s { runs = insert state.run_id state s.runs })

pub create : RunState → Exec Error Store Unit
unfolding insert_row
create state = insert_row state

-- The payload is encoded before the transaction begins.
unfoldable pub create_with_event : RunState → String → Payload → Float → Exec Error Store Unit
unfolding insert_row or_encode_error
create_with_event state kind payload created_at = do
  or_encode_error (encode_failure payload)
  insert_row state
  modify (append_row state.run_id state.step_index kind payload created_at)

unfoldable pub load : String → Store → Option RunState
load run_id s = lookup run_id s.runs

pub save : RunState → Exec Error Store Unit
save state = modify (update_row state)

unfoldable pub save_with_event : RunState → String → Payload → Float → Exec Error Store Unit
unfolding or_encode_error
save_with_event state kind payload created_at = do
  or_encode_error (encode_failure payload)
  modify (update_row state)
  modify (append_row state.run_id state.step_index kind payload created_at)

pub append_event : String → ℕ → String → Payload → Float → Exec Error Store Unit
append_event run_id step_index kind payload created_at = do
  or_encode_error (encode_failure payload)
  modify (append_row run_id step_index kind payload created_at)

take : {A : Type 0} → ℕ → List A → List A
take zero xs = []
take (suc n) [] = []
take (suc n) (x ∷ xs) = x ∷ take n xs

-- The last events of a run, in the order of their identifiers.
pub list_events : String → ℕ → Exec Error Store (List RunEvent)
list_events run_id limit = do
  raise_if (ltb limit 1 || ltb 1000 limit) (value_error "event limit must be between 1 and 1000")
  found ← reads (λ s. keep (λ e. e.run_id == run_id) s.events)
  pure (reverse (take limit (reverse found)))
