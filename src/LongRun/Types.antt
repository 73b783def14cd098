-- ===== src/LongRun/Types.antt =====
-- The records of src/cybercore/longrun: state.py, governor.py, evaluation.py and engine.py.
use cyber_core.Base.{ℕ, String, Bool, Option, List, Dict}
use cyber_core.Base.Int.{ℤ}
use cyber_core.Base.Float.{Float}
use cyber_core.Base.Exec.{Result}

-- The texts that the column `status` takes.
pub data Status : Type 0 where
  running completed stopped blocked : Status

pub record RunState : Type 0 where
  pub run_id : String
  pub manifest_digest : String
  pub status : Status
  pub step_index : ℕ
  pub consecutive_failures : ℕ
  pub last_step_fingerprint : Option String
  pub duplicate_count : ℕ
  pub evaluator_score : Float
  pub started_at : Float
  pub updated_at : Float

pub record StepProposal : Type 0 where
  pub fingerprint : String
  pub expected_quality_gain : Float
  pub expected_information_gain : Float
  pub cost : Float
  pub risk : Float
  pub duplication_probability : Float
  pub effect : String

-- A dictionary of evidence, as the engine sees it: its digest or the exception that copying or
-- encoding it raises, whether it is empty, and the exception that it raises inside a payload.
pub record Evidence : Type 0 where
  pub digest : Result String String
  pub is_empty : Bool
  pub encode_failure : Option String

pub record StepResult : Type 0 where
  pub success : Bool
  pub evidence : Evidence

-- A value that `_validate_json_value` walks through; `other` is one of no JSON type, and a key is
-- `none` where it is no text.
mutual
  pub data Json : Type 0 where
    null : Json
    text : String → Json
    flag : Bool → Json
    integer : ℤ → Json
    float : Float → Json
    array : Items → Json
    object : Fields → Json
    other : Json

  pub data Items : Type 0 where
    no_items : Items
    item : Json → Items → Items

  pub data Fields : Type 0 where
    no_fields : Fields
    field : Option String → Json → Fields → Fields

pub record EvaluationResult : Type 0 where
  pub evaluator_id : String
  pub evaluator_version : String
  pub score : Float
  pub verdict : String
  pub reasons : List String
  pub evidence_digest : String
  pub metadata : Fields

-- What an event's payload holds.
pub data Value : Type 0 where
  text : String → Value
  flag : Bool → Value
  number : Float → Value
  status : Status → Value
  evidence : Evidence → Value
  evaluation : EvaluationResult → Value

abbrev pub Payload : Type 0
Payload = Dict String Value

pub record RunEvent : Type 0 where
  pub id : ℕ
  pub run_id : String
  pub step_index : ℕ
  pub kind : String
  pub payload : Payload
  pub created_at : Float

-- The exceptions: those of the callbacks, by their types' names, and the engine's own.
pub data Error : Type 0 where
  planner_error executor_error evaluator_error : String → Error
  encode_error value_error runtime_error integrity_error : String → Error
