-- ===== src/LongRun/Manifest.antt =====
-- `LongRunManifest` of src/cybercore/longrun/manifest.py, and the bindings that it holds.
pub mod Validity
use cyber_core.Base.{
  String, Bool, ◌&&◌, ◌||◌, not, Option, none, some, List, [], ◌∷◌, ◌==◌, string_eq, contains, any,
  if◌then◌else◌, Dict,
}
use cyber_core.Base.Text.{is_blank, concat}
use cyber_core.Base.Int.{ℤ, pos, leb_ℤ}
use cyber_core.Base.Float.{Float, le_float, of_int, zero_float}

pub record ModelBinding : Type 0 where
  pub binding_id : String
  pub role : String
  pub provider_id : String
  pub model_id : String

pub record Manifest : Type 0 where
  pub run_id : String
  pub objective : String
  pub minimum_wall_seconds : ℤ
  pub maximum_wall_seconds : ℤ
  pub evaluator_threshold : Float
  pub checkpoint_every_steps : ℤ
  pub max_consecutive_failures : ℤ
  pub max_duplicate_steps : ℤ
  pub evidence_required : Bool
  pub independent_evaluation_required : Bool
  pub allowed_effects : List String
  pub prohibited_effects : List String
  pub model_bindings : List ModelBinding
  pub metadata : Dict String String

-- `ModelBinding.validate`: the message of its ValueError.
binding_failure : ModelBinding → Option String
binding_failure b =
    if is_blank b.binding_id
    then some "model binding binding_id must be a non-empty string"
    else if is_blank b.provider_id
    then some "model binding provider_id must be a non-empty string"
    else if is_blank b.model_id
    then some "model binding model_id must be a non-empty string"
    else if not (b.role == "planner" || b.role == "worker" || b.role == "evaluator")
    then some "model binding role must be one of ['evaluator', 'planner', 'worker']"
    else none

-- The loop over the bindings, with the roles and the identifiers that it has seen.
bindings_failure : List String → List String → List ModelBinding → Option String
unfolding binding_failure
bindings_failure roles ids [] = none
bindings_failure roles ids (b ∷ rest) =
    let later = bindings_failure (b.role ∷ roles) (b.binding_id ∷ ids) rest in
    binding_step (binding_failure b) later
  where
    distinct : Option String → Option String
    distinct later =
        if contains roles b.role
        then some (concat ("duplicate model binding role: " ∷ b.role ∷ []))
        else if contains ids b.binding_id
        then some (concat ("duplicate model binding_id: " ∷ b.binding_id ∷ []))
        else later

    binding_step : Option String → Option String → Option String
    binding_step (some message) later = some message
    binding_step none later = distinct later

-- `validate`: the message of its ValueError, less the sorted effects in one of them.
unfoldable pub manifest_failure : Manifest → Option String
unfolding bindings_failure
manifest_failure m =
    if is_blank m.run_id || is_blank m.objective
    then some "run_id and objective are required"
    else if not (leb_ℤ (pos 0) m.minimum_wall_seconds)
    then some "minimum_wall_seconds must be non-negative"
    else if leb_ℤ m.maximum_wall_seconds (pos 0)
    then some "maximum_wall_seconds must be positive"
    else if not (leb_ℤ m.minimum_wall_seconds m.maximum_wall_seconds)
    then some "minimum wall budget cannot exceed maximum"
    else if not (
        le_float zero_float m.evaluator_threshold
        && le_float m.evaluator_threshold (of_int (pos 1)))
    then some "evaluator_threshold must be between 0 and 1"
    else if not (leb_ℤ (pos 1) m.checkpoint_every_steps)
    then some "checkpoint_every_steps must be >= 1"
    else if not (leb_ℤ (pos 1) m.max_consecutive_failures)
        || not (leb_ℤ (pos 1) m.max_duplicate_steps)
    then some "failure and duplicate limits must be >= 1"
    else if any (contains m.prohibited_effects) m.allowed_effects
    then some "effects cannot be both allowed and prohibited"
    else bindings_failure [] [] m.model_bindings
