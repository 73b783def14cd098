-- ===== src/LongRun/Governor.antt =====
-- `authorize_step` of src/cybercore/longrun/governor.py and `evaluate_watchdog` of
-- src/cybercore/longrun/watchdog.py.
pub mod Authority
use cyber_core.Base.{ℕ, String, Bool, true, false, not, List, contains, string_eq, if◌then◌else◌}
use cyber_core.Base.Int.{ℤ, pos, leb_ℤ}
use cyber_core.Base.Float.{Float, ◌+f◌, ◌-f◌, le_float, of_int, zero_float}
use cyber_core.LongRun.Types.{StepProposal}

-- `StepProposal.value`
unfoldable pub value : StepProposal → Float
value p =
    p.expected_quality_gain +f p.expected_information_gain -f p.cost -f p.risk
    -f p.duplication_probability

unfoldable pub authorize_step : StepProposal → List String → List String → Bool × String
authorize_step p allowed_effects prohibited_effects =
    if contains prohibited_effects p.effect
    then (false, "effect explicitly prohibited")
    else if not (contains allowed_effects p.effect)
    then (false, "effect not allowlisted")
    else if le_float (value p) zero_float
    then (false, "non-positive expected value")
    else (true, "authorized")

pub data WatchdogAction : Type 0 where
  stop replan continue : WatchdogAction

pub record WatchdogDecision : Type 0 where
  pub action : WatchdogAction
  pub reason : String

unfoldable pub evaluate_watchdog : Float → ℤ → ℕ → ℤ → ℕ → ℤ → WatchdogDecision
evaluate_watchdog elapsed_seconds maximum_wall_seconds consecutive_failures max_consecutive_failures
      duplicate_count max_duplicate_steps =
    if le_float (of_int maximum_wall_seconds) elapsed_seconds
    then record { action = stop; reason = "maximum wall budget exhausted" }
    else if leb_ℤ max_consecutive_failures (pos consecutive_failures)
    then record { action = replan; reason = "consecutive failure limit reached" }
    else if leb_ℤ max_duplicate_steps (pos duplicate_count)
    then record { action = replan; reason = "duplicate-step limit reached" }
    else record { action = continue; reason = "healthy" }
