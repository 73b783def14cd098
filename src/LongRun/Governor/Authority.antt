-- ===== src/LongRun/Governor/Authority.antt =====
-- What `authorize_step` of src/cybercore/longrun/governor.py asks, stated without its order.
use cyber_core.Base.{true, false, ◌≡◌, contains, string_eq, arith}
use cyber_core.Base.Float.{le_float, zero_float}
use cyber_core.LongRun.Types.{StepProposal}
use cyber_core.LongRun.Manifest.{Manifest}
use cyber_core.LongRun.Governor.{value, authorize_step}

-- A proposal that the mission allows.
pub record IsAuthorized (m : Manifest) (p : StepProposal) : Type 0 where
  pub allowed : contains m.allowed_effects p.effect ≡ true
  pub unprohibited : contains m.prohibited_effects p.effect ≡ false
  pub worthwhile : le_float (value p) zero_float ≡ false

pub authorize_step-IsAuthorized :
    (m : Manifest) (p : StepProposal)
    → (authorize_step p m.allowed_effects m.prohibited_effects).0 ≡ true
    → IsAuthorized m p
unfolding authorize_step
authorize_step-IsAuthorized m p h = record {
  allowed = ground arith;
  unprohibited = ground arith;
  worthwhile = ground arith;
}
