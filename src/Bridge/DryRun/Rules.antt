-- ===== src/Bridge/DryRun/Rules.antt =====
-- What a step of `run_local_hive_dry_run` of src/cybercore/action_kernel_hive_bridge.py leaves behind, for a
-- property of the process that the readings of the clocks do not touch.
use cyber_core.Base.{
  ℕ, ◌+◌, ◌≤◌, ◌<◌, String, Bool, true, false, ◌||◌, not, ◌≡◌, refl, arith, Bool-cases, inl, inr,
}
use cyber_core.Base.Int.{ℤ, leb_ℤ}
use cyber_core.Base.Float.{Float, le_float, ◌-f◌}
use cyber_core.Base.Exec.{pure, raise_if, ◌>>=◌}
use cyber_core.Kernel.Types.{TaskRequest}
use cyber_core.Bridge.Interop.{BridgeError}
use cyber_core.Bridge.Process.{Setting, Process, Bridge, utc_now, monotonic, assert_not_expired}
use cyber_core.Bridge.DryRun.{within}

module _ {S : Type 0} (setting : Setting) (Before After : Process S → Type 0) where
  -- A property that holds at each point until then, and lets the method stop there.
  pub record Rests : Type 0 where
    pub reading :
        (p : Process S) (n m : ℕ)
        → p.utc_readings ≤ n
        → Before p
        → Before (record p { utc_readings = n; monotonic_readings = m })
    pub stops : (p : Process S) → Before p → After p

  module _ (rests : Rests) {A : Type 0} where
    pub raise_if-rule :
        (refused : Bool) (e : BridgeError) (rest : Unit → Bridge S A)
        → (refused ≡ false → (p : Process S) → Before p → After (rest tt p).1)
        → (p : Process S) → Before p
        → After ((raise_if refused e >>= rest) p).1
    unfolding ◌>>=◌
    raise_if-rule true e rest later p h = rests.stops p h
    raise_if-rule false e rest later p h = later refl p h

    pub monotonic-rule :
        (rest : Float → Bridge S A)
        → ((now : Float) (p : Process S) → Before p → After (rest now p).1)
        → (p : Process S) → Before p
        → After ((monotonic setting >>= rest) p).1
    unfolding ◌>>=◌
    monotonic-rule rest later p h =
        later _ _ (rests.reading p p.utc_readings (p.monotonic_readings + 1) (omega arith) h)

    pub utc-rule :
        (rest : ℤ → Bridge S A)
        → ((p : Process S)
            → Before p
            → (now : ℤ) (q : Process S) → Before q
            → p.utc_readings < q.utc_readings
            → After (rest now q).1)
        → (p : Process S) → Before p
        → After ((utc_now setting >>= rest) p).1
    unfolding ◌>>=◌
    utc-rule rest later p h =
        later p h _ _ (rests.reading p (p.utc_readings + 1) p.monotonic_readings (omega arith) h)
          (omega arith)

    pub within-rule :
        (started remaining : Float) (reason : String) (rest : Unit → Bridge S A)
        → ((p : Process S) → Before p → After (rest tt p).1)
        → (p : Process S) → Before p
        → After ((within setting started remaining reason >>= rest) p).1
    unfolding ◌>>=◌ within
    within-rule started remaining reason rest later p h =
        let next = rests.reading p p.utc_readings (p.monotonic_readings + 1) (omega arith) h in
        elim (Bool-cases (le_float remaining (setting.monotonic p.monotonic_readings -f started))) [
          | inl late ↦ rw late (rests.stops _ next)
          | inr live ↦ rw live (later _ next)
        ]

    -- A reading of the clock at which the task has not expired
    pub assert-rule :
        (task : TaskRequest) (rest : ℤ → Bridge S A)
        → ((p : Process S)
            → Before p
            → leb_ℤ task.expires_at.instant (setting.utc p.utc_readings) ≡ false
            → (now : ℤ) (q : Process S) → Before q
            → p.utc_readings < q.utc_readings
            → After (rest now q).1)
        → (p : Process S) → Before p
        → After ((assert_not_expired setting task >>= rest) p).1
    unfolding ◌>>=◌ assert_not_expired
    assert-rule task rest later p h =
        let next = rests.reading p (p.utc_readings + 1) p.monotonic_readings (omega arith) h in
        elim (Bool-cases (
          not task.expires_at.is_aware
          || leb_ℤ task.expires_at.instant (setting.utc p.utc_readings))) [
            | inl expired ↦ rw expired (rests.stops _ next)
            | inr live ↦ rw live (later p h (ground (arith, live)) _ _ next (omega arith))
          ]

    pub pure-rule : (a : A) (p : Process S) → Before p → After (pure {E = BridgeError} a p).1
    unfolding ◌>>=◌
    pure-rule a p h = rests.stops p h
