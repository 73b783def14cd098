-- ===== src/Bridge/DryRun/Settling.antt =====
-- A call of `run_local_hive_dry_run` of src/cybercore/action_kernel_hive_bridge.py, from its clock readings on.
use cyber_core.Base.{ℕ, suc, ◌+◌, ◌≤◌, String, ◌≡◌, refl, sym, subst, some, arith, inl}
use cyber_core.Base.Int.{ℤ}
use cyber_core.Base.Float.{Float}
use cyber_core.Base.Exec.{Result, ok, err, ◌>>=◌}
use cyber_core.Kernel.Types.{TaskRequest}
use cyber_core.Bridge.Guards.{ReplayGuard}
use cyber_core.Bridge.Guards.Once.{IsDurable}
use cyber_core.Bridge.Interop.{BridgeError, HiveRequest, to_hive_health_dry_run}
use cyber_core.Bridge.Process.{HiveDryRunReceipt, Setting, Process, Bridge, assert_not_expired}
use cyber_core.Bridge.DryRun.{
  send, accept, dispatch, hive_request, prepare, passed, measure, budgeted, within,
}
use cyber_core.Bridge.DryRun.Rules.{Rests, raise_if-rule, monotonic-rule, within-rule, assert-rule}
use cyber_core.Bridge.DryRun.Stages.{
  request_of, Settled, Ready, Waiting, Waiting-Rests, Ready-Rests, accept-Settled, send-rule,
}
use cyber_core.Bridge.DryRun.Claiming.{claim_once-rule}

module _ {S : Type 0} {store : ReplayGuard S} (durable : IsDurable store) (setting : Setting)
    (task : TaskRequest) (actor : String) (p : Process S) where
  abbrev Wait : ℕ → Process S → Type 0
  Wait = Waiting durable setting task actor p

  abbrev Claims : ℕ → Process S → Type 0
  Claims = Ready durable setting task actor p

  abbrev End : Process S → Type 0
  End = Settled durable setting task actor p

  passed-rule :
      (taken : ℕ) (rest : HiveRequest String → Bridge S HiveDryRunReceipt)
      (r : Result BridgeError (HiveRequest String))
      → ((shaped : HiveRequest String)
          → r ≡ ok shaped
          → (q : Process S) → Wait taken q
          → End (rest shaped q).1)
      → (q : Process S) → Wait taken q
      → End ((passed r >>= rest) q).1
  unfolding ◌>>=◌ passed
  passed-rule taken rest (err e) later q h = inl h.0
  passed-rule taken rest (ok shaped) later q h = later shaped refl q h

  shaped_request :
      (shaped : HiveRequest String)
      → to_hive_health_dry_run setting.isoformat task actor ≡ ok shaped
      → hive_request task actor shaped ≡ request_of task actor
  unfolding to_hive_health_dry_run hive_request
  shaped_request shaped made = ground (arith, made)

  -- A reading of the clock, before the claims
  waits : (taken : ℕ) → Rests setting (Wait taken) End
  waits = Waiting-Rests durable setting task actor p

  assert-Waiting :
      (taken : ℕ) (rest : ℤ → Bridge S HiveDryRunReceipt)
      → ((now : ℤ) (q : Process S) → Wait (suc taken) q → End (rest now q).1)
      → (q : Process S) → Wait taken q
      → End ((assert_not_expired setting task >>= rest) q).1
  assert-Waiting taken rest later =
      assert-rule setting (Wait taken) End (waits taken) task rest
        (λ r (_, counted) live now q (h, _) further.
          later now q (h, omega (arith, counted, further)))

  -- What is sent once the claims are made: the clock is read again.
  recheck-Settled :
      (started remaining : Float) (taken : ℕ)
      → p.utc_readings + 4 ≤ taken
      → (q : Process S) → Claims taken q
      → End
          ((assert_not_expired setting task >>= λ again.
              within setting started remaining "Task authorization expired during replay claim"
              >>= λ _. send setting (request_of task actor) >>= λ result.
                  accept setting task started remaining result)
            q).1
  recheck-Settled started remaining taken enough =
      assert-rule setting (Claims taken) End (Ready-Rests durable setting task actor p taken) task _
        (λ r ready live _ q (h, c) further.
          within-rule setting (Claims (suc r.utc_readings)) End
            (Ready-Rests durable setting task actor p (suc r.utc_readings)) started remaining _ _
            (send-rule durable setting task actor p _
              (accept-Settled durable setting task actor p started remaining) r.utc_readings
              (omega (arith, enough, ready.0.1)) live)
            q ((h.0, omega (arith, further)), c))

  dispatch-Settled :
      (started remaining : Float) (shaped : HiveRequest String)
      → hive_request task actor shaped ≡ request_of task actor
      → (q : Process S) → Wait (p.utc_readings + 2) q
      → End (dispatch setting store task actor started remaining shaped q).1
  unfolding dispatch
  dispatch-Settled started remaining shaped same = assert-Waiting (p.utc_readings + 2) _ (λ _.
      within-rule setting (Wait (suc (p.utc_readings + 2))) End (waits _) started remaining _ _ (
        claim_once-rule durable setting task actor p (suc (p.utc_readings + 2)) _ (
          subst
            (λ x.
              (t : Process S)
              → Claims (suc (suc (p.utc_readings + 2))) t
              → End
                  ((assert_not_expired setting task >>= λ again.
                      within setting started remaining
                        "Task authorization expired during replay claim"
                      >>= λ _.
                          send setting x >>= λ result. accept setting task started remaining result)
                    t).1)
            (sym same)
            (recheck-Settled started remaining (suc (suc (p.utc_readings + 2))) (omega arith)))))

  prepare-Settled :
      (started remaining : Float) (q : Process S)
      → Wait (p.utc_readings + 2) q
      → End (prepare setting (some store) task actor started remaining q).1
  unfolding prepare
  prepare-Settled started remaining =
      passed-rule (p.utc_readings + 2) _ (to_hive_health_dry_run setting.isoformat task actor)
        (λ shaped made.
          raise_if-rule setting (Wait (p.utc_readings + 2)) End (waits _) _ _ _
            (λ _. dispatch-Settled started remaining shaped (shaped_request shaped made)))

  pub measure-Settled :
      (q : Process S) → Wait p.utc_readings q → End (measure setting (some store) task actor q).1
  unfolding measure budgeted
  measure-Settled = monotonic-rule setting (Wait p.utc_readings) End (waits _) _ (λ _.
      assert-Waiting p.utc_readings _ (λ _.
        monotonic-rule setting (Wait (suc p.utc_readings)) End (waits _) _ (λ started.
          assert-Waiting (suc p.utc_readings) _ (λ _ q (h, counted).
            raise_if-rule setting (Wait (p.utc_readings + 2)) End (waits _) _ _ _
              (λ _. prepare-Settled started _) q (h, omega (arith, counted))))))
