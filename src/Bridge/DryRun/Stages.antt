-- ===== src/Bridge/DryRun/Stages.antt =====
-- How far a call of `run_local_hive_dry_run` of src/cybercore/action_kernel_hive_bridge.py has come: what it has
-- claimed and sent.
use cyber_core.Base.{
  ℕ, suc, ◌+◌, ◌<◌, ◌≤◌, String, true, false, ◌≡◌, ap, ◌⊎◌, [], ◌∷◌, ◌++◌, arith, Option-cases, inl,
  inr,
}
use cyber_core.Base.Int.{leb_ℤ}
use cyber_core.Base.Float.{Float}
use cyber_core.Base.Exec.{◌>>=◌}
use cyber_core.Base.Time.{DateTime}
use cyber_core.Kernel.Types.{TaskRequest}
use cyber_core.Bridge.Guards.{ReplayGuard}
use cyber_core.Bridge.Guards.Once.{IsDurable}
use cyber_core.Bridge.Interop.{HiveRequest}
use cyber_core.Bridge.Process.{HiveResult, HiveDryRunReceipt, Setting, Process, Bridge, claim_key}
use cyber_core.Bridge.DryRun.{send, accept}
use cyber_core.Bridge.DryRun.Rules.{Rests, raise_if-rule, within-rule, assert-rule, pure-rule}

-- The request of a task: a health check, dry, without tokens
abbrev pub request_of : TaskRequest → String → HiveRequest DateTime
request_of task actor = record {
  id = task.task_id;
  target_node = task.target_id;
  action = "health_check";
  dry_run = true;
  approval_tokens = [];
  requested_by = actor;
  correlation_id = task.correlation_id;
  created_at = task.requested_at;
}

module _ {S : Type 0} {store : ReplayGuard S} (durable : IsDurable store) (setting : Setting)
    (task : TaskRequest) (actor : String) (p : Process S) where
  -- Nothing was sent since `p`, and no claim was forgotten.
  pub record Unsent (q : Process S) : Type 0 where
    pub same : q.sent ≡ p.sent
    pub kept :
        (key : String) → durable.claimed p.durable key ≡ true → durable.claimed q.durable key ≡ true
    pub later : p.utc_readings ≤ q.utc_readings

  -- The key of the task was free, and is claimed.
  pub record IsClaimed (q : Process S) : Type 0 where
    pub free : durable.claimed p.durable (claim_key actor task) ≡ false
    pub claimed : durable.claimed q.durable (claim_key actor task) ≡ true

  -- The request of the task was sent, once, after its key was claimed; and at the fifth reading of the clock
  -- in this call, which is taken after the claim, or at a later one, the task was live.
  pub record Sent (q : Process S) : Type 0 where
    pub added : q.sent ≡ p.sent ++ request_of task actor ∷ []
    pub consumed : IsClaimed q
    pub kept :
        (key : String) → durable.claimed p.durable key ≡ true → durable.claimed q.durable key ≡ true
    pub checked : ℕ
    pub after : p.utc_readings + 4 ≤ checked
    pub ended : checked < q.utc_readings
    pub live : leb_ℤ task.expires_at.instant (setting.utc checked) ≡ false

  abbrev pub Settled : Process S → Type 0
  Settled q = Unsent q ⊎ Sent q

  -- With so many readings of the clock taken, at least
  abbrev pub Waiting : ℕ → Process S → Type 0
  Waiting taken q = Unsent q × (taken ≤ q.utc_readings)

  abbrev pub Ready : ℕ → Process S → Type 0
  Ready taken q = Waiting taken q × IsClaimed q

  pub Waiting-Rests : (taken : ℕ) → Rests setting (Waiting taken) Settled
  Waiting-Rests taken = record {
    reading = λ q n m more (h, counted). (
      record { same = h.same; kept = h.kept; later = omega (arith, h.later, more) },
      omega (arith, counted, more),
    );
    stops = λ q (h, counted). inl h;
  }

  pub Ready-Rests : (taken : ℕ) → Rests setting (Ready taken) Settled
  Ready-Rests taken = record {
    reading = λ q n m more (h, c).
        ((Waiting-Rests taken).reading q n m more h, record { free = c.free; claimed = c.claimed });
    stops = λ q (h, c). inl h.0;
  }

  pub Sent-Rests : Rests setting Sent Settled
  Sent-Rests = record {
    reading = λ q n m more h. record {
      added = h.added;
      consumed = record { free = h.consumed.free; claimed = h.consumed.claimed };
      kept = h.kept;
      checked = h.checked;
      after = h.after;
      ended = omega (arith, h.ended, more);
      live = h.live;
    };
    stops = λ q h. inr h;
  }

  pub accept-Settled :
      (started remaining : Float) (result : HiveResult) (q : Process S)
      → Sent q
      → Settled (accept setting task started remaining result q).1
  unfolding accept
  accept-Settled started remaining result =
      assert-rule setting Sent Settled Sent-Rests task _ (λ _ _ _ _ q sent counted.
        within-rule setting Sent Settled Sent-Rests started remaining _ _
          (raise_if-rule setting Sent Settled Sent-Rests _ _ _ (λ _.
            raise_if-rule setting Sent Settled Sent-Rests _ _ _
              (λ _. pure-rule setting Sent Settled Sent-Rests _)))
          q sent)

  pub send-rule :
      (rest : HiveResult → Bridge S HiveDryRunReceipt)
      → ((result : HiveResult) (q : Process S) → Sent q → Settled (rest result q).1)
      → (n : ℕ) → p.utc_readings + 4 ≤ n
      → leb_ℤ task.expires_at.instant (setting.utc n) ≡ false
      → (q : Process S) → Ready (suc n) q
      → Settled ((send setting (request_of task actor) >>= rest) q).1
  unfolding ◌>>=◌ send
  send-rule rest later n after live q ((h, counted), c) =
      let sent : Sent (record q { sent = q.sent ++ request_of task actor ∷ [] }) = record {
        added = ap (λ s. s ++ request_of task actor ∷ []) h.same;
        consumed = record { free = c.free; claimed = c.claimed };
        kept = h.kept;
        checked = n;
        after = after;
        ended = omega (arith, counted);
        live = live;
      } in
      elim (Option-cases (setting.registry q.sent (request_of task actor))) [
        | inl raised ↦ rw raised (inr sent)
        | inr (result, answered) ↦ rw answered (later result _ sent)
      ]
