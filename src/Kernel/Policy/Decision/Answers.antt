-- ===== src/Kernel/Policy/Decision/Answers.antt =====
-- What `_evaluate_policy` of src/cybercore/action_kernel.py returns and leaves behind.
use cyber_core.Base.{
  ℕ, ◌+◌, ◌≤◌, arith, String, Bool, true, false, ◌≡◌, refl, inl, inr, Option, none, some,
  Bool-cases, Option-cases,
}
use cyber_core.Base.Int.{leb_ℤ}
use cyber_core.Base.Time.{DateTime}
use cyber_core.Base.Exec.{Result, ok, err, ◌>>=◌}
use cyber_core.Kernel.{Kernel, read_clock, decide}
use cyber_core.Kernel.Types.{
  TaskRequest, PolicyDecision, PolicyVerdict, Error, type_error, recursion_error, too_deep,
}
use cyber_core.Kernel.Policy.{
  Refusal, denial, overflow, early_refusal, late_refusal, verdict_of, late_policy, timed_policy,
  policy_after, evaluate_policy,
}
use cyber_core.Kernel.Policy.Refusals.{none-IsAdmissible, overflow-too_deep}
use cyber_core.Kernel.Policy.Decision.{
  timed_policy-aware, timed_policy-naive, evaluate_policy-aware,
}

-- A verdict, the TypeError of a reading without a time zone, or the RecursionError of arguments that nest
-- too deep.
pub data Answer (clock : ℕ → DateTime) (req : TaskRequest)
    : Result Error PolicyVerdict → Type 0 where
  decided : (v : PolicyVerdict) → Answer clock req (ok v)
  unzoned : (m : ℕ) → (clock m).is_aware ≡ false → Answer clock req (err type_error)
  overflowed : req.arguments.encoding ≡ too_deep → Answer clock req (err recursion_error)

-- Only the clock has been read, up to a reading from `least` on.
pub record IsAnswer (least : ℕ) (k : Kernel) (req : TaskRequest)
    (x : Result Error PolicyVerdict × Kernel) : Type 0 where
  pub taken : ℕ
  pub later : least ≤ taken
  pub left : x.1 ≡ record k { readings = taken }
  pub answer : Answer k.clock req x.0

module _ (req : TaskRequest) (actor : String) where
  decide-IsAnswer :
      (decision : PolicyDecision) (reason : String) (k : Kernel)
      → IsAnswer (k.readings + 1) k req (decide req actor decision reason k)
  unfolding decide ◌>>=◌ read_clock
  decide-IsAnswer decision reason k = record {
    taken = k.readings + 1;
    later = omega arith;
    left = refl;
    answer = decided _;
  }

  earlier :
      {x : Result Error PolicyVerdict × Kernel} (k : Kernel)
      → IsAnswer (k.readings + 1) k req x
      → IsAnswer k.readings k req x
  earlier k a = record {
    taken = a.taken;
    later = omega (arith, a.later);
    left = a.left;
    answer = a.answer;
  }

  verdict_of-IsAnswer :
      (refusal : Option Refusal) (k : Kernel)
      → late_refusal k req ≡ refusal
      → IsAnswer k.readings k req (verdict_of req actor refusal k)
  unfolding verdict_of
  verdict_of-IsAnswer none k h = earlier k (decide-IsAnswer _ _ k)
  verdict_of-IsAnswer (some (denial reason)) k h = earlier k (decide-IsAnswer _ _ k)
  verdict_of-IsAnswer (some overflow) k h =
      unfold ◌>>=◌ in
      record {
        taken = k.readings;
        later = omega arith;
        left = refl;
        answer = overflowed (overflow-too_deep k req actor h);
      }

  late_policy-IsAnswer :
      (expired : Bool) (k : Kernel) → IsAnswer k.readings k req (late_policy req actor expired k)
  unfolding late_policy ◌>>=◌
  late_policy-IsAnswer true k = earlier k (decide-IsAnswer _ _ k)
  late_policy-IsAnswer false k = verdict_of-IsAnswer (late_refusal k req) k refl

  timed_policy-IsAnswer :
      (backwards : Bool) (k : Kernel)
      → req.expires_at.is_aware ≡ true
      → IsAnswer (k.readings + 1) k req (timed_policy req actor backwards k)
  timed_policy-IsAnswer true k aware = unfold timed_policy in decide-IsAnswer _ _ k
  timed_policy-IsAnswer false k aware = elim (Bool-cases (k.clock k.readings).is_aware) [
    | inl zoned ↦
        let a =
          late_policy-IsAnswer (leb_ℤ req.expires_at.instant (k.clock k.readings).instant)
            (record k { readings = k.readings + 1 }) in
        rw (timed_policy-aware k req actor aware zoned)
          record { taken = a.taken; later = a.later; left = a.left; answer = a.answer }
    | inr mixed ↦ rw (timed_policy-naive k req actor aware mixed) record {
      taken = k.readings + 1;
      later = omega arith;
      left = refl;
      answer = unzoned k.readings mixed;
    }
  ]

  pub evaluate_policy-IsAnswer :
      (k : Kernel) → IsAnswer (k.readings + 1) k req (evaluate_policy req actor k)
  evaluate_policy-IsAnswer k = elim (Option-cases (early_refusal k req actor)) [
    | inl passed ↦
        let a = none-IsAdmissible k req actor passed in
        rw (evaluate_policy-aware k req actor a.requested_aware a.expires_aware passed)
          (timed_policy-IsAnswer _ k a.expires_aware)
    | inr (reason, refused) ↦
        unfold evaluate_policy policy_after ◌>>=◌ in rw refused (decide-IsAnswer _ _ k)
  ]
