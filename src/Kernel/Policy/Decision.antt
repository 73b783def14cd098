-- ===== src/Kernel/Policy/Decision.antt =====
-- The decision of `_evaluate_policy` of src/cybercore/action_kernel.py.
pub mod Answers
use cyber_core.Base.{
  ◌+◌, ◌∙◌, sym, ap, Option-cases, ℕ, String, Bool, true, false, ◌≡◌, refl, ◌↔◌, Option, none, some,
  arith, Bool-cases, inl, inr,
}
use cyber_core.Base.Int.{leb_ℤ}
use cyber_core.Base.Time.{DateTime, le_time}
use cyber_core.Base.Exec.{Result, ok, err, ◌>>=◌}
use cyber_core.Kernel.{Kernel, read_clock, decide, is_due}
use cyber_core.Kernel.Types.{TaskRequest, PolicyVerdict, allow, deny, Error, type_error}
use cyber_core.Kernel.Policy.{
  Refusal, denial, overflow, early_refusal, late_refusal, verdict_of, late_policy, timed_policy,
  policy_after, evaluate_policy, descriptor_refusal, target_refusal, arguments_refusal,
}
use cyber_core.Kernel.Policy.Refusals.{
  IsAdmissible, IsServable, IsAdmissible-none, none-IsAdmissible, IsServable-none, none-IsServable,
}

pub record IsPermitted (k : Kernel) (req : TaskRequest) (actor : String) : Type 0 where
  pub admissible : IsAdmissible k req actor
  pub ordered : leb_ℤ req.expires_at.instant req.requested_at.instant ≡ false
  pub clock_aware : (k.clock k.readings).is_aware ≡ true
  pub lives : leb_ℤ req.expires_at.instant (k.clock k.readings).instant ≡ false
  pub servable : IsServable k req

-- The verdict is one and is ALLOW.
abbrev pub IsAllowed : Result Error PolicyVerdict → Type 0
IsAllowed r = (v : PolicyVerdict) × (r ≡ ok v) × (v.decision ≡ allow)

module _ (k : Kernel) (req : TaskRequest) (actor : String) where
  late_refusal-readings :
      (n : ℕ) → late_refusal (record k { readings = n }) req ≡ late_refusal k req
  unfolding late_refusal descriptor_refusal target_refusal arguments_refusal
  late_refusal-readings n = ground arith

  pub due-aware :
      (a b : DateTime)
      → a.is_aware ≡ true
      → b.is_aware ≡ true
      → is_due a b k ≡ (ok (leb_ℤ a.instant b.instant), k)
  unfolding is_due le_time ◌>>=◌
  due-aware a b p q = ground arith

  policy_after-refused :
      (reason : String) → IsAllowed (policy_after req actor (some reason) k).0 → ⊥
  unfolding policy_after decide ◌>>=◌ read_clock
  policy_after-refused reason (v, e, d) = ground arith

  verdict_of-allow : (o : Option Refusal) → IsAllowed (verdict_of req actor o k).0 → o ≡ none
  unfolding verdict_of decide ◌>>=◌ read_clock
  verdict_of-allow none h = refl
  verdict_of-allow (some (denial reason)) (v, e, d) = ground arith
  verdict_of-allow (some overflow) (v, e, d) = ground arith

  late_policy-allow :
      (expired : Bool)
      → IsAllowed (late_policy req actor expired k).0
      → (expired ≡ false) × (late_refusal k req ≡ none)
  unfolding late_policy decide ◌>>=◌ read_clock
  late_policy-allow true (v, e, d) = ground arith
  late_policy-allow false h = (refl, verdict_of-allow _ h)

  pub due-mixed :
      (a b : DateTime) → a.is_aware ≡ true → b.is_aware ≡ false → is_due a b k ≡ (err type_error, k)
  unfolding is_due le_time ◌>>=◌
  due-mixed a b p q = ground arith

module _ (k : Kernel) (req : TaskRequest) (actor : String) where
  abbrev now : DateTime
  now = k.clock k.readings

  abbrev later : Kernel
  later = record k { readings = k.readings + 1 }

  timed_policy-aware :
      req.expires_at.is_aware ≡ true
      → now.is_aware ≡ true
      → timed_policy req actor false k
        ≡ late_policy req actor (leb_ℤ req.expires_at.instant now.instant) later
  unfolding timed_policy ◌>>=◌ read_clock
  timed_policy-aware a b = rw (due-aware later req actor req.expires_at now a b) refl

  timed_policy-naive :
      req.expires_at.is_aware ≡ true
      → now.is_aware ≡ false
      → timed_policy req actor false k ≡ (err type_error, later)
  unfolding timed_policy ◌>>=◌ read_clock
  timed_policy-naive a b = rw (due-mixed later req actor req.expires_at now a b) refl

  timed_policy-allow :
      (backwards : Bool)
      → req.expires_at.is_aware ≡ true
      → IsAllowed (timed_policy req actor backwards k).0
      → (backwards ≡ false)
        × (now.is_aware ≡ true)
        × (leb_ℤ req.expires_at.instant now.instant ≡ false)
        × (late_refusal k req ≡ none)
  unfolding timed_policy decide ◌>>=◌ read_clock
  timed_policy-allow true aware (v, e, d) = ground arith
  timed_policy-allow false aware (v, e, d) = elim (Bool-cases now.is_aware) [
    | inr naive ↦ ground (arith, timed_policy-naive aware naive)
    | inl zoned ↦
        let (lives, unrefused) =
          late_policy-allow later req actor _
            (v, ap (λ x. x.0) (sym (timed_policy-aware aware zoned)) ∙ e, d) in
        (refl, zoned, lives, sym (late_refusal-readings k req actor (k.readings + 1)) ∙ unrefused)
  ]

  evaluate_policy-aware :
      req.requested_at.is_aware ≡ true
      → req.expires_at.is_aware ≡ true
      → early_refusal k req actor ≡ none
      → evaluate_policy req actor k
        ≡ timed_policy req actor (leb_ℤ req.expires_at.instant req.requested_at.instant) k
  unfolding evaluate_policy policy_after ◌>>=◌
  evaluate_policy-aware a b h =
      rw h (rw (due-aware k req actor req.expires_at req.requested_at b a) refl)

  evaluate_policy-refused :
      (reason : String)
      → early_refusal k req actor ≡ some reason
      → IsAllowed (evaluate_policy req actor k).0
      → ⊥
  unfolding evaluate_policy ◌>>=◌
  evaluate_policy-refused reason h = rw h (policy_after-refused k req actor reason)

  IsPermitted-allow : IsPermitted k req actor → IsAllowed (evaluate_policy req actor k).0
  unfolding verdict_of late_policy decide ◌>>=◌ read_clock
  IsPermitted-allow p =
      let a = p.admissible in
      let ready =
        evaluate_policy-aware a.requested_aware a.expires_aware (IsAdmissible-none k req actor a) in
      let timely = timed_policy-aware a.expires_aware p.clock_aware in
      let unrefused =
        late_refusal-readings k req actor (k.readings + 1)
        ∙ IsServable-none k req actor p.servable in
      rw ready (rw p.ordered (rw timely (rw p.lives (rw unrefused (_, refl, refl)))))

  allow-IsPermitted : IsAllowed (evaluate_policy req actor k).0 → IsPermitted k req actor
  allow-IsPermitted allowed = elim (Option-cases (early_refusal k req actor)) [
    | inr (reason, refused) ↦ absurd (evaluate_policy-refused reason refused allowed)
    | inl passed ↦
        let admissible = none-IsAdmissible k req actor passed in
        let (v, e, d) = allowed in
        let (ordered, zoned, lives, unrefused) = timed_policy-allow _ admissible.expires_aware (
          v,
          ap (λ x. x.0)
                (sym (
                  evaluate_policy-aware admissible.requested_aware admissible.expires_aware passed))
              ∙ e,
          d,
        ) in
        record {
          admissible = admissible;
          ordered = ordered;
          clock_aware = zoned;
          lives = lives;
          servable = none-IsServable k req actor unrefused;
        }
  ]

  -- The policy answers ALLOW exactly when the feature is on, the caller is an allowed actor and
  -- the request's own, its schema, contract, provenance and identifiers are valid, it is live by an
  -- aware clock, its identifier is unused, and its capability, target, arguments and inventory are
  -- fit to serve.
  pub evaluate_policy_iff : IsAllowed (evaluate_policy req actor k).0 ↔ IsPermitted k req actor
  evaluate_policy_iff = (allow-IsPermitted, IsPermitted-allow)
