-- ===== src/Kernel/Execute/Outcomes.antt =====
-- The ways in which `execute` of src/cybercore/action_kernel.py ends, and its part from the dispatch on.
pub mod Authority
use mathlib.Core.Bool.{false≢true}
use cyber_core.Base.{
  ℕ, ◌+◌, String, Bool, true, false, ◌≡◌, refl, sym, ap, subst, ◌∙◌, Option, none, some, List, [],
  ◌∷◌, ltb, contains, lookup, Dict, string_eq, if◌then◌else◌, Bool-cases, Option-cases, inl, inr,
  is_some, arith,
}
use cyber_core.Base.Int.{leb_ℤ}
use cyber_core.Base.Time.{DateTime, le_time}
use cyber_core.Base.Exec.{Result, ok, err, ◌>>=◌, pure, reads, raise}
use cyber_core.Kernel.{Kernel, Action, read_clock, decide, conclude, audit, is_due}
use cyber_core.Kernel.Types.{
  TaskRequest, PolicyDecision, allow, deny, PolicyVerdict, EvidenceMetadata, Status, denied, failed,
  executed, ExecutionReceipt, AuditStage, request, policy, execution, evidence, AuditEvent, Error,
  type_error, key_error, recursion_error, too_deep,
}
use cyber_core.Kernel.Policy.{evaluate_policy}
use cyber_core.Kernel.Policy.Decision.{
  IsPermitted, IsAllowed, evaluate_policy_iff, due-aware, due-mixed,
}
use cyber_core.Kernel.Policy.Decision.Answers.{evaluate_policy-IsAnswer}
use cyber_core.Kernel.Execute.{
  refuse_dispatch, record_evidence, complete, gather, dispatch_status, dispatch_inventory, dispatch,
  reserve_task_id, revalidate, authorize, evaluate, receive, execute, decision_text,
}
use cyber_core.Kernel.Execute.Reached.{
  Reached, Reached-refl, Reached-readings, IsGranted, clock-rule, decide-rule, audit-rule,
}

abbrev pub IsNaive : Kernel → Type 0
IsNaive k = (n : ℕ) × ((k.clock n).is_aware ≡ false)

-- The status or the error, whether the identifier is reserved from then on, and the events on the
-- trail.
pub data Outcome (k : Kernel) (req : TaskRequest)
    : Result Error Status → Bool → List AuditStage → Type 0 where
  unavailable : k.sink ≡ none → Outcome k req (ok denied) false []
  unobserved : Outcome k req (ok failed) false []
  nested :
      req.arguments.encoding ≡ too_deep → Outcome k req (err recursion_error) false (request ∷ [])
  undecided : IsNaive k → Outcome k req (err type_error) false (request ∷ [])
  unrecorded : Outcome k req (ok failed) false (request ∷ [])
  refused : Outcome k req (ok denied) false (request ∷ policy ∷ [])
  unchecked : IsNaive k → Outcome k req (err type_error) false (request ∷ policy ∷ [])
  late : Outcome k req (ok denied) false (request ∷ policy ∷ execution ∷ [])
  late_unrecorded : Outcome k req (ok failed) false (request ∷ policy ∷ [])
  oversized unexecuted : Outcome k req (ok failed) true (request ∷ policy ∷ [])
  unevidenced : Outcome k req (ok failed) true (request ∷ policy ∷ execution ∷ [])
  completed : Outcome k req (ok executed) true (request ∷ policy ∷ execution ∷ evidence ∷ [])

abbrev pub status_of : Result Error ExecutionReceipt → Result Error Status
status_of (ok receipt) = ok receipt.status
status_of (err e) = err e

pub record Ends (k : Kernel) (req : TaskRequest) (actor : String)
    (ending : Result Error ExecutionReceipt × Kernel) : Type 0 where
  pub reserved : Bool
  pub stages : List AuditStage
  pub outcome : Outcome k req (status_of ending.0) reserved stages
  pub reached : Reached k req actor reserved stages ending.1

module _ (k : Kernel) (req : TaskRequest) (actor : String) where
  conclude-Ends :
      {b : Bool} {stages : List AuditStage} (verdict : PolicyVerdict) (status : Status)
      (reason : String) (e : Option EvidenceMetadata)
      → Outcome k req (ok status) b stages
      → (j : Kernel) → Reached k req actor b stages j
      → Ends k req actor (conclude req actor verdict status reason e j)
  unfolding conclude ◌>>=◌ read_clock
  conclude-Ends verdict status reason e o j h = record {
    reserved = _;
    stages = _;
    outcome = o;
    reached = Reached-readings h (j.readings + 1) (omega arith);
  }

  refuse_dispatch-Ends :
      (reason : String) (j : Kernel)
      → Reached k req actor false (request ∷ policy ∷ []) j
      → Ends k req actor (refuse_dispatch req actor reason j)
  unfolding refuse_dispatch
  refuse_dispatch-Ends reason = decide-rule (Ends k req actor) deny reason _ (λ j v.
      audit-rule (Ends k req actor) execution "DENIED" reason none _
        (conclude-Ends v denied reason none late)
        (conclude-Ends v failed "AUDIT_FAILED" none late_unrecorded) j)

  record_evidence-Ends :
      (verdict : PolicyVerdict) (e : EvidenceMetadata) (result : ExecutionReceipt)
      → result.status ≡ executed
      → (j : Kernel) → Reached k req actor true (request ∷ policy ∷ execution ∷ []) j
      → Ends k req actor (record_evidence req actor verdict e result j)
  unfolding record_evidence ◌>>=◌
  record_evidence-Ends verdict e result done =
      audit-rule (Ends k req actor) evidence "RECORDED" "EVIDENCE_HASHED" (some e.sha256) _
        (λ j h. record { reserved = true; stages = _; outcome = rw done completed; reached = h })
        (conclude-Ends verdict failed "AUDIT_FAILED" none unevidenced)

  complete-Ends :
      (verdict : PolicyVerdict) (e : EvidenceMetadata) (j : Kernel)
      → Reached k req actor true (request ∷ policy ∷ []) j
      → Ends k req actor (complete req actor verdict e j)
  unfolding complete conclude ◌>>=◌ read_clock
  complete-Ends verdict e j h =
      audit-rule (Ends k req actor) execution "COMPLETED" "SYNTHETIC_ONLY" none _
        (record_evidence-Ends verdict e _ refl)
        (conclude-Ends verdict failed "AUDIT_FAILED" none unexecuted) _
        (Reached-readings h (j.readings + 1) (omega arith))

  gather-Ends :
      (verdict : PolicyVerdict) (e : EvidenceMetadata) (too_long : Bool) (j : Kernel)
      → Reached k req actor true (request ∷ policy ∷ []) j
      → Ends k req actor (gather req actor verdict e too_long j)
  unfolding gather
  gather-Ends verdict e true = conclude-Ends verdict failed "EVIDENCE_OVERSIZED" none oversized
  gather-Ends verdict e false = complete-Ends verdict e

  -- The policy found the inventory, so that neither key is missing.
  dispatch-Ends :
      (verdict : PolicyVerdict) (inventory : Dict String String) (status : String) (j : Kernel)
      → lookup req.target_id j.targets ≡ some inventory
      → lookup "synthetic_status" inventory ≡ some status
      → Reached k req actor true (request ∷ policy ∷ []) j
      → Ends k req actor (dispatch req actor verdict true j)
  unfolding dispatch dispatch_inventory dispatch_status ◌>>=◌
  dispatch-Ends verdict inventory status j listed reported h =
      rw listed (rw reported (gather-Ends verdict _ _ j h))
