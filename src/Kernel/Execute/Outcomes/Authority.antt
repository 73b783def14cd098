-- ===== src/Kernel/Execute/Outcomes/Authority.antt =====
-- From the policy to the dispatch, in `execute` of src/cybercore/action_kernel.py.
use cyber_core.Base.{
  ◌++◌, ℕ, ◌+◌, ◌≤◌, ◌<◌, map, String, Bool, true, false, ◌≡◌, refl, sym, ap, subst, ◌∙◌, none,
  List, [], ◌∷◌, contains, lookup, string_eq, if◌then◌else◌, Bool-cases, inl, inr, is_some, arith,
}
use cyber_core.Base.Int.{leb_ℤ}
use cyber_core.Base.Time.{DateTime}
use cyber_core.Base.Exec.{Result, ok, err, ◌>>=◌, continue}
use cyber_core.Kernel.{Kernel, read_clock, conclude, audit}
use cyber_core.Kernel.Types.{
  TaskRequest, PolicyDecision, allow, deny, PolicyVerdict, denied, failed, AuditStage, request,
  policy, Error, AuditEvent,
}
use cyber_core.Kernel.Policy.{evaluate_policy}
use cyber_core.Kernel.Policy.Decision.{IsPermitted, evaluate_policy_iff, due-aware, due-mixed}
use cyber_core.Kernel.Policy.Decision.Answers.{
  Answer, decided, unzoned, overflowed, evaluate_policy-IsAnswer,
}
use cyber_core.Kernel.Execute.{
  dispatch, reserve_task_id, revalidate, authorize, evaluate, receive, execute, decision_text,
}
use cyber_core.Kernel.Execute.Reached.{
  Reached, Reached-refl, Reached-readings, IsGranted, decide-rule, audit-rule, audit_from-rule,
  entry, about,
}
use cyber_core.Kernel.Execute.Outcomes.{
  unavailable, unobserved, undecided, unrecorded, refused, unchecked, nested, Ends, conclude-Ends,
  refuse_dispatch-Ends, dispatch-Ends,
}

-- The policy was asked before the reading `next`, with the request on the trail, and permitted it.
record IsAsked (k : Kernel) (req : TaskRequest) (actor : String) (next : ℕ) : Type 0 where
  asked : ℕ
  begun : k.readings ≤ asked
  before : asked < next
  observed : List AuditEvent
  noted : map entry observed ≡ about req actor request ∷ []
  permitted : IsPermitted (record k { readings = asked; trail = k.trail ++ observed }) req actor

module _ (k : Kernel) (req : TaskRequest) (actor : String) where
  Reached-frame :
      {stages : List AuditStage} (j : Kernel)
      → Reached k req actor false stages j
      → record k { readings = j.readings; trail = j.trail } ≡ j
  Reached-frame j h =
      ap {A = List String} (λ u. record k { used = u; readings = j.readings; trail = j.trail })
        (sym h.used)
      ∙ h.frame

  Reached-reserved :
      {stages : List AuditStage} (j : Kernel)
      → Reached k req actor false stages j
      → IsGranted k req actor j.readings
      → Reached k req actor true stages (record j { used = req.task_id ∷ j.used })
  Reached-reserved j h granted = record {
    frame = ap {A = Kernel} (λ x. record x { used = req.task_id ∷ j.used }) h.frame;
    used = ap {A = List String} (λ u. req.task_id ∷ u) h.used;
    onward = h.onward;
    granted = λ _. granted;
    events = h.events;
    trail = h.trail;
    logged = h.logged;
    sunk = h.sunk;
  }

  revalidate-Ends :
      (verdict : PolicyVerdict) (expired : Bool) (j : Kernel)
      → (expired ≡ false → IsGranted k req actor j.readings)
      → Reached k req actor false (request ∷ policy ∷ []) j
      → Ends k req actor (revalidate req actor verdict expired j)
  unfolding revalidate
  revalidate-Ends verdict true j granted h = refuse_dispatch-Ends k req actor "EXPIRED" j h
  revalidate-Ends verdict false j granted h =
      unfold ◌>>=◌ reserve_task_id in
      elim (Bool-cases (contains j.used req.task_id)) [
        | inl taken ↦ rw taken (unfold dispatch in refuse_dispatch-Ends k req actor "DUPLICATE" j h)
        | inr new ↦
            let g = granted refl in
            let s = g.permitted.servable in
            rw new (
              dispatch-Ends k req actor verdict s.inventory s.status
                (record j { used = req.task_id ∷ j.used })
                (ap (λ (x : Kernel). lookup req.target_id x.targets) (sym (Reached-frame j h))
                  ∙ s.listed)
                s.reported (Reached-reserved j h g))
      ]

  Reached-aware :
      {b : Bool} {stages : List AuditStage} (j : Kernel)
      → Reached k req actor b stages j
      → k.clock ≡ j.clock
  Reached-aware j h = ap {A = Kernel} (λ x. x.clock) h.frame

  authorize-Ends :
      (verdict : PolicyVerdict) (decision : PolicyDecision) (next : ℕ)
      → (decision ≡ allow → IsAsked k req actor next)
      → (j : Kernel) → next ≤ j.readings
      → Reached k req actor false (request ∷ policy ∷ []) j
      → Ends k req actor (authorize req actor verdict decision j)
  authorize-Ends verdict deny next asked j later h =
      unfold authorize in conclude-Ends k req actor verdict denied verdict.reason none refused j h
  authorize-Ends verdict allow next asked j after h =
      let a = asked refl in
      let aware = a.permitted.admissible.expires_aware in
      let now = j.clock j.readings in
      let later = record j { readings = j.readings + 1 } in
      unfold authorize ◌>>=◌ read_clock in
      elim (Bool-cases now.is_aware) [
        | inl zoned ↦ rw (due-aware later req actor req.expires_at now aware zoned) (
            revalidate-Ends verdict _ later
              (λ lives. record {
                asked = a.asked;
                begun = a.begun;
                observed = a.observed;
                noted = a.noted;
                permitted = a.permitted;
                checked = j.readings;
                rechecked = omega (arith, a.before, after);
                ended = omega arith;
                lives =
                    subst
                      (λ (c : ℕ → DateTime).
                        leb_ℤ req.expires_at.instant (c j.readings).instant ≡ false)
                      (sym (Reached-aware j h)) lives;
              })
              (Reached-readings h (j.readings + 1) (omega arith)))
        | inr naive ↦ rw (due-mixed later req actor req.expires_at now aware naive) record {
          reserved = false;
          stages = _;
          outcome = unchecked (
            j.readings,
            subst (λ (c : ℕ → DateTime). (c j.readings).is_aware ≡ false) (sym (Reached-aware j h))
                naive,
          );
          reached = Reached-readings h (j.readings + 1) (omega arith);
        }
      ]

  decide_on-Ends :
      (next : ℕ) (verdict : PolicyVerdict)
      → (verdict.decision ≡ allow → IsAsked k req actor next)
      → (j : Kernel) → next ≤ j.readings
      → Reached k req actor false (request ∷ []) j
      → Ends k req actor (
          (audit req actor policy (decision_text verdict.decision) verdict.reason none
              >>= λ recorded.
                  if recorded
                  then authorize req actor verdict verdict.decision
                  else conclude req actor verdict failed "AUDIT_FAILED" none)
            j)
  decide_on-Ends next verdict asked =
      audit_from-rule (Ends k req actor) policy _ verdict.reason none _ next
        (authorize-Ends verdict verdict.decision next asked)
        (conclude-Ends k req actor verdict failed "AUDIT_FAILED" none unrecorded)

  answered-Ends :
      (j : Kernel) (h : Reached k req actor false (request ∷ []) j) (r : Result Error PolicyVerdict)
      (i : Kernel)
      → (evaluate_policy req actor j).0 ≡ r
      → (n : ℕ) → j.readings + 1 ≤ n
      → i ≡ record j { readings = n }
      → Answer j.clock req r
      → Ends k req actor (
          continue r
            (λ verdict.
              audit req actor policy (decision_text verdict.decision) verdict.reason none
              >>= λ recorded.
                  if recorded
                  then authorize req actor verdict verdict.decision
                  else conclude req actor verdict failed "AUDIT_FAILED" none)
            i)
  answered-Ends j h (ok v) i e n later frame (decided _) = rw frame (
      decide_on-Ends n v
        (λ allowed. record {
          asked = j.readings;
          begun = h.onward;
          before = omega (arith, later);
          observed = h.events;
          noted = h.logged;
          permitted =
              subst
                (λ (t : List AuditEvent).
                  IsPermitted (record k { readings = j.readings; trail = t }) req actor)
                h.trail
                (subst (λ (x : Kernel). IsPermitted x req actor) (sym (Reached-frame j h))
                  ((evaluate_policy_iff j req actor).0 (v, e, allowed)));
        })
        _ (omega arith) (Reached-readings h n (omega (arith, later))))
  answered-Ends j h (err _) i e n later frame (unzoned m mixed) = rw frame record {
    reserved = false;
    stages = _;
    outcome = undecided (
        subst (λ (c : ℕ → DateTime). (n : ℕ) × ((c n).is_aware ≡ false)) (sym (Reached-aware j h))
          (m, mixed));
    reached = Reached-readings h n (omega (arith, later));
  }
  answered-Ends j h (err _) i e n later frame (overflowed deep) = rw frame record {
    reserved = false;
    stages = _;
    outcome = nested deep;
    reached = Reached-readings h n (omega (arith, later));
  }

  evaluate-Ends :
      (recorded : Bool) (j : Kernel)
      → Reached k req actor false (if recorded then request ∷ [] else []) j
      → Ends k req actor (evaluate req actor recorded j)
  evaluate-Ends false j h =
      unfold evaluate in
      decide-rule (Ends k req actor) deny "AUDIT_FAILED" _
        (λ i v. conclude-Ends k req actor v failed "AUDIT_FAILED" none unobserved i) j h
  evaluate-Ends true j h =
      let a = evaluate_policy-IsAnswer req actor j in
      unfold evaluate ◌>>=◌ in
      answered-Ends j h (evaluate_policy req actor j).0 (evaluate_policy req actor j).1 refl a.taken
        a.later a.left a.answer

  receive-Ends :
      (available : Bool)
      → is_some k.sink ≡ available
      → Ends k req actor (receive req actor available k)
  receive-Ends false e =
      unfold receive in
      decide-rule (Ends k req actor) deny "AUDIT_UNAVAILABLE" _
        (λ i v. conclude-Ends k req actor v denied v.reason none (unavailable (ground arith)) i) k
        Reached-refl
  receive-Ends true e =
      unfold receive in
      audit-rule (Ends k req actor) request "OBSERVED" "REQUEST_RECEIVED" none _
        (evaluate-Ends true) (evaluate-Ends false) k Reached-refl

  -- However an `execute` ends, it ends in one of the ways listed: a status of its own, the identifier
  -- reserved from the dispatch on, one event for each stage passed, a TypeError only where a reading of
  -- the clock has no time zone, and a RecursionError only where the arguments nest too deep to be
  -- encoded. The dispatch is only reached by a request that the policy, asked in this call, permitted,
  -- and that was still live at a later reading of the clock in this call.
  pub execute-Ends : Ends k req actor (execute req actor k)
  unfolding execute ◌>>=◌
  execute-Ends = receive-Ends (is_some k.sink) refl
