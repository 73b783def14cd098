-- ===== src/Kernel/Execute/Guarantees.antt =====
-- What a receipt of `execute` of src/cybercore/action_kernel.py vouches for.
use cyber_core.Base.{
  inl, inr, ◌⊎◌, ◌≢◌, ℕ, String, Bool, true, false, ◌≡◌, refl, ap, subst, ◌∙◌, List, [], ◌∷◌, ◌++◌,
  map, contains, string_eq, arith,
}
use cyber_core.Base.Exec.{ok, err, Result-cases}
use cyber_core.Kernel.{Kernel}
use cyber_core.Kernel.Types.{
  TaskRequest, executed, denied, ExecutionReceipt, Error, AuditStage, Status, request, policy,
  execution, evidence, AuditEvent, too_deep,
}
use cyber_core.Kernel.Execute.{execute}
use cyber_core.Kernel.Execute.Reached.{Reached, IsGranted, entry, about}
use cyber_core.Kernel.Execute.Outcomes.{
  IsNaive, Outcome, completed, unavailable, refused, late, undecided, unchecked, nested, status_of,
}
use cyber_core.Kernel.Execute.Outcomes.Authority.{execute-Ends}

-- A task that is executed: it was granted, under an identifier that was free and is reserved from
-- then on, and the trail has its four events, in order.
pub record IsExecution (k : Kernel) (req : TaskRequest) (actor : String) (j : Kernel) : Type 0 where
  pub unused : contains k.used req.task_id ≡ false
  pub reserved : j.used ≡ req.task_id ∷ k.used
  pub granted : IsGranted k req actor j.readings
  pub events : List AuditEvent
  pub trail : j.trail ≡ k.trail ++ events
  pub logged :
      map entry events ≡ map (about req actor) (request ∷ policy ∷ execution ∷ evidence ∷ [])

module _ {k : Kernel} {req : TaskRequest} where
  executed-Outcome :
      {b : Bool} {stages : List AuditStage}
      → Outcome k req (ok executed) b stages
      → (b ≡ true) × (stages ≡ request ∷ policy ∷ execution ∷ evidence ∷ [])
  executed-Outcome completed = (refl, refl)

  denied-Outcome :
      {b : Bool} {stages : List AuditStage} → Outcome k req (ok denied) b stages → b ≡ false
  denied-Outcome (unavailable _) = refl
  denied-Outcome refused = refl
  denied-Outcome late = refl

  err-Outcome :
      {e : Error} {b : Bool} {stages : List AuditStage}
      → Outcome k req (err e) b stages
      → IsNaive k ⊎ (req.arguments.encoding ≡ too_deep)
  err-Outcome (undecided naive) = inl naive
  err-Outcome (unchecked naive) = inl naive
  err-Outcome (nested deep) = inr deep

  Reached-IsExecution :
      {actor : String} {b : Bool} {stages : List AuditStage} {j : Kernel}
      → (b ≡ true) × (stages ≡ request ∷ policy ∷ execution ∷ evidence ∷ [])
      → Reached k req actor b stages j
      → IsExecution k req actor j
  Reached-IsExecution {actor = actor} (reserved, four) h = record {
    unused = (h.granted reserved).permitted.servable.unused;
    reserved = h.used ∙ rw reserved refl;
    granted = h.granted reserved;
    events = h.events;
    trail = h.trail;
    logged = h.logged ∙ ap (map (about req actor)) four;
  }

module _ (req : TaskRequest) (actor : String) (k : Kernel) where
  receipt-Outcome :
      (receipt : ExecutionReceipt) (status : Status)
      → (execute req actor k).0 ≡ ok receipt
      → receipt.status ≡ status
      → Outcome k req
          (ok status)
          (execute-Ends k req actor).reserved
          (execute-Ends k req actor).stages
  receipt-Outcome receipt status e s =
      let ends = execute-Ends k req actor in
      subst (λ r. Outcome k req r ends.reserved ends.stages)
        (ap status_of e ∙ ap {A = Status} (λ x. ok x) s) ends.outcome

  -- A receipt EXECUTED is given only for a task that the policy permitted and that was live when it
  -- was checked again, whose identifier was free and is reserved from then on, and the trail has
  -- gained exactly its events: request, policy, execution, evidence.
  pub executed-IsExecution :
      (receipt : ExecutionReceipt)
      → (execute req actor k).0 ≡ ok receipt
      → receipt.status ≡ executed
      → IsExecution k req actor (execute req actor k).1
  executed-IsExecution receipt e s =
      Reached-IsExecution (executed-Outcome (receipt-Outcome receipt executed e s))
        (execute-Ends k req actor).reached

  -- A task that is denied can be asked for again: its identifier is not reserved by the denial.
  pub denied-unreserved :
      (receipt : ExecutionReceipt)
      → (execute req actor k).0 ≡ ok receipt
      → receipt.status ≡ denied
      → (execute req actor k).1.used ≡ k.used
  denied-unreserved receipt e s =
      (execute-Ends k req actor).reached.used
      ∙ rw (denied-Outcome (receipt-Outcome receipt denied e s)) refl

  -- With a clock whose readings all have a time zone, `execute` returns a receipt for a request whose
  -- arguments do not nest too deep to be encoded, whatever else it says and whatever the sink does.
  pub execute-returns :
      ((n : ℕ) → (k.clock n).is_aware ≡ true)
      → req.arguments.encoding ≢ too_deep
      → (receipt : ExecutionReceipt) × ((execute req actor k).0 ≡ ok receipt)
  execute-returns aware shallow = elim (Result-cases (execute req actor k).0) [
    | inl found ↦ found
    | inr (e, raised) ↦
        let ends = execute-Ends k req actor in
        let outcome =
          subst (λ r. Outcome k req r ends.reserved ends.stages) (ap status_of raised)
            ends.outcome in
        elim (err-Outcome outcome) [
          | inl (n, naive) ↦ ground (arith, aware n, naive)
          | inr deep ↦ absurd (shallow deep)
        ]
  ]
