-- ===== src/Kernel/Execute/Replay.antt =====
-- Many calls of `execute` of src/cybercore/action_kernel.py, one after the other.
use cyber_core.Base.{
  ℕ, ◌+◌, ◌≤◌, String, Bool, true, false, ◌&&◌, ◌≡◌, refl, List, [], ◌∷◌, contains, ◌==◌, string_eq,
  subst, eq_iff, beq_refl, if◌then◌else◌, Bool-cases, inl, inr, arith,
}
use cyber_core.Base.Exec.{Result, ok, err}
use cyber_core.Kernel.{Kernel}
use cyber_core.Kernel.Types.{TaskRequest, executed, denied, failed, Error, AuditStage, Status}
use cyber_core.Kernel.Execute.{execute}
use cyber_core.Kernel.Execute.Outcomes.{Outcome, completed, status_of, Ends}
use cyber_core.Kernel.Execute.Outcomes.Authority.{execute-Ends}

abbrev pub is_executed : Result Error Status → Bool
is_executed (ok executed) = true
is_executed (ok denied) = false
is_executed (ok failed) = false
is_executed (err _) = false

-- How many of the calls execute the task of this identifier.
unfoldable pub executions : String → List (TaskRequest × String) → Kernel → ℕ
executions id [] k = 0
executions id ((req, actor) ∷ calls) k =
    let (r, j) = execute req actor k in
    let rest = executions id calls j in
    if req.task_id == id && is_executed (status_of r) then rest + 1 else rest

executed-reserves :
    {k : Kernel} {req : TaskRequest} {r : Result Error Status} {b : Bool} {stages : List AuditStage}
    → Outcome k req r b stages
    → is_executed r ≡ true
    → b ≡ true
executed-reserves completed e = refl
executed-reserves _ e = ground arith

-- The identifiers that are reserved from then on.
reserves : Bool → String → List String → List String
reserves reserved task_id used = if reserved then task_id ∷ used else used

reserves-keeps :
    (reserved : Bool) (task_id id : String) (used : List String)
    → contains used id ≡ true
    → contains (reserves reserved task_id used) id ≡ true
unfolding contains reserves
reserves-keeps reserved task_id id used h = ground arith

reserves-adds :
    (task_id : String) (used : List String) → contains (reserves true task_id used) task_id ≡ true
unfolding contains reserves
reserves-adds task_id used = rw (beq_refl task_id) refl

module _ (req : TaskRequest) (actor : String) (k : Kernel) where
  ends : Ends k req actor (execute req actor k)
  ends = execute-Ends k req actor

  used_after : (execute req actor k).1.used ≡ reserves ends.reserved req.task_id k.used
  unfolding reserves
  used_after = ends.reached.used

  -- A reserved identifier stays reserved.
  pub execute-keeps :
      (id : String) → contains k.used id ≡ true → contains (execute req actor k).1.used id ≡ true
  execute-keeps id h = rw used_after (reserves-keeps ends.reserved req.task_id id k.used h)

  pub executed-unused :
      is_executed (status_of (execute req actor k).0) ≡ true
      → (contains k.used req.task_id ≡ false)
        × (contains (execute req actor k).1.used req.task_id ≡ true)
  executed-unused e =
      let reserved = executed-reserves ends.outcome e in
      (
        (ends.reached.granted reserved).permitted.servable.unused,
        rw used_after (rw reserved (reserves-adds req.task_id k.used)),
      )

  counted :
      (id : String)
      → (req.task_id == id && is_executed (status_of (execute req actor k).0)) ≡ true
      → (contains k.used id ≡ false) × (contains (execute req actor k).1.used id ≡ true)
  counted id e =
      subst (λ t. (contains k.used t ≡ false) × (contains (execute req actor k).1.used t ≡ true))
        ((eq_iff req.task_id id).0 (ground arith)) (executed-unused (ground arith))

-- A reserved identifier counts as one execution more.
executions-bound :
    (id : String) (calls : List (TaskRequest × String)) (k : Kernel)
    → executions id calls k + (if contains k.used id then 1 else 0) ≤ 1
unfolding executions
executions-bound id [] k = ground arith
executions-bound id ((req, actor) ∷ calls) k =
    let bound = executions-bound id calls (execute req actor k).1 in
    let test = req.task_id == id && is_executed (status_of (execute req actor k).0) in
    elim (Bool-cases test) [
      | inl counts ↦ ground (arith, bound, counted req actor k id counts)
      | inr passes ↦ elim (Bool-cases (contains k.used id)) [
        | inl reserved ↦ ground (arith, bound, passes, execute-keeps req actor k id reserved)
        | inr free ↦ ground (arith, bound, passes, free)
      ]
    ]

-- However many calls there are of `execute`, by whichever actors and with whichever requests, at most
-- one of them executes the task of an identifier.
pub at_most_once :
    (id : String) (calls : List (TaskRequest × String)) (k : Kernel) → executions id calls k ≤ 1
at_most_once id calls k = omega (arith, executions-bound id calls k)

-- Once an identifier is reserved, no later call executes its task.
pub reserved-never_executed :
    (id : String) (calls : List (TaskRequest × String)) (k : Kernel)
    → contains k.used id ≡ true
    → executions id calls k ≡ 0
reserved-never_executed id calls k reserved = ground (arith, executions-bound id calls k)
