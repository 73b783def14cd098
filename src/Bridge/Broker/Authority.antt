-- ===== src/Bridge/Broker/Authority.antt =====
-- What stands behind a request that the broker of src/cybercore/action_kernel_trusted_broker.py sends.
use cyber_core.Base.{
  String, true, ◌||◌, not, ◌≡◌, refl, ◌⊎◌, inl, inr, ◌==◌, string_eq, arith, Bool-cases,
}
use cyber_core.Base.Exec.{Result, ok, err}
use cyber_core.Kernel.{Kernel, is_empty}
use cyber_core.Kernel.Types.{
  TaskRequest, ExecutionReceipt, executed, denied, failed, Status, PolicyDecision, Error,
}
use cyber_core.Kernel.Execute.{execute as execute_task}
use cyber_core.Kernel.Execute.Guarantees.{IsExecution, executed-IsExecution}
use cyber_core.Bridge.Guards.{ReplayGuard}
use cyber_core.Bridge.Guards.Once.{IsDurable}
use cyber_core.Bridge.Process.{Setting, Process, is_allowed}
use cyber_core.Bridge.DryRun.Stages.{Unsent, Sent}
use cyber_core.Bridge.DryRun.Authority.{run-IsAuthorized}
use cyber_core.Bridge.Broker.{execute, forward}

is_allowed-executed :
    (status : Status) (decision : PolicyDecision)
    → is_allowed status decision ≡ true
    → status ≡ executed
unfolding is_allowed
is_allowed-executed executed decision h = refl
is_allowed-executed denied decision h = absurd (ground (arith, h))
is_allowed-executed failed decision h = absurd (ground (arith, h))

module _ {S : Type 0} {store : ReplayGuard S} (durable : IsDurable store) (setting : Setting)
    (task : TaskRequest) (actor : String) (k : Kernel) (p : Process S) where
  start : Unsent durable setting task actor p p
  start = record { same = refl; kept = λ _ c. c; later = omega arith }

  -- Nothing was sent, or the kernel has executed the task.
  pub IsBacked : Kernel × Process S → Type 0
  IsBacked (j, q) =
      Unsent durable setting task actor p q
      ⊎ (IsExecution k task actor j × Sent durable setting task actor p q)

  forward-IsBacked :
      (answer : Result Error ExecutionReceipt)
      → (execute_task task actor k).0 ≡ answer
      → IsBacked (forward setting store task actor answer ((execute_task task actor k).1, p)).1
  unfolding IsBacked forward
  forward-IsBacked (err e) answered = inl start
  forward-IsBacked (ok receipt) answered =
      elim (Bool-cases (is_allowed receipt.status receipt.policy.decision)) [
        | inr refused ↦ rw refused (inl start)
        | inl allowed ↦ rw allowed (elim (run-IsAuthorized durable setting task actor p receipt) [
          | inl unsent ↦ inl unsent
          | inr (_, sent) ↦ inr (
            executed-IsExecution task actor k receipt answered
                (is_allowed-executed receipt.status receipt.policy.decision allowed),
            sent,
          )
        ])
      ]

  -- A call of the broker either sends nothing, or sends the task's request, once: then the kernel has
  -- executed the task in this call, under an identifier that was free, and put its four events on the trail,
  -- and the bridge has claimed its key.
  pub execute-IsBacked : IsBacked (execute setting store task actor (k, p)).1
  unfolding execute IsBacked
  execute-IsBacked = elim (Bool-cases (is_empty actor || not (task.actor == actor))) [
    | inl stranger ↦ rw stranger (inl start)
    | inr trusted ↦ rw trusted (forward-IsBacked (execute_task task actor k).0 refl)
  ]
