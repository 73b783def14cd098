-- ===== src/Execution/Client/Authority.antt =====
-- What `execute_action` of src/cybercore/execution/ssh_runner.py sends.
use cyber_core.Base.{
  ◌+◌, length, String, Bool, true, not, ◌≡◌, refl, ◌⊎◌, inl, inr, Option, List, [], ◌∷◌, ◌++◌,
  arith, Bool-cases,
}
use cyber_core.Base.Exec.{Result, pure, ◌>>=◌}
use cyber_core.Base.Exec.Preserves.{Preserves, Preserves-bind, Preserves-pure}
use cyber_core.Execution.Json.{Fields}
use cyber_core.Execution.Protocol.{ExecutionTarget, GovernedAction, request_payload}
use cyber_core.Execution.Authorization.{Verifier, or_deny_all}
use cyber_core.Execution.Process.{Outcome}
use cyber_core.Execution.Policy.{evaluate_action}
use cyber_core.Execution.Client.{
  ClientError, Host, Client, ran_of, passed, utc_now, send, build_transport_argv, build_receipt,
  deliver, grant_of, is_unauthorized, execute_action,
}

-- One message more was sent: the action's own, to its target, which the policy allows, and which the verifier has
-- consented to if it mutates.
pub record Sent (action : GovernedAction) (target : ExecutionTarget) (verifier : Option Verifier)
    (before after : Client) : Type 0 where
  pub allowed : (evaluate_action action target).allowed ≡ true
  pub granted :
      (evaluate_action action target).mutating ≡ true
      → (or_deny_all verifier (grant_of action)).authorized ≡ true
  pub added : after.sent ≡ before.sent ++ (build_transport_argv target, request_payload action) ∷ []

module _ (host : Host) (messages : List (List String × Fields)) where
  abbrev IsUnchanged : Client → Type 0
  IsUnchanged c = c.sent ≡ messages

  Preserves-passed : {A : Type 0} (r : Result ClientError A) → Preserves IsUnchanged (passed host r)
  unfolding passed
  Preserves-passed r = record { after = λ c h. h }

  Preserves-utc_now : Preserves IsUnchanged (utc_now host)
  unfolding utc_now
  Preserves-utc_now = record { after = λ c h. h }

  Preserves-finish :
      (action : GovernedAction) (argv : List String) (started_at : String) (mutating : Bool)
      (outcome : Outcome)
      → Preserves IsUnchanged (do
        ran ← passed host (ran_of host action outcome)
        completed_at ← utc_now host
        pure (build_receipt host action argv started_at completed_at ran mutating))
  Preserves-finish action argv started_at mutating outcome =
      Preserves-bind _ _ (Preserves-passed _)
        (λ ran. Preserves-bind _ _ Preserves-utc_now (λ _. Preserves-pure _))

module _ (host : Host) (action : GovernedAction) (target : ExecutionTarget)
    (verifier : Option Verifier) (c : Client) where
  deliver-added :
      (mutating : Bool)
      → (deliver host action target mutating c).1.sent
        ≡ c.sent ++ (build_transport_argv target, request_payload action) ∷ []
  unfolding deliver utc_now send ◌>>=◌
  deliver-added mutating =
      (Preserves-finish host _ action (build_transport_argv target) (host.utc_now c.readings)
          mutating
          (host.run (length c.sent) (build_transport_argv target) (request_payload action))).after
        (record {
          readings = c.readings + 1;
          sent = c.sent ++ (build_transport_argv target, request_payload action) ∷ [];
        })
        refl

  -- An action sends nothing, or its own message: then the policy allows it for the target, and if it mutates,
  -- the verifier has consented to it.
  pub execute_action-Sent :
      let after = (execute_action host action target verifier c).1 in
      (after.sent ≡ c.sent) ⊎ Sent action target verifier c after
  unfolding execute_action ◌>>=◌ is_unauthorized
  execute_action-Sent =
      let decision = evaluate_action action target in
      elim (Bool-cases (not decision.allowed)) [
        | inl refused ↦ rw refused (inl refl)
        | inr allowed ↦
            rw allowed (elim (Bool-cases (is_unauthorized host action verifier decision)) [
              | inl ungranted ↦ rw ungranted (inl refl)
              | inr granted ↦ rw granted (
                  inr (record {
                    allowed = ground (arith, allowed);
                    granted = λ mutating. ground (arith, granted, mutating);
                    added = deliver-added decision.mutating;
                  }))
            ])
      ]
