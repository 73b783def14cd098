-- ===== src/Execution/Dispatcher/Authority.antt =====
-- Which programs `execute_request` and `main` of src/cybercore/execution/server/dispatcher.py start.
use cyber_core.Base.{
  ℕ, ◌+◌, length, String, Bool, true, false, ◌≡◌, refl, ap, ◌∙◌, ◌⊎◌, inl, inr, Option, none, List,
  [], ◌∷◌, ◌++◌, arith, Bool-cases,
}
use cyber_core.Base.Exec.{Result, ok, err, raise_if, pure, ◌>>=◌, ◌>>◌}
use cyber_core.Base.Exec.Preserves.{Preserves, Preserves-bind, Preserves-pure}
use cyber_core.Execution.Json.{Json}
use cyber_core.Execution.Protocol.{ServerRequest, ServerError, validation_error, load_request}
use cyber_core.Execution.Authorization.{Verifier, or_deny_all}
use cyber_core.Execution.Process.{Outcome, is_zero}
use cyber_core.Execution.Server.{OperationSpec, resolve_operation, Host, Server, grant_of}
use cyber_core.Execution.Dispatcher.{
  ran_of, structured_result, passed, utc_now, start, receipt_of, run_operation, is_unauthorized,
  execute_request, main, serve,
}

-- One program more was started: the one of the operation that the request resolves to, which the verifier has
-- consented to if it mutates.
pub record Started (request : ServerRequest) (verifier : Option Verifier) (before after : Server)
    : Type 0 where
  pub spec : OperationSpec
  pub resolved : resolve_operation request ≡ ok spec
  pub granted : spec.mutating ≡ true → (or_deny_all verifier (grant_of request)).authorized ≡ true
  pub added : after.started ≡ before.started ++ (spec.argv, spec.mutating) ∷ []

module _ (host : Host) (programs : List (List String × Bool)) where
  abbrev IsUnchanged : Server → Type 0
  IsUnchanged s = s.started ≡ programs

  Preserves-passed : {A : Type 0} (r : Result ServerError A) → Preserves IsUnchanged (passed r)
  unfolding passed
  Preserves-passed r = record { after = λ s h. h }

  Preserves-utc_now : Preserves IsUnchanged (utc_now host)
  unfolding utc_now
  Preserves-utc_now = record { after = λ s h. h }

  Preserves-finish :
      (request : ServerRequest) (spec : OperationSpec) (started_at : String) (outcome : Outcome)
      → Preserves IsUnchanged (do
        ran ← passed (ran_of outcome)
        completed_at ← utc_now host
        result ←
            passed
              (structured_result (is_zero ran.exit_code) spec.is_inventory (host.decode ran.stdout))
        pure (receipt_of host request spec started_at completed_at ran result))
  Preserves-finish request spec started_at outcome = Preserves-bind _ _ (Preserves-passed _) (λ ran.
      Preserves-bind _ _ Preserves-utc_now
        (λ _. Preserves-bind _ _ (Preserves-passed _) (λ _. Preserves-pure _)))

module _ (host : Host) (request : ServerRequest) (verifier : Option Verifier) (s : Server) where
  run_operation-added :
      (spec : OperationSpec)
      → (run_operation host request spec s).1.started ≡ s.started ++ (spec.argv, spec.mutating) ∷ []
  unfolding run_operation utc_now start ◌>>=◌
  run_operation-added spec =
      (Preserves-finish host _ request spec (host.utc_now s.readings)
          (host.run (length s.started) spec.argv)).after
        (record {
          readings = s.readings + 1;
          started = s.started ++ (spec.argv, spec.mutating) ∷ [];
        })
        refl

  resolved-Started :
      (answer : Result ServerError OperationSpec)
      → resolve_operation request ≡ answer
      → let after =
          ((passed answer >>= λ spec.
          raise_if
            (is_unauthorized host request verifier spec)
            (validation_error "mutating request lacks verified authorization")
          >> run_operation host request spec)
            s).1 in
        (after.started ≡ s.started) ⊎ Started request verifier s after
  unfolding passed ◌>>=◌ is_unauthorized
  resolved-Started (err e) h = inl refl
  resolved-Started (ok spec) h = elim (Bool-cases (is_unauthorized host request verifier spec)) [
    | inl refused ↦ rw refused (inl refl)
    | inr granted ↦ rw granted (
        inr (record {
          spec = spec;
          resolved = h;
          granted = λ mutating. ground (arith, granted, mutating);
          added = run_operation-added spec;
        }))
  ]

  -- A request starts no program, or the one of the operation that it resolves to; a program that mutates
  -- only with the consent of the verifier.
  pub execute_request-Started :
      let after = (execute_request host request verifier s).1 in
      (after.started ≡ s.started) ⊎ Started request verifier s after
  unfolding execute_request
  execute_request-Started = resolved-Started (resolve_operation request) refl

module _ (host : Host) (s : Server) where
  -- No program was started, or one that does not mutate.
  pub IsHarmless : Server → Type 0
  IsHarmless after =
      (after.started ≡ s.started)
      ⊎ ((argv : List String) × (after.started ≡ s.started ++ (argv, false) ∷ []))

  Started-IsHarmless :
      (request : ServerRequest) (after : Server) → Started request none s after → IsHarmless after
  unfolding IsHarmless
  Started-IsHarmless request after started = elim (Bool-cases started.spec.mutating) [
    | inl mutating ↦ absurd (ground (arith, started.granted mutating))
    | inr harmless ↦ inr (
      started.spec.argv,
      started.added ∙ ap (λ m. s.started ++ (started.spec.argv, m) ∷ []) harmless,
    )
  ]

  serve-IsHarmless : (r : Result ServerError ServerRequest) → IsHarmless (serve host r s).1
  unfolding serve IsHarmless ◌>>=◌
  serve-IsHarmless (err e) = inl refl
  serve-IsHarmless (ok request) = elim (execute_request-Started host request none s) [
    | inl same ↦ inl same
    | inr started ↦ Started-IsHarmless request _ started
  ]

  -- Whatever is read, `main` starts no program that mutates: it has no verifier.
  pub main-IsHarmless : (size : ℕ) (parsed : Option Json) → IsHarmless (main host size parsed s).1
  unfolding main
  main-IsHarmless size parsed = serve-IsHarmless (load_request size parsed)
