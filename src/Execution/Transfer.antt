-- ===== src/Execution/Transfer.antt =====
-- An inventory on its way from the server of src/cybercore/execution/server/dispatcher.py to the client of
-- src/cybercore/execution/ssh_runner.py.
use cyber_core.Base.{
  String, Bool, true, false, ◌≡◌, refl, sym, ap, subst, ◌∙◌, Option, none, some, contains, all,
  lookup, string_eq, beq_refl, arith, if◌then◌else◌, Option-cases, inl, inr,
}
use cyber_core.Base.Int.{ℤ, leb_ℤ}
use cyber_core.Base.Time.{DateTime}
use cyber_core.Base.Exec.{ok}
use cyber_core.Execution.Json.{Json, text, object, Fields, get, has_keys}
use cyber_core.Execution.Inventory.{Inventory}
use cyber_core.Execution.Report.{validate_inventory_payload, inventory_json}
use cyber_core.Execution.Stable.{bind-from}
use cyber_core.Execution.Stable.Rows.{validate_inventory_payload-again}
use cyber_core.Execution.Protocol.{GovernedAction}
use cyber_core.Execution.Process.{is_zero}
use cyber_core.Execution.Authorization.{Verifier}
use cyber_core.Execution.Server.{
  OperationSpec, or_unsupported, operation_specs, resolve_operation, ServerReceipt, as_dict, Host,
  Server,
}
use cyber_core.Execution.Dispatcher.{receipt_of, structured_result, execute_request}
use cyber_core.Execution.Dispatcher.Served.{IsServed, execute_request-IsServed}
use cyber_core.Execution.Response.{is_sha256, timestamp, bound_result, ensure, inventory_result}
use cyber_core.Execution.Agreement.{request_of}

-- The inventory that the server has validated, if the operation is to report one and has succeeded
structured_result-inventory :
    (decoded : Option Json) (result : Option Inventory)
    → structured_result true true decoded ≡ ok result
    → (i : Inventory) × (result ≡ some i) × (validate_inventory_payload (inventory_json i) ≡ some i)
unfolding structured_result
structured_result-inventory none result h = absurd (ground (arith, h))
structured_result-inventory (some value) result h =
    elim (Option-cases (validate_inventory_payload value)) [
      | inl failed ↦ absurd (ground (arith, h, failed))
      | inr (i, made) ↦ (i, ground (arith, h, made), validate_inventory_payload-again value i made)
    ]

-- The operation that reports the inventory does not mutate.
inventory-spec :
    (operation : String) (spec : OperationSpec)
    → operation ≡ "system.inventory"
    → or_unsupported (lookup operation operation_specs) ≡ ok spec
    → (spec.is_inventory ≡ true) × (spec.mutating ≡ false)
unfolding lookup or_unsupported
inventory-spec operation spec named found =
    let at_name = subst (λ o. or_unsupported (lookup o operation_specs) ≡ ok spec) named found in
    (ground (arith, at_name), ground (arith, at_name))

succeeded :
    (zero reports : Bool) (decoded : Option Json) (result : Option Inventory)
    → zero ≡ true
    → reports ≡ true
    → structured_result zero reports decoded ≡ ok result
    → structured_result true true decoded ≡ ok result
succeeded zero reports decoded result z r h =
    sym (ap (λ b. structured_result b true decoded) z)
    ∙ sym (ap (λ b. structured_result zero b decoded) r)
    ∙ h

-- The receipt of a successful inventory
abbrev receipt_for :
    (String → String)
    → GovernedAction
    → String
    → String
    → ℤ
    → String
    → String
    → Inventory
    → ServerReceipt
receipt_for digest action started_at completed_at exit_code stdout stderr i = record {
  operation_id = action.operation_id;
  operation = action.operation;
  target_id = action.target_id;
  plan_id = action.plan_id;
  plan_revision = action.plan_revision;
  authorization_reference_sha256 = digest action.authorization_reference;
  started_at = started_at;
  completed_at = completed_at;
  exit_code = exit_code;
  stdout_sha256 = digest stdout;
  stderr_sha256 = digest stderr;
  status = "EXECUTED";
  mutation_possible = false;
  result = some i;
  secret_values_recorded = false;
}

module _ (digest : String → String) (decode : String → Option Json)
    (parse_time : String → Option DateTime) (hashes : (s : String) → is_sha256 (digest s) ≡ true)
    (action : GovernedAction) where
  accepts :
      (started_at completed_at stdout stderr : String) (exit_code : ℤ) (i : Inventory)
      (t u : DateTime)
      → timestamp digest decode parse_time (some (text started_at)) ≡ some t
      → timestamp digest decode parse_time (some (text completed_at)) ≡ some u
      → leb_ℤ t.instant u.instant ≡ true
      → is_zero exit_code ≡ true
      → validate_inventory_payload (inventory_json i) ≡ some i
      → bound_result digest decode parse_time action
          (as_dict (receipt_for digest action started_at completed_at exit_code stdout stderr i))
        ≡ some i
  unfolding bound_result as_dict get has_keys contains all ensure
  accepts started_at completed_at stdout stderr exit_code i t u started completed ordered zero
        valid =
      bind-from _ _ true _ refl (
        bind-from _ _ true _ (rw zero refl) (
          bind-from _ _ t _ started (
            bind-from _ _ u _ completed (
              bind-from _ _ true _ (rw ordered refl) (
                bind-from _ _ true _ (rw (hashes stdout) (rw (hashes stderr) refl)) (
                  bind-from _ _ true _
                    (ground (
                      arith,
                      beq_refl action.operation_id,
                      beq_refl action.operation,
                      beq_refl action.target_id,
                      beq_refl action.plan_id,
                      beq_refl action.plan_revision,
                      beq_refl (digest action.authorization_reference),
                    ))
                    (bind-from _ _ (inventory_json i) _ refl valid)))))))

  object-bound :
      (payload : Fields) (stdout : String) (i : Inventory)
      → decode stdout ≡ some (object payload)
      → bound_result digest decode parse_time action payload ≡ some i
      → inventory_result digest decode parse_time action stdout ≡ some i
  unfolding inventory_result
  object-bound payload stdout i h k = rw h k

module _ (host : Host) (decode : String → Option Json) (parse_time : String → Option DateTime)
    (hashes : (s : String) → is_sha256 (host.digest s) ≡ true) (action : GovernedAction)
    (named : action.operation ≡ "system.inventory") where
  -- What the server has put into a receipt of a successful inventory
  IsServed-receipt :
      (receipt : ServerReceipt) (served : IsServed host (request_of action) receipt)
      → is_zero receipt.exit_code ≡ true
      → (i : Inventory) × (receipt
          ≡ receipt_for host.digest action served.started_at served.completed_at
              served.ran.exit_code served.ran.stdout served.ran.stderr i)
        × (validate_inventory_payload (inventory_json i) ≡ some i)
  unfolding receipt_of resolve_operation
  IsServed-receipt receipt served zero =
      let (reports, harmless) = inventory-spec action.operation served.spec named served.resolved in
      let exit : is_zero served.ran.exit_code ≡ true =
        ap (λ r. is_zero r.exit_code) (sym served.made) ∙ zero in
      let reported =
        succeeded (is_zero served.ran.exit_code) served.spec.is_inventory
          (host.decode served.ran.stdout) served.result exit reports served.structured in
      let (i, found, valid) =
        structured_result-inventory (host.decode served.ran.stdout) served.result reported in
      let filled : receipt_of host (request_of action) served.spec served.started_at
            served.completed_at served.ran served.result
          ≡ receipt_for host.digest action served.started_at served.completed_at
              served.ran.exit_code served.ran.stdout served.ran.stderr i =
        λ j.
          record (receipt_for host.digest action served.started_at served.completed_at
            served.ran.exit_code served.ran.stdout served.ran.stderr i) {
              status = ap (λ b. if b then "EXECUTED" else "FAILED") exit j;
              mutation_possible = harmless j;
              result = found j;
            } in
      (i, served.made ∙ filled, valid)

  -- The client takes the inventory that the server reports: if the server runs the inventory for the
  -- client's action, and its program succeeds, the receipt carries an inventory, and the client reads that
  -- inventory off the receipt.
  pub inventory-transfers :
      (verifier : Option Verifier) (s : Server) (receipt : ServerReceipt) (stdout : String)
      (t u : DateTime)
      → (execute_request host (request_of action) verifier s).0 ≡ ok receipt
      → is_zero receipt.exit_code ≡ true
      → decode stdout ≡ some (object (as_dict receipt))
      → timestamp host.digest decode parse_time (some (text receipt.started_at)) ≡ some t
      → timestamp host.digest decode parse_time (some (text receipt.completed_at)) ≡ some u
      → leb_ℤ t.instant u.instant ≡ true
      → (i : Inventory) × (receipt.result ≡ some i)
        × (inventory_result host.digest decode parse_time action stdout ≡ some i)
  inventory-transfers verifier s receipt stdout t u answered zero read started completed ordered =
      let served =
        (execute_request-IsServed host (request_of action) verifier).returned s receipt answered in
      let (i, made, valid) = IsServed-receipt receipt served zero in
      let ran = served.ran in
      let taken =
        accepts host.digest decode parse_time hashes action served.started_at served.completed_at
          ran.stdout ran.stderr ran.exit_code i t u
          (ap (λ r. timestamp host.digest decode parse_time (some (text r.started_at))) (sym made)
            ∙ started)
          (ap (λ r. timestamp host.digest decode parse_time (some (text r.completed_at))) (sym made)
            ∙ completed)
          ordered (ap (λ r. is_zero r.exit_code) (sym made) ∙ zero) valid in
      (
        i,
        ap (λ r. r.result) made,
        object-bound host.digest decode parse_time hashes action _ stdout i read
            (ap (λ r. bound_result host.digest decode parse_time action (as_dict r)) made ∙ taken),
      )
