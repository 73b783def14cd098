-- ===== src/Execution/Agreement.antt =====
-- The client and the server of src/cybercore/execution/ agree: what the one sends, the other takes.
use cyber_core.Base.{
  ℕ, ltb, if◌then◌else◌, String, true, false, not, ◌≡◌, refl, sym, ap, subst, ◌∙◌, some, List, [],
  ◌∷◌, contains, all, lookup, ◌==◌, string_eq, eq_iff, beq→eq, arith, Bool-cases, inl, inr,
}
use cyber_core.Base.Text.{is_blank}
use cyber_core.Base.Exec.{Result, ok, err}
use cyber_core.Execution.Json.{text, object, get, has_keys}
use cyber_core.Execution.Protocol.{
  GovernedAction, ServerRequest, ServerError, validation_error, load_request, ◌>>=◌, from_mapping,
  request_payload, required_text, reject_if,
}
use cyber_core.Execution.Policy.{
  evaluate_action, vikunja_target, supported_operations, mutating_operations,
}
use cyber_core.Execution.Server.{OperationSpec, or_unsupported, resolve_operation, operation_specs}

-- The request that an action asks for
abbrev pub request_of : GovernedAction → ServerRequest
request_of action = record {
  operation_id = action.operation_id;
  operation = action.operation;
  target_id = action.target_id;
  plan_id = action.plan_id;
  plan_revision = action.plan_revision;
  authorization_reference = action.authorization_reference;
}

-- What the client's policy accepts
pub record IsAccepted (action : GovernedAction) : Type 0 where
  pub target : action.target_id ≡ "tasks.cyberdjs.org"
  pub supported : contains supported_operations action.operation ≡ true
  pub named : is_blank action.operation_id ≡ false
  pub planned : is_blank action.plan_id ≡ false
  pub revised : is_blank action.plan_revision ≡ false
  pub referenced : is_blank action.authorization_reference ≡ false
  pub bare : action.arguments ≡ []
  pub mutating :
      (evaluate_action action vikunja_target).mutating
      ≡ contains mutating_operations action.operation

evaluate_action-IsAccepted :
    (action : GovernedAction)
    → (evaluate_action action vikunja_target).allowed ≡ true
    → IsAccepted action
unfolding evaluate_action
evaluate_action-IsAccepted action h = record {
  target = ground (arith, h, eq_iff action.target_id "tasks.cyberdjs.org");
  supported = ground (arith, h);
  named = ground (arith, h);
  planned = ground (arith, h);
  revised = ground (arith, h);
  referenced = ground (arith, h);
  bare = ground (arith, h);
  mutating = ground (arith, h);
}

canonical :
    (s : String)
    → s ≡ "tasks.cyberdjs.org"
    → reject_if
        (not (s == "tasks.cyberdjs.org"))
        "request target is not the canonical server target"
      ≡ ok tt
unfolding reject_if
canonical s h = rw h refl

bind-ok :
    {A B : Type 0} (r : Result ServerError A) (f : A → Result ServerError B) (a : A)
    (end : Result ServerError B)
    → r ≡ ok a
    → f a ≡ end
    → (r >>= f) ≡ end
unfolding ◌>>=◌
bind-ok r f a end h k = rw h k

required_text-filled :
    (reason s : String) → is_blank s ≡ false → required_text reason (some (text s)) ≡ ok s
unfolding required_text
required_text-filled reason s h = rw h refl

contains-filled :
    (xs : List String) (s : String)
    → all (λ x. not (is_blank x)) xs ≡ true
    → contains xs s ≡ true
    → is_blank s ≡ false
unfolding contains all
contains-filled [] s filled h = absurd (ground (arith, h))
contains-filled (x ∷ xs) s filled h = elim (Bool-cases (x == s)) [
  | inl same ↦ ap is_blank (sym (beq→eq x s same)) ∙ ground (arith, filled)
  | inr other ↦ contains-filled xs s (ground (arith, filled)) (ground (arith, h, other))
]

supported-filled : (s : String) → contains supported_operations s ≡ true → is_blank s ≡ false
unfolding all is_blank
supported-filled s = contains-filled supported_operations s refl

target-filled : (s : String) → s ≡ "tasks.cyberdjs.org" → is_blank s ≡ false
unfolding is_blank
target-filled s h = ap is_blank h

from_mapping-request_payload :
    (action : GovernedAction)
    → (evaluate_action action vikunja_target).allowed ≡ true
    → from_mapping (request_payload action) ≡ ok (request_of action)
unfolding from_mapping request_payload get has_keys contains all reject_if
from_mapping-request_payload action h =
    let a = evaluate_action-IsAccepted action h in
    bind-ok _ _ tt _ refl (
      bind-ok _ _ tt _ refl (
        bind-ok _ _ action.operation_id _ (required_text-filled _ _ a.named) (
          bind-ok _ _ action.operation _
            (required_text-filled _ _ (supported-filled action.operation a.supported))
            (bind-ok _ _ action.target_id _
              (required_text-filled _ _ (target-filled action.target_id a.target))
              (bind-ok _ _ action.plan_id _ (required_text-filled _ _ a.planned) (
                bind-ok _ _ action.plan_revision _ (required_text-filled _ _ a.revised) (
                  bind-ok _ _ action.authorization_reference _
                    (required_text-filled _ _ a.referenced)
                    (bind-ok _ _ tt _ (rw a.bare refl)
                      (bind-ok _ _ tt _ (canonical action.target_id a.target) refl)))))))))

-- A property of each text of a list
Each : (String → Type 0) → List String → Type 0
Each P [] = Unit
Each P (x ∷ xs) = P x × Each P xs

contains-Each :
    (P : String → Type 0) (xs : List String) (s : String) → Each P xs → contains xs s ≡ true → P s
unfolding contains Each
contains-Each P [] s each h = absurd (ground (arith, h))
contains-Each P (x ∷ xs) s (here, later) h = elim (Bool-cases (x == s)) [
  | inl same ↦ subst P (beq→eq x s same) here
  | inr other ↦ contains-Each P xs s later (ground (arith, h, other))
]

-- The operation of a name, as the server and as the client's policy see it
abbrev IsResolved : String → Type 0
IsResolved o =
    (spec : OperationSpec) × (or_unsupported (lookup o operation_specs) ≡ ok spec)
    × (spec.name ≡ o)
    × (spec.mutating ≡ contains mutating_operations o)

supported-IsResolved : Each IsResolved supported_operations
unfolding Each or_unsupported lookup contains
supported-IsResolved = (
  (_, refl, refl, refl),
  (
    (_, refl, refl, refl),
    ((_, refl, refl, refl), ((_, refl, refl, refl), ((_, refl, refl, refl), tt))),
  ),
)

resolve_operation-request_of :
    (action : GovernedAction)
    → (evaluate_action action vikunja_target).allowed ≡ true
    → (spec : OperationSpec) × (resolve_operation (request_of action) ≡ ok spec)
      × (spec.name ≡ action.operation)
      × (spec.mutating ≡ (evaluate_action action vikunja_target).mutating)
unfolding resolve_operation
resolve_operation-request_of action h =
    let a = evaluate_action-IsAccepted action h in
    let (spec, found, named, mutates) =
      contains-Each IsResolved supported_operations action.operation supported-IsResolved
        a.supported in
    (spec, found, named, mutates ∙ sym a.mutating)

load_request-request_payload :
    (action : GovernedAction) (size : ℕ)
    → (evaluate_action action vikunja_target).allowed ≡ true
    → load_request size (some (object (request_payload action))) ≡ (
        if ltb 16384 size
        then err (validation_error "request exceeds the maximum encoded size")
        else ok (request_of action))
unfolding load_request
load_request-request_payload action size h = rw (from_mapping-request_payload action h) refl

-- What the client sends for an action that its policy accepts, the server reads as the action's request if
-- its encoding has at most 16384 bytes, and refuses for its size otherwise. The request resolves to the
-- operation of that name, which the server takes to mutate exactly if the client's policy does.
pub request_payload-understood :
    (action : GovernedAction) (size : ℕ)
    → (evaluate_action action vikunja_target).allowed ≡ true
    → (load_request size (some (object (request_payload action))) ≡ (
        if ltb 16384 size
        then err (validation_error "request exceeds the maximum encoded size")
        else ok (request_of action)))
      × ((spec : OperationSpec) × (resolve_operation (request_of action) ≡ ok spec)
          × (spec.name ≡ action.operation)
          × (spec.mutating ≡ (evaluate_action action vikunja_target).mutating))
request_payload-understood action size h =
    (load_request-request_payload action size h, resolve_operation-request_of action h)
