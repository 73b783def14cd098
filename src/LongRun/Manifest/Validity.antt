-- ===== src/LongRun/Manifest/Validity.antt =====
-- What a manifest that passes `validate` of src/cybercore/longrun/manifest.py is held to.
use cyber_core.Base.{
  String, true, false, ◌≡◌, refl, subst, none, List, [], ◌∷◌, map, contains, any, string_eq, eq_iff,
  ◌==◌, arith, beq_refl, Bool-cases, inl, inr,
}
use cyber_core.Base.Text.{is_blank}
use cyber_core.Base.Int.{pos, leb_ℤ}
use cyber_core.Base.Float.{le_float, of_int, zero_float}
use cyber_core.LongRun.Manifest.{
  ModelBinding, Manifest, binding_failure, bindings_failure, manifest_failure,
}

-- The bindings are valid, and no two share a role or an identifier.
abbrev pub IsBound : List ModelBinding → Type 0
IsBound [] = Unit
IsBound (b ∷ rest) =
    (is_blank b.binding_id ≡ false)
    × (contains ("planner" ∷ "worker" ∷ "evaluator" ∷ []) b.role ≡ true)
    × (contains (map (λ x. x.role) rest) b.role ≡ false)
    × (contains (map (λ x. x.binding_id) rest) b.binding_id ≡ false)
    × IsBound rest

pub record IsValid (m : Manifest) : Type 0 where
  pub named : is_blank m.run_id ≡ false
  pub minimum : leb_ℤ (pos 0) m.minimum_wall_seconds ≡ true
  pub maximum : leb_ℤ m.maximum_wall_seconds (pos 0) ≡ false
  pub budget : leb_ℤ m.minimum_wall_seconds m.maximum_wall_seconds ≡ true
  pub threshold :
      (le_float zero_float m.evaluator_threshold ≡ true)
      × (le_float m.evaluator_threshold (of_int (pos 1)) ≡ true)
  pub failures : leb_ℤ (pos 1) m.max_consecutive_failures ≡ true
  pub duplicates : leb_ℤ (pos 1) m.max_duplicate_steps ≡ true
  pub disjoint :
      (effect : String)
      → contains m.allowed_effects effect ≡ true
      → contains m.prohibited_effects effect ≡ false
  pub bound : IsBound m.model_bindings

any-contains :
    (prohibited allowed : List String)
    → any (contains prohibited) allowed ≡ false
    → (effect : String) → contains allowed effect ≡ true
    → contains prohibited effect ≡ false
unfolding any contains
any-contains prohibited [] h effect e = ground (arith, e)
any-contains prohibited (a ∷ allowed) h effect e = elim (Bool-cases (a == effect)) [
  | inl same ↦
      subst (λ x. contains prohibited x ≡ false) ((eq_iff a effect).0 same) (ground (arith, h))
  | inr other ↦
      any-contains prohibited allowed (ground (arith, h)) effect (ground (arith, e, other))
]

-- The head of the loop.
record Head (roles ids : List String) (b : ModelBinding) (rest : List ModelBinding) : Type 0 where
  valid : binding_failure b ≡ none
  role : contains roles b.role ≡ false
  id : contains ids b.binding_id ≡ false
  later : bindings_failure (b.role ∷ roles) (b.binding_id ∷ ids) rest ≡ none

bindings-Head :
    (roles ids : List String) (b : ModelBinding) (rest : List ModelBinding)
    → bindings_failure roles ids (b ∷ rest) ≡ none
    → Head roles ids b rest
unfolding bindings_failure
bindings-Head roles ids b rest h = record {
  valid = ground (arith, h);
  role = ground (arith, h);
  id = ground (arith, h);
  later = ground (arith, h);
}

-- What the loop has seen does not come again.
seen_role :
    (roles ids : List String) (bs : List ModelBinding) (r : String)
    → bindings_failure roles ids bs ≡ none
    → contains roles r ≡ true
    → contains (map (λ x. x.role) bs) r ≡ false
unfolding contains
seen_role roles ids [] r h seen = refl
seen_role roles ids (b ∷ rest) r h seen =
    let head = bindings-Head roles ids b rest h in
    let later = seen_role (b.role ∷ roles) (b.binding_id ∷ ids) rest r head.later in
    elim (Bool-cases (b.role == r)) [
      | inl same ↦
          let again = subst (λ x. contains roles x ≡ false) ((eq_iff b.role r).0 same) head.role in
          absurd (ground (arith, again, seen))
      | inr other ↦ ground (arith, other, later (ground (arith, seen)))
    ]

seen_id :
    (roles ids : List String) (bs : List ModelBinding) (i : String)
    → bindings_failure roles ids bs ≡ none
    → contains ids i ≡ true
    → contains (map (λ x. x.binding_id) bs) i ≡ false
unfolding contains
seen_id roles ids [] i h seen = refl
seen_id roles ids (b ∷ rest) i h seen =
    let head = bindings-Head roles ids b rest h in
    let later = seen_id (b.role ∷ roles) (b.binding_id ∷ ids) rest i head.later in
    elim (Bool-cases (b.binding_id == i)) [
      | inl same ↦
          let again =
            subst (λ x. contains ids x ≡ false) ((eq_iff b.binding_id i).0 same) head.id in
          absurd (ground (arith, again, seen))
      | inr other ↦ ground (arith, other, later (ground (arith, seen)))
    ]

binding_valid :
    (b : ModelBinding)
    → binding_failure b ≡ none
    → (is_blank b.binding_id ≡ false)
      × (contains ("planner" ∷ "worker" ∷ "evaluator" ∷ []) b.role ≡ true)
unfolding binding_failure contains
binding_valid b h = (
  ground (arith, h),
  ground (
    arith,
    h,
    eq_iff b.role "planner",
    eq_iff "planner" b.role,
    eq_iff b.role "worker",
    eq_iff "worker" b.role,
    eq_iff b.role "evaluator",
    eq_iff "evaluator" b.role,
  ),
)

bindings-IsBound :
    (roles ids : List String) (bs : List ModelBinding)
    → bindings_failure roles ids bs ≡ none
    → IsBound bs
bindings-IsBound roles ids [] h = tt
bindings-IsBound roles ids (b ∷ rest) h =
    let head = bindings-Head roles ids b rest h in
    let (named, known) = binding_valid b head.valid in
    (
      named,
      known,
      seen_role _ _ rest b.role head.later (unfold contains in rw (beq_refl b.role) refl),
      seen_id _ _ rest b.binding_id head.later (unfold contains in rw (beq_refl b.binding_id) refl),
      bindings-IsBound (b.role ∷ roles) (b.binding_id ∷ ids) rest head.later,
    )

-- A manifest that validates is named, its budgets are ordered, with a positive maximum, its threshold is
-- within 0 and 1 and its limits are at least 1, no effect is both allowed and prohibited, and its
-- bindings are named, of known roles, and share neither a role nor an identifier.
pub manifest_failure-IsValid : (m : Manifest) → manifest_failure m ≡ none → IsValid m
unfolding manifest_failure
manifest_failure-IsValid m h = record {
  named = ground (arith, h);
  minimum = ground (arith, h);
  maximum = ground (arith, h);
  budget = ground (arith, h);
  threshold = (ground (arith, h), ground (arith, h));
  failures = ground (arith, h);
  duplicates = ground (arith, h);
  disjoint = any-contains m.prohibited_effects m.allowed_effects (ground (arith, h));
  bound = bindings-IsBound [] [] m.model_bindings (ground (arith, h));
}
