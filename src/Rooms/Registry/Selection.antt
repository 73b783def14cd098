-- ===== src/Rooms/Registry/Selection.antt =====
-- Which agents `select` of src/cybercore/communication/agent_registry.py takes.
use cyber_core.Base.{
  IsListed, here, there, String, Bool, true, false, ◌≡◌, refl, ◌⊎◌, inl, inr, Option, none, some,
  List, [], ◌∷◌, ◌++◌, lookup, keep, ◌==◌, string_eq, if◌then◌else◌, Bool-cases, eq_iff,
}
use cyber_core.Rooms.Registry.{
  AgentDescriptor, Registry, values, select, sorted, place, online_one, precedes,
}

abbrev pub Every : {A : Type 0} → (A → Type 0) → List A → Type 0
Every P [] = Unit
Every P (x ∷ xs) = P x × Every P xs

module _ {A : Type 0} (P : A → Type 0) where
  pub Every-append : (xs ys : List A) → Every P xs → Every P ys → Every P (xs ++ ys)
  Every-append [] ys h i = i
  Every-append (x ∷ xs) ys h i = (h.0, Every-append xs ys h.1 i)

  Every-map : (Q : A → Type 0) (f : (a : A) → P a → Q a) (xs : List A) → Every P xs → Every Q xs
  Every-map Q f [] h = tt
  Every-map Q f (x ∷ xs) h = (f x h.0, Every-map Q f xs h.1)

  Every-if : (test : Bool) (x : A) → (test ≡ true → P x) → Every P (if test then x ∷ [] else [])
  Every-if true x h = (h refl, tt)
  Every-if false x h = tt

Every-IsListed : {A : Type 0} (xs : List A) → Every (λ a. IsListed a xs) xs
Every-IsListed [] = tt
Every-IsListed (x ∷ xs) =
    (here, Every-map (λ a. IsListed a xs) _ (λ a h. there h) xs (Every-IsListed xs))

-- An agent that is registered, online, and addressed by the target
pub record IsAddressed (target : String) (agents : Registry) (agent : AgentDescriptor)
    : Type 0 where
  pub online : agent.online ≡ true
  pub addressed :
      ((target ≡ "*") × IsListed agent (values agents)) ⊎ (lookup target agents ≡ some agent)

module _ (P : AgentDescriptor → Type 0) where
  Every-place :
      (agent : AgentDescriptor) (agents : List AgentDescriptor)
      → P agent
      → Every P agents
      → Every P (place agent agents)
  unfolding place
  Every-place agent [] p h = (p, tt)
  Every-place agent (first ∷ rest) p h = elim (Bool-cases (precedes agent first)) [
    | inl before ↦ rw before (p, h)
    | inr after ↦ rw after (h.0, Every-place agent rest p h.1)
  ]

  Every-sorted : (agents : List AgentDescriptor) → Every P agents → Every P (sorted agents)
  unfolding sorted
  Every-sorted [] h = tt
  Every-sorted (agent ∷ agents) h = Every-place agent (sorted agents) h.0 (Every-sorted agents h.1)

  Every-keep :
      (p : AgentDescriptor → Bool) (agents : List AgentDescriptor)
      → Every P agents
      → Every (λ a. P a × (p a ≡ true)) (keep p agents)
  unfolding keep
  Every-keep p [] h = tt
  Every-keep p (agent ∷ agents) h = elim (Bool-cases (p agent)) [
    | inl kept ↦ rw kept ((h.0, kept), Every-keep p agents h.1)
    | inr dropped ↦ rw dropped (Every-keep p agents h.1)
  ]

online_one-IsAddressed :
    (target : String) (agents : Registry) (found : Option AgentDescriptor)
    → lookup target agents ≡ found
    → Every (IsAddressed target agents) (online_one found)
unfolding online_one
online_one-IsAddressed target agents none e = tt
online_one-IsAddressed target agents (some agent) e =
    Every-if (IsAddressed target agents) agent.online agent
      (λ on. record { online = on; addressed = inr e })

pub select-IsAddressed :
    (target : String) (agents : Registry) → Every (IsAddressed target agents) (select target agents)
unfolding select
select-IsAddressed target agents = elim (Bool-cases (target == "*")) [
  | inl all ↦ rw all (
      Every-sorted _ _ (
        Every-map (λ a. IsListed a (values agents) × (a.online ≡ true)) _
          (λ a h. record { online = h.1; addressed = inl ((eq_iff target "*").0 all, h.0) }) _
          (Every-keep (λ a. IsListed a (values agents)) (λ a. a.online) (values agents)
            (Every-IsListed (values agents)))))
  | inr one ↦ rw one (Every-sorted _ _ (online_one-IsAddressed target agents _ refl))
]
