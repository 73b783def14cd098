-- ===== src/Bridge/Guards/Claims.antt =====
-- How a claim of `_ExpiringProcessReplayGuard` of src/cybercore/action_kernel_hive_bridge.py ends.
use cyber_core.Base.{
  ◌<◌, String, Bool, true, false, ◌≡◌, ap, ◌∙◌, none, some, List, [], ◌∷◌, Dict, lookup, insert,
  length, keep, ◌==◌, string_eq, arith, Bool-cases, Option-cases, inl, inr, leb,
}
use cyber_core.Base.Int.{ℤ, leb_ℤ}
use cyber_core.Base.Exec.{Result, ok, err}
use cyber_core.Bridge.Guards.{
  GuardError, permission_error, Claim, ProcessGuard, evict, actor_claims, claim_in_process,
  claim_live,
}

pub lookup-evict :
    (key : String) (now : ℤ) (claim : Claim) (d : Dict String Claim)
    → lookup key d ≡ some claim
    → leb_ℤ claim.until now ≡ false
    → lookup key (evict now d) ≡ some claim
unfolding evict keep lookup
lookup-evict key now claim [] h live = ground (arith, h)
lookup-evict key now claim ((j, c) ∷ d) h live =
    let later = lookup-evict key now claim d in
    elim (Bool-cases (j == key)) [
      | inl same ↦
          let found : c ≡ claim = ground (arith, h, same) in
          let kept : leb_ℤ c.until now ≡ false = ap (λ x. leb_ℤ x.until now) found ∙ live in
          rw kept (rw same (ap {A = Claim} (λ x. some x) found))
      | inr other ↦
          let further : lookup key d ≡ some claim = ground (arith, h, other) in
          elim (Bool-cases (leb_ℤ c.until now)) [
            | inl gone ↦ rw gone (later further live)
            | inr kept ↦ rw kept (rw other (later further live))
          ]
    ]

-- The guard with one claim more
abbrev pub with_claim : String → ℤ → String → ProcessGuard → ProcessGuard
with_claim key expires_at actor guard = record guard {
  claimed_until = insert key (record { until = expires_at; actor = actor }) guard.claimed_until;
}

-- The ways in which a claim ends, once the expired ones are gone
pub data Claimed (key : String) (expires_at now : ℤ) (actor : String) (guard : ProcessGuard)
    : Result GuardError Bool × ProcessGuard → Type 0 where
  held :
      (c : Claim)
      → lookup key guard.claimed_until ≡ some c
      → Claimed key expires_at now actor guard (ok false, guard)
  late :
      lookup key guard.claimed_until ≡ none
      → leb_ℤ expires_at now ≡ true
      → Claimed key expires_at now actor guard (ok true, guard)
  refused :
      lookup key guard.claimed_until ≡ none
      → (reason : String)
      → Claimed key expires_at now actor guard (err (permission_error reason), guard)
  recorded :
      lookup key guard.claimed_until ≡ none
      → leb_ℤ expires_at now ≡ false
      → length guard.claimed_until < guard.max_entries
      → actor_claims actor guard.claimed_until < guard.max_per_actor
      → Claimed key expires_at now actor guard (ok true, with_claim key expires_at actor guard)

module _ (key : String) (expires_at now : ℤ) (actor : String) (guard : ProcessGuard) where
  claim_live-Claimed :
      Claimed key expires_at now actor guard (claim_live key expires_at now actor guard)
  unfolding claim_live
  claim_live-Claimed =
      let claims = guard.claimed_until in
      elim (Option-cases (lookup key claims)) [
        | inr (c, found) ↦ rw found (held c found)
        | inl free ↦ rw free (elim (Bool-cases (leb_ℤ expires_at now)) [
          | inl past ↦ rw past (late free past)
          | inr due ↦ rw due (elim (Bool-cases (leb guard.max_entries (length claims))) [
            | inl full ↦ rw full (refused free _)
            | inr room ↦
                rw room (elim (Bool-cases (leb guard.max_per_actor (actor_claims actor claims))) [
                  | inl many ↦ rw many (refused free _)
                  | inr few ↦
                      rw few (recorded free due (ground (arith, room)) (ground (arith, few)))
                ])
          ])
        ])
      ]

abbrev pub evicted : ℤ → ProcessGuard → ProcessGuard
evicted now guard = record guard { claimed_until = evict now guard.claimed_until }

pub claim_in_process-Claimed :
    (key : String) (expires_at now : ℤ) (actor : String) (guard : ProcessGuard)
    → Claimed key expires_at now actor
        (evicted now guard)
        (claim_in_process key expires_at now actor guard)
unfolding claim_in_process
claim_in_process-Claimed key expires_at now actor guard =
    claim_live-Claimed key expires_at now actor (evicted now guard)

-- One call of `claim_once`
pub record Attempt : Type 0 where
  pub key : String
  pub expires_at : ℤ
  pub now : ℤ
  pub actor : String

unfoldable pub after_claims : List Attempt → ProcessGuard → ProcessGuard
after_claims [] guard = guard
after_claims (a ∷ rest) guard =
    after_claims rest (claim_in_process a.key a.expires_at a.now a.actor guard).1
