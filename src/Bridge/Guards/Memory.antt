-- ===== src/Bridge/Guards/Memory.antt =====
-- What `_ExpiringProcessReplayGuard` of src/cybercore/action_kernel_hive_bridge.py remembers.
use cyber_core.Base.{
  String, Bool, true, false, not, ◌≡◌, refl, ap, some, List, [], ◌∷◌, all, lookup, lookup-insert,
  lookup-insert_self, ◌==◌, string_eq, eq_iff, arith, Bool-cases, inl, inr,
}
use cyber_core.Base.Int.{ℤ, leb_ℤ}
use cyber_core.Base.Exec.{Result, ok}
use cyber_core.Bridge.Guards.{GuardError, Claim, ProcessGuard, claim_in_process}
use cyber_core.Bridge.Guards.Claims.{
  Claimed, held, late, refused, recorded, claim_in_process-Claimed, Attempt, after_claims,
  lookup-evict,
}

Claimed-keeps :
    (key : String) (c : Claim) {k : String} {expires_at now : ℤ} {actor : String}
    {guard : ProcessGuard} {ending : Result GuardError Bool × ProcessGuard}
    → Claimed k expires_at now actor guard ending
    → lookup key guard.claimed_until ≡ some c
    → lookup key ending.1.claimed_until ≡ some c
Claimed-keeps key c (held d found) h = h
Claimed-keeps key c (late free past) h = h
Claimed-keeps key c (refused free reason) h = h
Claimed-keeps key c {k = k} {expires_at = expires_at} {actor = actor} {guard = guard}
      (recorded free due room few) h =
    rw (lookup-insert k key (record { until = expires_at; actor = actor }) guard.claimed_until)
      (elim (Bool-cases (k == key)) [
        | inl same ↦ absurd (
            ground (arith, h, free, ap (λ x. lookup x guard.claimed_until) ((eq_iff k key).0 same)))
        | inr other ↦ rw other h
      ])

-- A claim is there after further calls, as long as their clock has not come to its end.
after_claims-keeps :
    (key : String) (c : Claim) (attempts : List Attempt) (guard : ProcessGuard)
    → lookup key guard.claimed_until ≡ some c
    → all (λ a. not (leb_ℤ c.until a.now)) attempts ≡ true
    → lookup key (after_claims attempts guard).claimed_until ≡ some c
unfolding after_claims all
after_claims-keeps key c [] guard h live = h
after_claims-keeps key c (a ∷ rest) guard h live =
    let kept = lookup-evict key a.now c guard.claimed_until h (ground (arith, live)) in
    after_claims-keeps key c rest (claim_in_process a.key a.expires_at a.now a.actor guard).1
      (Claimed-keeps key c (claim_in_process-Claimed a.key a.expires_at a.now a.actor guard) kept)
      (ground (arith, live))

Claimed-records :
    {key : String} {expires_at now : ℤ} {actor : String} {guard : ProcessGuard}
    {ending : Result GuardError Bool × ProcessGuard}
    → Claimed key expires_at now actor guard ending
    → ending.0 ≡ ok true
    → leb_ℤ expires_at now ≡ false
    → lookup key ending.1.claimed_until ≡ some (record { until = expires_at; actor = actor })
Claimed-records (held c found) granted due = absurd (ground (arith, granted))
Claimed-records (late free past) granted due = absurd (ground (arith, past, due))
Claimed-records (refused free reason) granted due = absurd (ground (arith, granted))
Claimed-records {key = key} {expires_at = expires_at} {actor = actor} {guard = guard}
      (recorded free due room few) granted _ =
    lookup-insert_self key (record { until = expires_at; actor = actor }) guard.claimed_until

Claimed-held :
    {key : String} {expires_at now : ℤ} {actor : String} {guard : ProcessGuard}
    {ending : Result GuardError Bool × ProcessGuard} (c : Claim)
    → Claimed key expires_at now actor guard ending
    → lookup key guard.claimed_until ≡ some c
    → ending.0 ≡ ok false
Claimed-held c (held d found) h = refl
Claimed-held c (late free past) h = absurd (ground (arith, free, h))
Claimed-held c (refused free reason) h = absurd (ground (arith, free, h))
Claimed-held c (recorded free due room few) h = absurd (ground (arith, free, h))

-- A key that was claimed with time left is not claimed again before that time is over: not by any actor,
-- whatever is claimed in between.
pub claimed-never_again :
    (key : String) (expires_at now : ℤ) (actor : String) (guard : ProcessGuard)
    (attempts : List Attempt) (renewed later : ℤ) (other : String)
    → (claim_in_process key expires_at now actor guard).0 ≡ ok true
    → leb_ℤ expires_at now ≡ false
    → all (λ a. not (leb_ℤ expires_at a.now)) attempts ≡ true
    → leb_ℤ expires_at later ≡ false
    → (claim_in_process key renewed later other
        (after_claims attempts (claim_in_process key expires_at now actor guard).1)).0
      ≡ ok false
claimed-never_again key expires_at now actor guard attempts renewed later other granted due live
      still =
    let claim : Claim = record { until = expires_at; actor = actor } in
    let first = claim_in_process key expires_at now actor guard in
    let reached = after_claims attempts first.1 in
    let there =
      Claimed-records (claim_in_process-Claimed key expires_at now actor guard) granted due in
    let kept = after_claims-keeps key claim attempts first.1 there live in
    Claimed-held claim (claim_in_process-Claimed key renewed later other reached)
      (lookup-evict key later claim reached.claimed_until kept still)
