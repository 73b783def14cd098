-- ===== src/Bridge/Guards/Bounds.antt =====
-- The capacity of `_ExpiringProcessReplayGuard` of src/cybercore/action_kernel_hive_bridge.py.
use cyber_core.Base.{
  ℕ, suc, ◌≤◌, String, Bool, ◌≡◌, refl, ap, Option, none, some, List, [], ◌∷◌, Dict, lookup, insert,
  length, length-insert_new, keep, ◌==◌, string_eq, eq_iff, arith, if◌then◌else◌,
}
use cyber_core.Base.Int.{ℤ}
use cyber_core.Base.Exec.{Result, ok}
use cyber_core.Bridge.Guards.{
  GuardError, Claim, ProcessGuard, evict, actor_claims, claim_in_process, make_process_guard,
  make_process_guard,
}
use cyber_core.Bridge.Guards.Claims.{
  Claimed, held, late, refused, recorded, claim_in_process-Claimed, evicted, Attempt, after_claims,
}

-- No more claims than the process has room for, and no more of one actor than it may have.
pub record IsBounded (guard : ProcessGuard) : Type 0 where
  pub all_fit : length guard.claimed_until ≤ guard.max_entries
  pub each_fits : (actor : String) → actor_claims actor guard.claimed_until ≤ guard.max_per_actor

length-evict : (now : ℤ) (d : Dict String Claim) → length (evict now d) ≤ length d
unfolding evict keep
length-evict now [] = omega arith
length-evict now ((key, claim) ∷ d) = ground (arith, length-evict now d)

actor_claims-evict :
    (actor : String) (now : ℤ) (d : Dict String Claim)
    → actor_claims actor (evict now d) ≤ actor_claims actor d
unfolding evict keep actor_claims
actor_claims-evict actor now [] = omega arith
actor_claims-evict actor now ((key, claim) ∷ d) = ground (arith, actor_claims-evict actor now d)

actor_claims-insert :
    (actor key : String) (claim : Claim) (d : Dict String Claim)
    → lookup key d ≡ none
    → actor_claims actor (insert key claim d)
      ≡ (if claim.actor == actor then suc (actor_claims actor d) else actor_claims actor d)
unfolding actor_claims insert lookup
actor_claims-insert actor key claim [] h = refl
actor_claims-insert actor key claim ((j, c) ∷ d) h =
    ground (arith, actor_claims-insert actor key claim d)

evicted-IsBounded :
    (now : ℤ) (guard : ProcessGuard) → IsBounded guard → IsBounded (evicted now guard)
evicted-IsBounded now guard h = record {
  all_fit = omega (arith, h.all_fit, length-evict now guard.claimed_until);
  each_fits =
      λ actor. omega (arith, h.each_fits actor, actor_claims-evict actor now guard.claimed_until);
}

Claimed-IsBounded :
    {key : String} {expires_at now : ℤ} {actor : String} {guard : ProcessGuard}
    {ending : Result GuardError Bool × ProcessGuard}
    → IsBounded guard
    → Claimed key expires_at now actor guard ending
    → IsBounded ending.1
Claimed-IsBounded h (held c found) = h
Claimed-IsBounded h (late free past) = h
Claimed-IsBounded h (refused free reason) = h
Claimed-IsBounded {key = key} {expires_at = expires_at} {actor = actor} {guard = guard} h
      (recorded free due room few) =
    let claim : Claim = record { until = expires_at; actor = actor } in
    record {
      all_fit = rw (length-insert_new key claim guard.claimed_until free) omega (arith, room);
      each_fits = λ other. ground (
        arith,
        actor_claims-insert other key claim guard.claimed_until free,
        few,
        h.each_fits other,
        eq_iff actor other,
      );
    }

after_claims-IsBounded :
    (attempts : List Attempt) (guard : ProcessGuard)
    → IsBounded guard
    → IsBounded (after_claims attempts guard)
unfolding after_claims
after_claims-IsBounded [] guard h = h
after_claims-IsBounded (a ∷ rest) guard h =
    after_claims-IsBounded rest (claim_in_process a.key a.expires_at a.now a.actor guard).1 (
      Claimed-IsBounded (evicted-IsBounded a.now guard h)
        (claim_in_process-Claimed a.key a.expires_at a.now a.actor guard))

new-empty :
    (max_entries : ℕ) (per_actor : Option ℕ) (guard : ProcessGuard)
    → make_process_guard max_entries per_actor ≡ ok guard
    → guard.claimed_until ≡ []
unfolding make_process_guard
new-empty max_entries none guard h = ground (arith, h)
new-empty max_entries (some per_actor) guard h = ground (arith, h)

empty-IsBounded : (guard : ProcessGuard) → guard.claimed_until ≡ [] → IsBounded guard
unfolding actor_claims
empty-IsBounded guard empty = record {
  all_fit = omega (arith, ap length empty);
  each_fits = λ actor. omega (arith, ap (actor_claims actor) empty);
}

-- Whatever is claimed of a new guard, by whom and in whichever order, and however its clock runs: it never
-- holds more claims than it has room for, nor more of one actor than it allows.
pub claims-IsBounded :
    (max_entries : ℕ) (per_actor : Option ℕ) (guard : ProcessGuard) (attempts : List Attempt)
    → make_process_guard max_entries per_actor ≡ ok guard
    → IsBounded (after_claims attempts guard)
claims-IsBounded max_entries per_actor guard attempts made =
    after_claims-IsBounded attempts guard
      (empty-IsBounded guard (new-empty max_entries per_actor guard made))
