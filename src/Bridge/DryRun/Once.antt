-- ===== src/Bridge/DryRun/Once.antt =====
-- Many calls of `run_local_hive_dry_run` of src/cybercore/action_kernel_hive_bridge.py, one after the other.
use cyber_core.Base.{
  ℕ, suc, ◌+◌, ◌≤◌, String, true, false, ◌≡◌, refl, ap, subst, ◌∙◌, some, List, [], ◌∷◌, ◌++◌, ◌==◌,
  string_eq, arith, if◌then◌else◌, Bool-cases, inl, inr, beq→eq,
}
use cyber_core.Base.Text.{concat}
use cyber_core.Base.Time.{DateTime}
use cyber_core.Kernel.Types.{TaskRequest, ExecutionReceipt}
use cyber_core.Bridge.Guards.{ReplayGuard}
use cyber_core.Bridge.Guards.Once.{IsDurable}
use cyber_core.Bridge.Interop.{HiveRequest}
use cyber_core.Bridge.Process.{Setting, Process, claim_key}
use cyber_core.Bridge.DryRun.{run_local_hive_dry_run}
use cyber_core.Bridge.DryRun.Stages.{IsClaimed, request_of}
use cyber_core.Bridge.DryRun.Authority.{run-IsAuthorized}

-- The key that a request was claimed under
abbrev pub sent_key : HiveRequest DateTime → String
sent_key r = concat (r.requested_by ∷ ":" ∷ r.id ∷ ":" ∷ r.correlation_id ∷ [])

-- How many of the requests have a key
unfoldable pub sends : String → List (HiveRequest DateTime) → ℕ
sends key [] = 0
sends key (r ∷ rs) = let rest = sends key rs in if sent_key r == key then suc rest else rest

sends-append :
    (key : String) (rs others : List (HiveRequest DateTime))
    → sends key (rs ++ others) ≡ sends key rs + sends key others
unfolding sends
sends-append key [] others = omega arith
sends-append key (r ∷ rs) others = ground (arith, sends-append key rs others)

module _ {S : Type 0} (store : ReplayGuard S) (setting : Setting) where
  -- The calls, each with its task, its actor and its receipt
  unfoldable pub after_runs : List (TaskRequest × String × ExecutionReceipt) → Process S → Process S
  after_runs [] p = p
  after_runs ((task, actor, receipt) ∷ calls) p =
      after_runs calls (run_local_hive_dry_run setting task actor receipt (some store) p).1

module _ {S : Type 0} {store : ReplayGuard S} (durable : IsDurable store) (setting : Setting) where
  -- A key was sent no more often than it is claimed.
  abbrev IsCounted : String → Process S → Type 0
  IsCounted key p = sends key p.sent ≤ (if durable.claimed p.durable key then 1 else 0)

  one_request :
      (key : String) (task : TaskRequest) (actor : String)
      → sends key (request_of task actor ∷ []) ≡ (if claim_key actor task == key then 1 else 0)
  unfolding sends claim_key
  one_request key task actor = refl

  mine_counts :
      (key : String) (task : TaskRequest) (actor : String) (p q : Process S)
      → (claim_key actor task == key) ≡ true
      → IsClaimed durable setting task actor p q
      → sends key q.sent ≡ sends key p.sent + sends key (request_of task actor ∷ [])
      → IsCounted key p
      → IsCounted key q
  mine_counts key task actor p q mine consumed counts h =
      let e = beq→eq (claim_key actor task) key mine in
      let free : durable.claimed p.durable key ≡ false =
        subst (λ k. durable.claimed p.durable k ≡ false) e consumed.free in
      let claimed : durable.claimed q.durable key ≡ true =
        subst (λ k. durable.claimed q.durable k ≡ true) e consumed.claimed in
      ground (arith, counts, one_request key task actor, mine, free, claimed, h)

  run-IsCounted :
      (key : String) (task : TaskRequest) (actor : String) (receipt : ExecutionReceipt)
      (p : Process S)
      → IsCounted key p
      → IsCounted key (run_local_hive_dry_run setting task actor receipt (some store) p).1
  run-IsCounted key task actor receipt p h =
      let q = (run_local_hive_dry_run setting task actor receipt (some store) p).1 in
      elim (run-IsAuthorized durable setting task actor p receipt) [
        | inl unsent ↦
            let same = ap (sends key) unsent.same in ground (arith, h, same, unsent.kept key)
        | inr (_, sent) ↦
            let counts =
              ap (sends key) sent.added ∙ sends-append key p.sent (request_of task actor ∷ []) in
            elim (Bool-cases (claim_key actor task == key)) [
              | inl mine ↦ mine_counts key task actor p q mine sent.consumed counts h
              | inr other ↦
                  ground (arith, h, counts, one_request key task actor, other, sent.kept key)
            ]
      ]

  after_runs-IsCounted :
      (key : String) (calls : List (TaskRequest × String × ExecutionReceipt)) (p : Process S)
      → IsCounted key p
      → IsCounted key (after_runs store setting calls p)
  unfolding after_runs
  after_runs-IsCounted key [] p h = h
  after_runs-IsCounted key ((task, actor, receipt) ∷ calls) p h =
      after_runs-IsCounted key calls
        (run_local_hive_dry_run setting task actor receipt (some store) p).1
        (run-IsCounted key task actor receipt p h)

  -- However many calls there are of the bridge with a durable guard, with whichever tasks, actors and
  -- receipts: of the requests sent since the first, at most one has a given key.
  pub sent_once :
      (key : String) (calls : List (TaskRequest × String × ExecutionReceipt)) (p : Process S)
      → p.sent ≡ []
      → sends key (after_runs store setting calls p).sent ≤ 1
  unfolding sends
  sent_once key calls p empty =
      let start : IsCounted key p = ground (arith, ap (sends key) empty) in
      ground (arith, after_runs-IsCounted key calls p start)
