-- ===== src/Failover/History/Accounts.antt =====
-- Every effect of the provider in src/cybercore/failover_sim.py has an idempotency key of its own.
use cyber_core.Base.{
  string_eq, subst, sym, ap, ◌∙◌, ℕ, String, true, ◌≡◌, length, length-append, arith, IsKeyed,
  insert-IsKeyed, length-insert_new, List,
}
use cyber_core.Base.Exec.{◌>>=◌}
use cyber_core.Failover.Provider
use cyber_core.Failover.Provider.{Provider}
use cyber_core.Failover.Provider.Effects.{mutate-cases, new_receipt}
use cyber_core.Failover.Simulator.{Simulator, on_journal, on_provider}
use cyber_core.Failover.Simulator.Frame.{Preserves-transition_provider}
use cyber_core.Failover.History.{Call, play}
use cyber_core.Failover.History.Invariants.{play-rule}

-- The receipts have distinct keys, and there are as many effects as receipts.
pub record IsAccounted (p : Provider) : Type 0 where
  pub idempotent : p.idempotency ≡ true
  pub keyed : IsKeyed p.receipts
  pub counted : length p.effects ≡ length p.receipts

mutate-IsAccounted :
    (target action : String) (epoch : ℕ) (key : String) (p : Provider)
    → IsAccounted p
    → IsAccounted (Provider.mutate target action epoch key p).1
mutate-IsAccounted target action epoch key p h =
    mutate-cases IsAccounted target action epoch key p h λ generation opened. record {
      idempotent = h.idempotent;
      keyed = simp h.idempotent (insert-IsKeyed key _ p.receipts h.keyed);
      counted = simp h.idempotent (
          omega (
            arith,
            h.counted,
            length-append {0} p.effects,
            length-insert_new key (new_receipt target action epoch p) p.receipts
                (opened.new h.idempotent),
          ));
    }

-- From an idempotent provider whose effects all have receipts, whatever is called in whatever order,
-- with crashes, retries and injected faults: the idempotency keys that have had an effect are
-- distinct, and there are exactly as many effects as keys, so that no key has had two.
pub play-IsAccounted :
    (calls : List Call) (s : Simulator)
    → IsAccounted s.provider
    → IsAccounted (play calls s).provider
play-IsAccounted =
    play-rule (λ s. IsAccounted s.provider)
      (λ s t same h. record {
        idempotent = same.idempotency ∙ h.idempotent;
        keyed = subst IsKeyed (sym same.receipts) h.keyed;
        counted = ap length same.effects ∙ h.counted ∙ sym (ap length same.receipts);
      })
      (λ req generation now. record { after = λ s h. unfold on_journal ◌>>=◌ in h })
      (λ req. Preserves-transition_provider IsAccounted req)
      (λ target action epoch key. record {
        after = λ s h.
            unfold on_provider ◌>>=◌ in mutate-IsAccounted target action epoch key s.provider h;
      })
