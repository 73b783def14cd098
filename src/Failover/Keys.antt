-- ===== src/Failover/Keys.antt =====
-- The tuples that `Simulator` uses as dictionary keys in src/cybercore/failover_sim.py.
use cyber_core.Base.{String, ◌≡◌, ◌↔◌, Bool, true, ◌&&◌, arith, Comparable, ◌==◌, string_eq, eq_iff}

-- (holder, target, action)
abbrev pub Triple : Type 0
Triple = String × String × String

-- (target, action)
abbrev pub Pair : Type 0
Pair = String × String

abbrev triple_beq : Triple → Triple → Bool
triple_beq (a, b, c) (x, y, z) = a == x && b == y && c == z

abbrev pair_beq : Pair → Pair → Bool
pair_beq (a, b) (x, y) = a == x && b == y

pub triple_beq_iff : (s t : Triple) → (triple_beq s t ≡ true) ↔ (s ≡ t)
triple_beq_iff (a, b, c) (x, y, z) = (
  λ h. ground (arith, eq_iff a x, eq_iff b y, eq_iff c z),
  λ h. ground (arith, eq_iff a x, eq_iff b y, eq_iff c z),
)

pub pair_beq_iff : (s t : Pair) → (pair_beq s t ≡ true) ↔ (s ≡ t)
pair_beq_iff (a, b) (x, y) =
    (λ h. ground (arith, eq_iff a x, eq_iff b y), λ h. ground (arith, eq_iff a x, eq_iff b y))

instance abbrev pub triple_eq : Comparable Triple
triple_eq = record { test = triple_beq; test_iff = triple_beq_iff }

instance abbrev pub pair_eq : Comparable Pair
pair_eq = record { test = pair_beq; test_iff = pair_beq_iff }
