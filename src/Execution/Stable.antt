-- ===== src/Execution/Stable.antt =====
-- The readers of src/cybercore/execution/server/inventory.py, run again on what they returned.
pub mod Rows
use Prim.Native.String.{count}
use mathlib.Core.Option.{none-ne-some}
use cyber_core.Base.{
  ℕ, String, Bool, true, false, ◌||◌, ◌≡◌, refl, sym, ap, subst, ◌∙◌, Option, none, some, arith,
  Bool-cases, inl, inr, ltb, nat_beq, if◌then◌else◌, Option-cases,
}
use cyber_core.Base.Float.{Float}
use cyber_core.Base.Int.{ℤ, pos}
use cyber_core.Execution.Json.{
  Json, null, boolean, integer, number, text, array, object, Fields, get, empty, field,
}
use cyber_core.Execution.Inventory.{
  ◌>>=◌, require_text, require_non_empty_text, require_number, require_positive_int, require_int,
  require_boolean, Host, Memory, Filesystem, measure, float_of_int, read_host, read_memory,
  read_filesystem, unless,
}
use cyber_core.Execution.Report.{host_json, memory_json, filesystem_json}

module _ {A B : Type 0} where
  -- What is shown of the result of a chain, from its first step and from the rest.
  pub bind-elim :
      (P : B → Type 0) (o : Option A) (f : A → Option B)
      → ((a : A) → o ≡ some a → (b : B) → f a ≡ some b → P b)
      → (b : B) → (o >>= f) ≡ some b
      → P b
  unfolding ◌>>=◌
  bind-elim P none f later b h = absurd (ground (arith, h))
  bind-elim P (some a) f later b h = later a refl b h

  pub bind-from :
      (o : Option A) (f : A → Option B) (a : A) (r : Option B)
      → o ≡ some a
      → f a ≡ r
      → (o >>= f) ≡ r
  unfolding ◌>>=◌
  bind-from o f a r h k = rw h k

pub some_inj : {A : Type 0} {a b : A} → some a ≡ some b → a ≡ b
some_inj {a = a} e = ap (λ o. elim o [ none ↦ a | some x ↦ x ]) e

pub require_text-again :
    (most : ℕ) (value : Option Json) (s : String)
    → require_text most value ≡ some s
    → require_text most (some (text s)) ≡ some s
unfolding require_text
require_text-again most (some (text t)) s h = ground (arith, h)
require_text-again most _ s h = ground (arith, h)

pub require_non_empty_text-again :
    (most : ℕ) (value : Option Json) (s : String)
    → require_non_empty_text most value ≡ some s
    → require_non_empty_text most (some (text s)) ≡ some s
unfolding require_non_empty_text require_text ◌>>=◌
require_non_empty_text-again most (some (text t)) s h = ground (arith, h)
require_non_empty_text-again most _ s h = ground (arith, h)

require_positive_int-again :
    (value : Option Json) (n : ℕ)
    → require_positive_int value ≡ some n
    → require_positive_int (some (integer (pos n))) ≡ some n
unfolding require_positive_int require_int
require_positive_int-again value n h =
    bind-elim (λ n. require_positive_int (some (integer (pos n))) ≡ some n) _ _
      (λ m e k h. bind-from _ _ k (some k) refl (ground (arith, h))) n h

measure-again : (x y : Float) → measure x ≡ some y → measure y ≡ some y
unfolding measure
measure-again x y h = ground (arith, h)

require_number-again :
    (value : Option Json) (x : Float)
    → require_number value ≡ some x
    → require_number (some (number x)) ≡ some x
unfolding require_number
require_number-again (some (integer n)) x h =
    bind-elim (λ y. measure y ≡ some y) (float_of_int n) measure (λ y e z. measure-again y z) x h
require_number-again (some (number y)) x h = measure-again y x h
require_number-again _ x h = absurd (ground (arith, h))

pub read_host-again :
    (f : Fields) (h : Host) → read_host f ≡ some h → read_host (host_json h) ≡ some h
unfolding read_host host_json get
read_host-again f =
    let P : Host → Type 0 = λ h. read_host (host_json h) ≡ some h in
    bind-elim P _ _ (λ hostname e. bind-elim P _ _ (λ cpu_logical n. bind-elim P _ _ (λ load_1m x.
      bind-elim P _ _ (λ load_5m y. bind-elim P _ _ (λ load_15m z h made. subst P (some_inj made) (
        bind-from _ _ hostname _ (require_text-again 255 _ hostname e) (
          bind-from _ _ cpu_logical _ (require_positive_int-again _ cpu_logical n) (
            bind-from _ _ load_1m _ (require_number-again _ load_1m x) (
              bind-from _ _ load_5m _ (require_number-again _ load_5m y)
                (bind-from _ _ load_15m _ (require_number-again _ load_15m z) refl))))))))))

pub unless-elim :
    {A : Type 0} (P : A → Type 0) (refused : A → Bool) (a b : A)
    → unless refused a ≡ some b
    → (unless refused a ≡ some a → P a)
    → P b
unfolding unless
unless-elim P refused a b h later = elim (Bool-cases (refused a)) [
  | inl bad ↦ absurd (none-ne-some b (sym (rw bad refl) ∙ h))
  | inr good ↦ subst P (some_inj (sym (rw good refl) ∙ h)) (later (rw good refl))
]

pub unless-again :
    {A : Type 0} (refused : A → Bool) (a b : A)
    → unless refused a ≡ some b
    → unless refused b ≡ some b
unless-again refused a b h =
    unless-elim (λ x. unless refused x ≡ some x) refused a b h (λ same. same)

pub read_memory-again :
    (f : Fields) (m : Memory) → read_memory f ≡ some m → read_memory (memory_json m) ≡ some m
unfolding read_memory memory_json get require_int
read_memory-again f =
    let P : Memory → Type 0 = λ m. read_memory (memory_json m) ≡ some m in
    bind-elim P _ _ (λ total e. bind-elim P _ _ (λ available n. bind-elim P _ _ (λ swap_total x.
      bind-elim P _ _ (λ swap_free y m made. bind-from _ _ m.total_bytes _ refl (
        bind-from _ _ m.available_bytes _ refl (
          bind-from _ _ m.swap_total_bytes _ refl
            (bind-from _ _ m.swap_free_bytes _ refl (unless-again _ _ m made))))))))

pub read_filesystem-again :
    (f : Fields) (s : Filesystem)
    → read_filesystem f ≡ some s
    → read_filesystem (filesystem_json s) ≡ some s
unfolding read_filesystem filesystem_json get require_int
read_filesystem-again f =
    let P : Filesystem → Type 0 = λ s. read_filesystem (filesystem_json s) ≡ some s in
    bind-elim P _ _ (λ total e. bind-elim P _ _ (λ used n. bind-elim P _ _ (λ free x s made.
      bind-from _ _ s.total_bytes _ refl (
        bind-from _ _ s.used_bytes _ refl
          (bind-from _ _ s.free_bytes _ refl (unless-again _ _ s made))))))
