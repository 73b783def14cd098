-- ===== src/Base/Time.antt =====
-- Python's `datetime`: an instant, with or without a time zone. Comparing one that has a zone with one
-- that has none raises a TypeError.
use mathlib.Core.Bool.{Bool, true, false}
use mathlib.Core.Option.{Option, none, some}
use cyber_core.Base.Int.{ℤ, leb_ℤ}

pub record DateTime : Type 0 where
  pub instant : ℤ
  -- `tzinfo is not None`
  pub is_aware : Bool

abbrev same_kind : Bool → Bool → Bool
same_kind true b = b
same_kind false true = false
same_kind false false = true

compare_if : Bool → Bool → Option Bool
compare_if true b = some b
compare_if false b = none

-- `a <= b`; `none` is the TypeError.
unfoldable pub le_time : DateTime → DateTime → Option Bool
unfolding compare_if
le_time a b = compare_if (same_kind a.is_aware b.is_aware) (leb_ℤ a.instant b.instant)
