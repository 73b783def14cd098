-- ===== src/Base/Float.antt =====
-- Python's `float`. A finite one is a whole number of 2^-1074, the least that a double holds; sums are
-- exact, without the rounding and the overflow of doubles.
use Prim.Native.Nat.{ℕ, zero, suc, ◌*◌, ◌^◌, ◌-◌}
use mathlib.Core.Bool.{Bool, true, false, not, ◌&&◌}
use cyber_core.Base.Int.{ℤ, pos, negsuc, ◌+ℤ◌, leb_ℤ}
use cyber_core.Base.Tests.{if◌then◌else◌}

pub data Float : Type 0 where
  finite : ℤ → Float
  positive_infinity negative_infinity nan : Float

abbrev scale : ℕ
scale = 2 ^ 1074

scale_up : ℤ → ℤ
scale_up (pos n) = pos (n * scale)
scale_up (negsuc n) = negsuc (suc n * scale - 1)

-- An `int` beside a `float`.
unfoldable pub of_int : ℤ → Float
unfolding scale_up
of_int n = finite (scale_up n)

abbrev pub zero_float : Float
zero_float = finite (pos 0)

opposite : ℤ → ℤ
opposite (pos zero) = pos 0
opposite (pos (suc n)) = negsuc n
opposite (negsuc n) = pos (suc n)

infixl 65 ◌+f◌ ◌-f◌
unfoldable pub ◌+f◌ : Float → Float → Float
finite a +f finite b = finite (a +ℤ b)
nan +f b = nan
finite a +f b = b
positive_infinity +f negative_infinity = nan
positive_infinity +f nan = nan
positive_infinity +f b = positive_infinity
negative_infinity +f positive_infinity = nan
negative_infinity +f nan = nan
negative_infinity +f b = negative_infinity

negate : Float → Float
negate (finite a) = finite (opposite a)
negate positive_infinity = negative_infinity
negate negative_infinity = positive_infinity
negate nan = nan

unfoldable pub ◌-f◌ : Float → Float → Float
unfolding ◌+f◌ negate opposite
a -f b = a +f negate b

-- `a <= b`, which no comparison with NaN is.
unfoldable pub le_float : Float → Float → Bool
le_float (finite a) (finite b) = leb_ℤ a b
le_float nan b = false
le_float (finite a) nan = false
le_float (finite a) positive_infinity = true
le_float (finite a) negative_infinity = false
le_float positive_infinity positive_infinity = true
le_float positive_infinity b = false
le_float negative_infinity nan = false
le_float negative_infinity b = true

-- `a < b`
unfoldable pub lt_float : Float → Float → Bool
unfolding le_float
lt_float a b = le_float a b && not (le_float b a)

-- `max(a, b)`, which takes the second only if it is greater.
unfoldable pub max_float : Float → Float → Float
unfolding lt_float
max_float a b = if lt_float a b then b else a

unfoldable pub is_finite : Float → Bool
is_finite (finite a) = true
is_finite _ = false
