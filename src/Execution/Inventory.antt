-- ===== src/Execution/Inventory.antt =====
-- `validate_inventory_payload` of src/cybercore/execution/server/inventory.py. `none` is the ValueError; its text
-- is not kept, since both callers drop it.
use Prim.Native.Nat.{◌^◌}
use Prim.Native.String.{count}
use cyber_core.Base.{
  ℕ, ◌+◌, ◌-◌, String, Bool, ◌||◌, not, Option, none, some, List, string_eq, ltb, leb, nat_beq,
  if◌then◌else◌,
}
use cyber_core.Base.Int.{ℤ, pos, neg_part, pos_part}
use cyber_core.Base.Float.{Float, zero_float, of_int, is_finite, lt_float}
use cyber_core.Base.Text.{is_blank}
use cyber_core.Execution.Json.{Json, boolean, integer, number, text, object, Fields, get, has_keys}

infixl 5 ◌>>=◌
unfoldable pub ◌>>=◌ : {A B : Type 0} → Option A → (A → Option B) → Option B
none >>= f = none
some a >>= f = f a

-- `_require_exact_dict`
unfoldable pub require_exact_dict : List String → Option Json → Option Fields
require_exact_dict expected (some (object fields)) =
    if has_keys expected fields then some fields else none
require_exact_dict expected _ = none

-- `_require_int`
unfoldable pub require_int : Option Json → Option ℕ
require_int (some (integer (pos n))) = some n
require_int _ = none

positive : ℕ → Option ℕ
positive n = if nat_beq n 0 then none else some n

-- `_require_positive_int`
unfoldable pub require_positive_int : Option Json → Option ℕ
unfolding positive
require_positive_int value = do n ← require_int value; positive n

-- `float(n)` of an int: past the greatest double it raises OverflowError.
unfoldable pub float_of_int : ℤ → Option Float
float_of_int n =
    if leb (2 ^ 1024 - 2 ^ 970) (pos_part n + neg_part n) then none else some (of_int n)

unfoldable pub measure : Float → Option Float
measure x = if not (is_finite x) || lt_float x zero_float then none else some x

-- `_require_number`
unfoldable pub require_number : Option Json → Option Float
unfolding float_of_int measure
require_number (some (integer n)) = do x ← float_of_int n; measure x
require_number (some (number x)) = measure x
require_number _ = none

-- `_require_text`
unfoldable pub require_text : ℕ → Option Json → Option String
require_text max_length (some (text s)) = if ltb max_length (count s) then none else some s
require_text max_length _ = none

filled : String → Option String
filled s = if is_blank s then none else some s

-- `_require_non_empty_text`
unfoldable pub require_non_empty_text : ℕ → Option Json → Option String
unfolding require_text filled
require_non_empty_text max_length value = do s ← require_text max_length value; filled s

unfoldable pub require_boolean : Option Json → Option Bool
require_boolean (some (boolean b)) = some b
require_boolean _ = none

pub record Host : Type 0 where
  pub hostname : String
  pub cpu_logical : ℕ
  pub load_1m : Float
  pub load_5m : Float
  pub load_15m : Float

pub record Memory : Type 0 where
  pub total_bytes : ℕ
  pub available_bytes : ℕ
  pub swap_total_bytes : ℕ
  pub swap_free_bytes : ℕ

pub record Filesystem : Type 0 where
  pub total_bytes : ℕ
  pub used_bytes : ℕ
  pub free_bytes : ℕ

pub record Container : Type 0 where
  pub name : String
  pub image : String
  pub status : String
  pub ports : String
  pub size : String

pub record Storage : Type 0 where
  pub kind : String
  pub total_count : String
  pub active : String
  pub size : String
  pub reclaimable : String

pub record Docker : Type 0 where
  pub cli_present : Bool
  pub access_status : String
  pub server_version : Option String
  pub containers : List Container
  pub storage : List Storage

pub record Inventory : Type 0 where
  pub host : Host
  pub memory : Memory
  pub filesystem : Filesystem
  pub docker : Docker

unfoldable pub read_host : Fields → Option Host
read_host f = do
  hostname ← require_text 255 (get "hostname" f)
  cpu_logical ← require_positive_int (get "cpu_logical" f)
  load_1m ← require_number (get "load_1m" f)
  load_5m ← require_number (get "load_5m" f)
  load_15m ← require_number (get "load_15m" f)
  some (record {
    hostname = hostname;
    cpu_logical = cpu_logical;
    load_1m = load_1m;
    load_5m = load_5m;
    load_15m = load_15m;
  })

-- A value that passes the test, which raises otherwise
unfoldable pub unless : {A : Type 0} → (A → Bool) → A → Option A
unless refused a = if refused a then none else some a

is_impossible_memory : Memory → Bool
is_impossible_memory m =
    nat_beq m.total_bytes 0
    || ltb m.total_bytes m.available_bytes
    || ltb m.swap_total_bytes m.swap_free_bytes

unfoldable pub read_memory : Fields → Option Memory
unfolding is_impossible_memory
read_memory f = do
  total_bytes ← require_int (get "total_bytes" f)
  available_bytes ← require_int (get "available_bytes" f)
  swap_total_bytes ← require_int (get "swap_total_bytes" f)
  swap_free_bytes ← require_int (get "swap_free_bytes" f)
  unless is_impossible_memory (record {
    total_bytes = total_bytes;
    available_bytes = available_bytes;
    swap_total_bytes = swap_total_bytes;
    swap_free_bytes = swap_free_bytes;
  })

is_impossible_filesystem : Filesystem → Bool
is_impossible_filesystem s =
    nat_beq s.total_bytes 0
    || ltb s.total_bytes s.used_bytes
    || ltb s.total_bytes s.free_bytes
    || ltb s.total_bytes (s.used_bytes + s.free_bytes)

unfoldable pub read_filesystem : Fields → Option Filesystem
unfolding is_impossible_filesystem
read_filesystem f = do
  total_bytes ← require_int (get "total_bytes" f)
  used_bytes ← require_int (get "used_bytes" f)
  free_bytes ← require_int (get "free_bytes" f)
  unless is_impossible_filesystem
      (record { total_bytes = total_bytes; used_bytes = used_bytes; free_bytes = free_bytes })
