-- ===== src/Execution/Json.antt =====
-- The values that `json.loads` returns. An object is a dictionary: a key stands in it once.
use cyber_core.Base.{
  String, Bool, ◌&&◌, Option, none, some, List, [], ◌∷◌, contains, all, ◌==◌, string_eq,
  if◌then◌else◌,
}
use cyber_core.Base.Int.{ℤ}
use cyber_core.Base.Float.{Float}

mutual
  pub data Json : Type 0 where
    null : Json
    boolean : Bool → Json
    integer : ℤ → Json
    number : Float → Json
    text : String → Json
    array : Items → Json
    object : Fields → Json

  pub data Items : Type 0 where
    end : Items
    item : Json → Items → Items

  pub data Fields : Type 0 where
    empty : Fields
    field : String → Json → Fields → Fields

-- `value.get(key)`
unfoldable pub get : String → Fields → Option Json
get key empty = none
get key (field name value rest) =
    let later = get key rest in if name == key then some value else later

-- The keys
unfoldable pub keys : Fields → List String
keys empty = []
keys (field name value rest) = name ∷ keys rest

-- `set(value) == expected`
unfoldable pub has_keys : List String → Fields → Bool
unfolding keys contains all
has_keys expected fields =
    all (contains expected) (keys fields) && all (contains (keys fields)) expected

-- `value[key]` of an object, for a key that it has
unfoldable pub at_key : String → Json → Option Json
unfolding get
at_key key (object fields) = get key fields
at_key key _ = none
