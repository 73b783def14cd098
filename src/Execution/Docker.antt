-- ===== src/Execution/Docker.antt =====
-- The part of `validate_inventory_payload` of src/cybercore/execution/server/inventory.py that reads what
-- Docker answered.
use cyber_core.Base.{
  ℕ, suc, String, Bool, true, false, ◌||◌, not, Option, none, some, List, [], ◌∷◌, ◌==◌, string_eq,
  ltb, if◌then◌else◌, is_some,
}
use cyber_core.Execution.Json.{Json, null, array, Items, end, item, Fields, get}
use cyber_core.Execution.Inventory.{
  ◌>>=◌, Container, Storage, Docker, unless, require_exact_dict, require_text,
  require_non_empty_text, require_boolean,
}

unfoldable pub items : Items → ℕ
items end = 0
items (item x xs) = suc (items xs)

-- An optional text: `if version is not None: version = …`
unfoldable pub read_version : Option Json → Option (Option String)
read_version (some null) = some none
read_version value = do s ← require_non_empty_text 128 value; some (some s)

abbrev pub container_keys : List String
container_keys = "name" ∷ "image" ∷ "status" ∷ "ports" ∷ "size" ∷ []

abbrev pub storage_keys : List String
storage_keys = "type" ∷ "total_count" ∷ "active" ∷ "size" ∷ "reclaimable" ∷ []

unfoldable pub read_container : Json → Option Container
read_container value = do
  f ← require_exact_dict container_keys (some value)
  name ← require_non_empty_text 256 (get "name" f)
  image ← require_non_empty_text 512 (get "image" f)
  status ← require_non_empty_text 256 (get "status" f)
  ports ← require_text 1024 (get "ports" f)
  size ← require_non_empty_text 128 (get "size" f)
  some (record { name = name; image = image; status = status; ports = ports; size = size })

unfoldable pub read_storage : Json → Option Storage
read_storage value = do
  f ← require_exact_dict storage_keys (some value)
  kind ← require_non_empty_text 128 (get "type" f)
  total_count ← require_non_empty_text 64 (get "total_count" f)
  active ← require_non_empty_text 64 (get "active" f)
  size ← require_non_empty_text 128 (get "size" f)
  reclaimable ← require_non_empty_text 128 (get "reclaimable" f)
  some (record {
    kind = kind;
    total_count = total_count;
    active = active;
    size = size;
    reclaimable = reclaimable;
  })

module _ {A : Type 0} (read : Json → Option A) where
  -- The rows of a list, one after the other
  unfoldable pub read_rows : Items → Option (List A)
  read_rows end = some []
  read_rows (item x xs) = do row ← read x; rows ← read_rows xs; some (row ∷ rows)

  -- A list of at most so many rows
  unfoldable pub read_bounded : ℕ → Option Json → Option (List A)
  unfolding read_rows items
  read_bounded most (some (array rows)) = if ltb most (items rows) then none else read_rows rows
  read_bounded most _ = none

is_access_status : String → Bool
is_access_status s =
    s == "ok" || s == "partial_failure" || s == "not_installed" || s == "denied_or_unreachable"

is_empty : {A : Type 0} → List A → Bool
is_empty [] = true
is_empty (_ ∷ _) = false

-- What the status says of the rest
is_inconsistent : Docker → Bool
unfolding is_empty
is_inconsistent d =
    if d.access_status == "not_installed"
    then d.cli_present
      || is_some d.server_version
      || not (is_empty d.containers)
      || not (is_empty d.storage)
    else if d.access_status == "denied_or_unreachable"
    then not d.cli_present
      || is_some d.server_version
      || not (is_empty d.containers)
      || not (is_empty d.storage)
    else if d.access_status == "ok"
    then not d.cli_present || not (is_some d.server_version) || is_empty d.storage
    else if d.access_status == "partial_failure"
    then not d.cli_present
    else false

is_impossible_docker : Docker → Bool
unfolding is_access_status is_inconsistent
is_impossible_docker d = not (is_access_status d.access_status) || is_inconsistent d

unfoldable pub read_docker : Fields → Option Docker
unfolding is_impossible_docker
read_docker f = do
  cli_present ← require_boolean (get "cli_present" f)
  access_status ← require_text 64 (get "access_status" f)
  server_version ← read_version (get "server_version" f)
  containers ← read_bounded read_container 100 (get "containers" f)
  storage ← read_bounded read_storage 16 (get "storage" f)
  unless is_impossible_docker (record {
    cli_present = cli_present;
    access_status = access_status;
    server_version = server_version;
    containers = containers;
    storage = storage;
  })
