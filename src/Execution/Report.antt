-- ===== src/Execution/Report.antt =====
-- `validate_inventory_payload` of src/cybercore/execution/server/inventory.py as a whole, and the dictionary that it
-- returns.
use cyber_core.Base.{ℕ, String, Option, none, some, List, [], ◌∷◌, nat_beq, if◌then◌else◌}
use cyber_core.Base.Int.{pos}
use cyber_core.Execution.Json.{
  Json, null, boolean, integer, number, text, array, object, Items, end, item, Fields, empty, field,
  get,
}
use cyber_core.Execution.Inventory.{
  ◌>>=◌, Host, Memory, Filesystem, Container, Storage, Docker, Inventory, require_exact_dict,
  require_int, read_host, read_memory, read_filesystem,
}
use cyber_core.Execution.Docker.{read_docker}

abbrev pub root_keys : List String
root_keys = "schema_version" ∷ "host" ∷ "memory" ∷ "root_filesystem" ∷ "docker" ∷ []

abbrev pub host_keys : List String
host_keys = "hostname" ∷ "cpu_logical" ∷ "load_1m" ∷ "load_5m" ∷ "load_15m" ∷ []

abbrev pub memory_keys : List String
memory_keys = "total_bytes" ∷ "available_bytes" ∷ "swap_total_bytes" ∷ "swap_free_bytes" ∷ []

abbrev pub filesystem_keys : List String
filesystem_keys = "total_bytes" ∷ "used_bytes" ∷ "free_bytes" ∷ []

abbrev pub docker_keys : List String
docker_keys = "cli_present" ∷ "access_status" ∷ "server_version" ∷ "containers" ∷ "storage" ∷ []

-- `INVENTORY_SCHEMA_VERSION`
unfoldable pub supported : ℕ → Option ℕ
supported version = if nat_beq version 1 then some version else none

unfoldable pub validate_inventory_payload : Json → Option Inventory
unfolding supported
validate_inventory_payload value = do
  root ← require_exact_dict root_keys (some value)
  schema_version ← require_int (get "schema_version" root)
  version ← supported schema_version
  host_fields ← require_exact_dict host_keys (get "host" root)
  memory_fields ← require_exact_dict memory_keys (get "memory" root)
  filesystem_fields ← require_exact_dict filesystem_keys (get "root_filesystem" root)
  docker_fields ← require_exact_dict docker_keys (get "docker" root)
  host ← read_host host_fields
  memory ← read_memory memory_fields
  filesystem ← read_filesystem filesystem_fields
  docker ← read_docker docker_fields
  some (record { host = host; memory = memory; filesystem = filesystem; docker = docker })

-- The dictionary that is returned
unfoldable pub host_json : Host → Fields
host_json h = field "hostname" (text h.hostname) (
    field "cpu_logical" (integer (pos h.cpu_logical)) (
      field "load_1m" (number h.load_1m)
        (field "load_5m" (number h.load_5m) (field "load_15m" (number h.load_15m) empty))))

unfoldable pub memory_json : Memory → Fields
memory_json m = field "total_bytes" (integer (pos m.total_bytes)) (
    field "available_bytes" (integer (pos m.available_bytes)) (
      field "swap_total_bytes" (integer (pos m.swap_total_bytes))
        (field "swap_free_bytes" (integer (pos m.swap_free_bytes)) empty)))

unfoldable pub filesystem_json : Filesystem → Fields
filesystem_json s = field "total_bytes" (integer (pos s.total_bytes)) (
    field "used_bytes" (integer (pos s.used_bytes))
      (field "free_bytes" (integer (pos s.free_bytes)) empty))

unfoldable pub container_json : Container → Json
container_json c = object (
    field "name" (text c.name) (
      field "image" (text c.image) (
        field "status" (text c.status)
          (field "ports" (text c.ports) (field "size" (text c.size) empty)))))

unfoldable pub storage_json : Storage → Json
storage_json s = object (
    field "type" (text s.kind) (
      field "total_count" (text s.total_count) (
        field "active" (text s.active)
          (field "size" (text s.size) (field "reclaimable" (text s.reclaimable) empty)))))

unfoldable pub rows_json : {A : Type 0} → (A → Json) → List A → Items
rows_json print [] = end
rows_json print (row ∷ rows) = item (print row) (rows_json print rows)

unfoldable pub version_json : Option String → Json
version_json none = null
version_json (some s) = text s

unfoldable pub docker_json : Docker → Fields
unfolding rows_json version_json container_json storage_json
docker_json d = field "cli_present" (boolean d.cli_present) (
    field "access_status" (text d.access_status) (
      field "server_version" (version_json d.server_version) (
        field "containers" (array (rows_json container_json d.containers))
          (field "storage" (array (rows_json storage_json d.storage)) empty))))

unfoldable pub inventory_json : Inventory → Json
unfolding host_json memory_json filesystem_json docker_json
inventory_json i = object (
    field "schema_version" (integer (pos 1)) (
      field "host" (object (host_json i.host)) (
        field "memory" (object (memory_json i.memory)) (
          field "root_filesystem" (object (filesystem_json i.filesystem))
            (field "docker" (object (docker_json i.docker)) empty)))))
