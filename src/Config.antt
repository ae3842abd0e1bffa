-- ===== src/Config.antt =====
-- src/install/config_merge.ts: one server's entry in a client's configuration file, of which a read
-- gives a parse error or the object that it holds. A file whose top or whose container of servers
-- is something else than an object (or missing) is outside the model, and so is a failing disk.
pub mod Equal
pub mod Merge
use macula_mcp.Base.{
  ℕ, Bool, true, false, not, ◌&&◌, ◌||◌, Option, none, some, List, [], ◌∷◌, Text, codes, same, ◌==◌,
  if◌then◌else◌,
}
use macula_mcp.Json.{Value, null, bool, nat, text, obj, Fields, end, field, get, put}
use macula_mcp.Config.Equal.{deep_equal, has_field}

pub data ConfigFile : Type 0 where
  absent blank malformed : ConfigFile
  holds : Fields → ConfigFile

-- The file, and the copies that were made of it.
pub record ConfigDisk : Type 0 where
  pub config : ConfigFile
  pub backups : List ConfigFile

-- `refused` is the exception of a malformed file.
pub data MergeOutcome : Type 0 where
  added replaced unchanged skipped_conflict refused : MergeOutcome

abbrev pub default_container_key : Text
default_container_key = codes "mcpServers"

unfoldable pub read_config : ConfigFile → Option Fields
read_config absent = some end
read_config blank = some end
read_config malformed = none
read_config (holds fs) = some fs

unfoldable pub backup : ConfigDisk → List ConfigFile
backup disk = elim disk.config [ absent ↦ disk.backups | c ↦ c ∷ disk.backups ]

-- `(existing[containerKey] as …) ?? {}`
abbrev pub servers_of : Option Value → Fields
servers_of (some (obj fs)) = fs
servers_of _ = end

abbrev pub is_truthy : Option Value → Bool
is_truthy none = false
is_truthy (some null) = false
is_truthy (some (bool b)) = b
is_truthy (some (nat n)) = not (n == 0)
is_truthy (some (text [])) = false
is_truthy (some v) = true

abbrev matches : Option Value → Value → Bool
matches none entry = false
matches (some v) entry = deep_equal v entry

unfoldable pub existing_entry_result : Option Value → Value → Bool → Option MergeOutcome
existing_entry_result current entry force =
    if is_truthy current && matches current entry
    then some unchanged
    else if is_truthy current && not force
    then some skipped_conflict
    else none

abbrev pub written : Text → Text → Value → Fields → Fields
written key name entry existing =
    put key (obj (put name entry (servers_of (get key existing)))) existing

abbrev pub merge_into : Text → Text → Value → Bool → ConfigDisk → Fields → ConfigDisk × MergeOutcome
merge_into key name entry force disk existing =
    let current = get name (servers_of (get key existing)) in
    elim (existing_entry_result current entry force) [
      | some settled ↦ (disk, settled)
      | none ↦ (
        record { config = holds (written key name entry existing); backups = backup disk },
        if is_truthy current then replaced else added,
      )
    ]

unfoldable pub merge_entry : Text → Text → Value → Bool → ConfigDisk → ConfigDisk × MergeOutcome
merge_entry key name entry force disk = elim (read_config disk.config) [
  | none ↦ (disk, refused)
  | some existing ↦ merge_into key name entry force disk existing
]

unfoldable pub merge_mcp_server : Text → Value → Bool → ConfigDisk → ConfigDisk × MergeOutcome
merge_mcp_server name entry force disk = merge_entry default_container_key name entry force disk

-- `const { [name]: _removed, ...rest } = servers`
unfoldable pub without_server : Text → Fields → Fields
without_server name end = end
without_server name (field k v fs) =
    let rest = without_server name fs in if same k name then rest else field k v rest

abbrev pub removed : Text → Text → Fields → Fields
removed key name existing =
    put key (obj (without_server name (servers_of (get key existing)))) existing

abbrev pub remove_from : Text → Text → ConfigDisk → Fields → ConfigDisk × MergeOutcome
remove_from key name disk existing =
    if has_field name (servers_of (get key existing))
    then (record { config = holds (removed key name existing); backups = backup disk }, replaced)
    else (disk, unchanged)

abbrev remove_present : Text → Text → ConfigDisk → ConfigDisk × MergeOutcome
remove_present key name disk = elim (read_config disk.config) [
  | none ↦ (disk, refused)
  | some existing ↦ remove_from key name disk existing
]

unfoldable pub remove_entry : Text → Text → ConfigDisk → ConfigDisk × MergeOutcome
remove_entry key name disk = elim disk.config [
  | absent ↦ (disk, unchanged)
  | c ↦ remove_present key name disk
]

unfoldable pub remove_mcp_server : Text → ConfigDisk → ConfigDisk × MergeOutcome
remove_mcp_server name disk = remove_entry default_container_key name disk
