-- ===== src/Tests/Configs.antt =====
-- Tests of the configuration merge.
use macula_mcp.Base.{◌≡◌, ◌⊎◌, refl, true, false, some, [], Text, codes, same}
use macula_mcp.Json.{text, arr, obj, nil, cons, Fields, end, field, get}
use macula_mcp.Config.{
  holds, ConfigDisk, merge_entry, existing_entry_result, read_config, unchanged, replaced,
  skipped_conflict, default_container_key,
}
use macula_mcp.Config.Equal.{deep_equal, same_keys}
use macula_mcp.Config.Merge.{merge_entry_lem, server_at, value_at}

abbrev macula : Text
macula = codes "macula"

abbrev entry : Fields
entry =
    field (codes "command") (text (codes "npx"))
      (field (codes "args") (arr (cons (text (codes "-y")) nil)) end)

-- A file with another server, another setting, and an older entry.
abbrev client_file : Fields
client_file = field (codes "theme") (text (codes "dark")) (
    field default_container_key
      (obj (
        field (codes "other") (obj end)
          (field macula (obj (field (codes "command") (text (codes "node")) end)) end)))
      end)

abbrev before : ConfigDisk
before = record { config = holds client_file; backups = [] }

merge_entry_lem_example :
    let after = (merge_entry default_container_key macula (obj entry) true before).0 in
    ((after ≡ before)
      ⊎ ((server_at default_container_key macula after.config ≡ some (obj entry))
          × (merge_entry default_container_key macula (obj entry) false after
              ≡ (after, unchanged))))
    × (((m : Text)
          → same macula m ≡ false
          → server_at default_container_key m after.config
            ≡ server_at default_container_key m before.config)
        × ((j : Text)
            → same default_container_key j ≡ false
            → value_at j after.config ≡ value_at j before.config))
unfolding macula_mcp.Config.Equal.once_each same
merge_entry_lem_example = merge_entry_lem default_container_key macula entry true false before refl

forced_outcome :
    ((merge_entry default_container_key macula (obj entry) true before).1 ≡ replaced)
    × ((merge_entry default_container_key macula (obj entry) false before).1 ≡ skipped_conflict)
unfolding merge_entry read_config existing_entry_result get same deep_equal same_keys
forced_outcome = (refl, refl)
