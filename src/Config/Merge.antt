-- ===== src/Config/Merge.antt =====
-- src/install/config_merge.ts: what a merge and a removal leave in the file.
use macula_mcp.Base.{
  ◌≡◌, ◌≢◌, ◌⊎◌, inl, inr, refl, Bool, true, false, Option, none, some, Text, same, same_refl,
  same_iff, if◌then◌else◌, arith, get_or, Option-cases,
}
use macula_mcp.Json.{Value, obj, Fields, end, field, get, put}
use macula_mcp.Json.Lookup.{get-put_self, get-put_ne}
use macula_mcp.Config.{
  ConfigFile, malformed, holds, ConfigDisk, MergeOutcome, unchanged, refused, read_config, backup,
  servers_of, existing_entry_result, written, merge_into, merge_entry, without_server, removed,
  remove_entry,
}
use macula_mcp.Config.Equal.{once_each, deep_equal_obj, has_field}

-- What a client reads of a file: a top-level value, and the entry of a server.
abbrev pub value_at : Text → ConfigFile → Option Value
value_at key c = get key (get_or (read_config c) end)

abbrev pub server_at : Text → Text → ConfigFile → Option Value
server_at key name c = get name (servers_of (value_at key c))

-- A merge changes nothing, or it writes the entry after a copy of the file.
pub data Merged (key name : Text) (entry : Value) (disk : ConfigDisk)
    : ConfigDisk × MergeOutcome → Type 0 where
  left_alone : (o : MergeOutcome) → Merged key name entry disk (disk, o)
  wrote :
      (o : MergeOutcome) (existing : Fields)
      → read_config disk.config ≡ some existing
      → Merged key name entry disk
          (record { config = holds (written key name entry existing); backups = backup disk }, o)

merge_entry-Merged :
    (key name : Text) (entry : Value) (force : Bool) (disk : ConfigDisk)
    → Merged key name entry disk (merge_entry key name entry force disk)
unfolding merge_entry
merge_entry-Merged key name entry force disk = elim (Option-cases (read_config disk.config)) [
  | inl broken ↦ rw (broken, merge_entry) (left_alone refused)
  | inr (existing, there) ↦
      elim (Option-cases
        (existing_entry_result (get name (servers_of (get key existing))) entry force)) [
          | inr (o, settled) ↦ rw (there, merge_entry, merge_into, settled) (left_alone o)
          | inl goes ↦ rw (there, merge_entry, merge_into, goes) (wrote _ existing there)
        ]
]

-- The object that a merge writes, read by a client.
servers-written :
    (key name m : Text) (entry : Value) (existing : Fields)
    → get m (servers_of (get key (written key name entry existing)))
      ≡ (if same name m then some entry else get m (servers_of (get key existing)))
servers-written key name m entry existing =
    let servers = servers_of (get key existing) in
    ground (
      arith,
      get-put_self key (obj (put name entry servers)) existing,
      get-put_self name entry servers,
      get-put_ne m name entry servers,
      same_iff name m,
    )

written_self :
    (key name : Text) (entry : Value) (existing : Fields)
    → get name (servers_of (get key (written key name entry existing))) ≡ some entry
written_self key name entry existing =
    ground (arith, servers-written key name name entry existing, same_refl name)

-- A file that has the entry is left alone.
merge-present :
    (key name : Text) (es : Fields) (force : Bool) (disk : ConfigDisk) (existing : Fields)
    → once_each es ≡ true
    → read_config disk.config ≡ some existing
    → get name (servers_of (get key existing)) ≡ some (obj es)
    → merge_entry key name (obj es) force disk ≡ (disk, unchanged)
unfolding merge_entry existing_entry_result
merge-present key name es force disk existing once there has =
    rw (there, merge_entry, merge_into, has, existing_entry_result, deep_equal_obj es once) refl

Merged-kept :
    (key name : Text) (es : Fields) (again : Bool) (disk : ConfigDisk)
    → once_each es ≡ true
    → {after : ConfigDisk × MergeOutcome} → Merged key name (obj es) disk after
    → ((after.0 ≡ disk)
        ⊎ ((server_at key name after.0.config ≡ some (obj es))
            × (merge_entry key name (obj es) again after.0 ≡ (after.0, unchanged))))
      × (((m : Text)
            → same name m ≡ false
            → server_at key m after.0.config ≡ server_at key m disk.config)
          × ((j : Text) → same key j ≡ false → value_at j after.0.config ≡ value_at j disk.config))
unfolding read_config
Merged-kept key name es again disk once (left_alone o) = (inl refl, ((λ m h. refl), (λ j h. refl)))
Merged-kept key name es again disk once (wrote o existing there) = (
  inr (
    written_self key name (obj es) existing,
    merge-present key name es again
        (record { config = holds (written key name (obj es) existing); backups = backup disk })
        (written key name (obj es) existing) once refl (written_self key name (obj es) existing),
  ),
  (
    (λ m h. ground (arith, there, h, servers-written key name m (obj es) existing)),
    (λ j h. ground (
      arith,
      there,
      h,
      get-put_ne j key (obj (put name (obj es) (servers_of (get key existing)))) existing,
    )),
  ),
)

-- Merging the entry of a server, under any container key, with or without --force, into any file:
-- the file is left alone, or the server's entry is the given one and a re-run, forced or not, is a
-- no-op. Either way every other server's entry and every other top-level value is what it was. The
-- entry is an object that has each key once.
pub merge_entry_lem :
    (key name : Text) (es : Fields) (force again : Bool) (disk : ConfigDisk)
    → once_each es ≡ true
    → let after = (merge_entry key name (obj es) force disk).0 in
      ((after ≡ disk)
        ⊎ ((server_at key name after.config ≡ some (obj es))
            × (merge_entry key name (obj es) again after ≡ (after, unchanged))))
      × (((m : Text)
            → same name m ≡ false
            → server_at key m after.config ≡ server_at key m disk.config)
          × ((j : Text) → same key j ≡ false → value_at j after.config ≡ value_at j disk.config))
merge_entry_lem key name es force again disk once =
    Merged-kept key name es again disk once (merge_entry-Merged key name (obj es) force disk)

get-without_server :
    (m name : Text) (fs : Fields)
    → get m (without_server name fs) ≡ (if same name m then none else get m fs)
unfolding get without_server
get-without_server m name end = ground arith
get-without_server m name (field k v fs) =
    ground (arith, get-without_server m name fs, same_iff k name, same_iff k m, same_iff name m)

get-absent : (k : Text) (fs : Fields) → has_field k fs ≡ false → get k fs ≡ none
unfolding get
get-absent k end h = refl
get-absent k (field j v fs) h = ground (arith, get-absent k fs)

servers-removed :
    (key name m : Text) (existing : Fields)
    → get m (servers_of (get key (removed key name existing)))
      ≡ (if same name m then none else get m (servers_of (get key existing)))
servers-removed key name m existing =
    let servers = servers_of (get key existing) in
    ground (
      arith,
      get-put_self key (obj (without_server name servers)) existing,
      get-without_server m name servers,
    )

-- Removing a server from a file that can be read leaves it without that server; every other
-- server's entry and every other top-level value is what it was.
remove_entry_lem :
    (key name : Text) (disk : ConfigDisk)
    → disk.config ≢ malformed
    → let after = (remove_entry key name disk).0 in
      (server_at key name after.config ≡ none)
      × (((m : Text)
            → same name m ≡ false
            → server_at key m after.config ≡ server_at key m disk.config)
          × ((j : Text) → same key j ≡ false → value_at j after.config ≡ value_at j disk.config))
unfolding remove_entry read_config get
remove_entry_lem key name disk ok =
    let existing = get_or (read_config disk.config) end in
    (
      ground (
        arith,
        ok,
        servers-removed key name name existing,
        get-absent name (servers_of (get key existing)),
        same_refl name,
      ),
      (
        (λ m h. ground (arith, ok, h, servers-removed key name m existing)),
        (λ j h. ground (
          arith,
          ok,
          h,
          get-put_ne j key (obj (without_server name (servers_of (get key existing)))) existing,
        )),
      ),
    )
