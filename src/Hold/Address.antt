-- ===== src/Hold/Address.antt =====
-- src/hold_node_identity.ts: where an identity is held, and which directories are refused. Paths are
-- joined by the platform's library, which also counts bytes and finds a path's parent.
use macula_mcp.Base.{
  ℕ, ◌-◌, ◌%◌, ◌/◌, Bool, not, ◌&&◌, Option, none, some, List, [], ◌∷◌, ◌++◌, Text, codes, take,
  to_lower_case, leb, ◌==◌, if◌then◌else◌,
}

pub data Platform : Type 0 where
  linux win32 other : Platform

-- What lstat and stat give of a directory.
pub record DirStat : Type 0 where
  pub is_directory : Bool
  pub uid : ℕ
  pub mode : ℕ

pub record HoldPlace : Type 0 where
  pub platform : Platform
  pub directory : Text

-- The errors of ownerOnlyDirectory in their order, and that of shortEnoughSocketPath.
pub data HoldError : Type 0 where
  not_a_directory : HoldError
  owned_by mode_of parent_owned_by parent_mode : ℕ → HoldError
  path_too_long : ℕ → HoldError

-- mode & NOT_OWNER_BITS and mode & OTHERS_WRITE_BITS: 0o077 and 0o022.
abbrev pub not_owner_bits : ℕ → ℕ
not_owner_bits mode = mode % 64

abbrev pub others_may_write : ℕ → Bool
others_may_write mode = not ((mode / 2) % 2 == 0 && (mode / 16) % 2 == 0)

abbrev pub hold_id_hex : ℕ
hold_id_hex = 24

-- Below `uid`: nothing, or the error that is thrown.
unfoldable pub owner_only_parent : ℕ → DirStat → Option HoldError
owner_only_parent uid parent =
    if parent.uid == uid
    then if others_may_write parent.mode then some (parent_mode (parent.mode % 512)) else none
    else some (parent_owned_by parent.uid)

unfoldable pub owner_only_mode : ℕ → DirStat → DirStat → Option HoldError
owner_only_mode uid dir parent =
    if not_owner_bits dir.mode == 0
    then owner_only_parent uid parent
    else some (mode_of (dir.mode % 512))

unfoldable pub owner_only_directory : Platform → ℕ → DirStat → DirStat → Option HoldError
owner_only_directory win32 uid dir parent = none
owner_only_directory _ uid dir parent =
    if dir.is_directory
    then if dir.uid == uid then owner_only_mode uid dir parent else some (owned_by dir.uid)
    else some not_a_directory

-- SUN_PATH_LINUX or SUN_PATH_BSD, less SUN_PATH_NUL.
abbrev pub socket_path_max_bytes : Platform → ℕ
socket_path_max_bytes linux = 108 - 1
socket_path_max_bytes _ = 104 - 1

module _ (join : List Text → Text) (byte_length : Text → ℕ) where
  -- XDG_RUNTIME_DIR is used where it is an absolute path.
  unfoldable pub hold_directory :
      (is_absolute : Text → Bool) → (homedir : Text) → Option Text → Text
  hold_directory is_absolute homedir none =
      join (homedir ∷ codes ".config" ∷ codes "macula-mcp" ∷ codes "holds" ∷ [])
  hold_directory is_absolute homedir (some runtime) =
      if is_absolute runtime
      then join (runtime ∷ codes "macula-mcp" ∷ codes "holds" ∷ [])
      else join (homedir ∷ codes ".config" ∷ codes "macula-mcp" ∷ codes "holds" ∷ [])

  abbrev pub hold_name : Text → Text
  hold_name node_id = take hold_id_hex (to_lower_case node_id)

  abbrev pub suffix : Platform → Text
  suffix win32 = codes ".hold"
  suffix _ = codes ".sock"

  unfoldable pub identity_address : Text → HoldPlace → Text
  identity_address node_id place =
      join (place.directory ∷ (hold_name node_id ++ suffix place.platform) ∷ [])

  unfoldable pub short_enough_socket_path : Text → Platform → Option HoldError
  short_enough_socket_path address win32 = none
  short_enough_socket_path address platform =
      if leb (byte_length address) (socket_path_max_bytes platform)
      then none
      else some (path_too_long (byte_length address))

  -- The error that holdNodeIdentity throws before it holds anything.
  unfoldable pub refused_place : Text → HoldPlace → ℕ → DirStat → DirStat → Option HoldError
  refused_place node_id place uid dir parent =
      elim (owner_only_directory place.platform uid dir parent) [
        | some e ↦ some e
        | none ↦ short_enough_socket_path (identity_address node_id place) place.platform
      ]
