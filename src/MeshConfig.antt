-- ===== src/MeshConfig.antt =====
-- src/mesh_config.ts: what the environment configures: stations, trusted realms, the key's file, the
-- agent's name, and the realm prefix of a procedure. A variable that is not set is none. A port is
-- the number that its digits write; the digest of a realm's name is a parameter.
pub mod Pinned
pub mod Prefix
use macula_mcp.Base.{
  ℕ, ◌+◌, ◌-◌, ◌*◌, ◌%◌, ◌≡◌, Bool, true, false, not, ◌&&◌, ◌||◌, Option, none, some, List, [], ◌∷◌,
  ◌++◌, map, Text, codes, same, trim, is_space, is_digit, is_hex, is_hex64, to_lower_case, all, any,
  keep, length, leb, ◌==◌, if◌then◌else◌,
}

pub data ConfigError : Type 0 where
  no_node_id no_port bad_node_id bad_realm bad_kem both_set bad_agent realms_disagree : ConfigError

-- A value, or a MeshError.
pub data Configured {ℓ} (A : Type ℓ) : Type ℓ where
  given : A → Configured A
  mesh_error : ConfigError → Configured A

pub record Seed : Type 0 where
  pub host : Text
  pub port : ℕ
  pub node_id : Text

-- The longest run that a class of characters matches, and what is behind it.
unfoldable pub span : (ℕ → Bool) → Text → Text × Text
span p [] = ([], [])
span p (c ∷ s) = let rest = span p s in if p c then (c ∷ rest.0, rest.1) else ([], c ∷ s)

abbrev pub cons_to_first : ℕ → List Text → List Text
cons_to_first c [] = (c ∷ []) ∷ []
cons_to_first c (l ∷ ls) = (c ∷ l) ∷ ls

unfoldable pub split_at_commas : Text → List Text
split_at_commas [] = [] ∷ []
split_at_commas (c ∷ s) =
    let rest = split_at_commas s in if c == b',' then [] ∷ rest else cons_to_first c rest

abbrev pub is_filled : Text → Bool
is_filled [] = false
is_filled (c ∷ s) = true

-- The entries of a list, trimmed, those that are not empty.
unfoldable pub entries_of : Text → List Text
entries_of list = keep is_filled (map trim (split_at_commas list))

abbrev pub collected {ℓ} : {A : Type ℓ} → Configured A → Configured (List A) → Configured (List A)
collected (mesh_error e) rest = mesh_error e
collected (given a) (mesh_error e) = mesh_error e
collected (given a) (given more) = given (a ∷ more)

unfoldable pub read_each {ℓ} :
    {A : Type ℓ} → (Text → Configured A) → List Text → Configured (List A)
read_each read [] = given []
read_each read (t ∷ ts) = collected (read t) (read_each read ts)

abbrev pub number_of : ℕ → Text → ℕ
number_of n [] = n
number_of n (d ∷ ds) = number_of (10 * n + (d - b'0')) ds

-- /:(\d+)@([0-9a-fA-F]+)$/ behind a host.
abbrev pub seed_node : Text → ℕ → Text × Text → Option Seed
seed_node host port (hex, []) =
    if is_filled hex then some (record { host = host; port = port; node_id = hex }) else none
seed_node host port (hex, c ∷ s) = none

abbrev pub seed_port : Text → Text × Text → Option Seed
seed_port host (digits, []) = none
seed_port host (digits, c ∷ s) =
    if is_filled digits && c == b'@'
    then seed_node host (number_of 0 digits) (span is_hex s)
    else none

abbrev pub seed_tail : Text → Text → Option Seed
seed_tail host [] = none
seed_tail host (c ∷ s) =
    if is_filled host && c == b':' then seed_port host (span is_digit s) else none

abbrev pub is_host_unit : ℕ → Bool
is_host_unit c = not (c == b':' || (c == b'@' || is_space c))

-- The two alternatives of SEED_ENTRY.
abbrev pub bracketed : Text × Text → Option Seed
bracketed (host, []) = none
bracketed (host, c ∷ s) = seed_tail host s

abbrev pub seed_v6 : Text → Option Seed
seed_v6 [] = none
seed_v6 (c ∷ s) = if c == b'[' then bracketed (span (λ d. not (d == b']')) s) else none

abbrev pub seed_plain : Text → Option Seed
seed_plain s = let (host, rest) = span is_host_unit s in seed_tail host rest

unfoldable pub seed_entry : Text → Option Seed
seed_entry s = elim (seed_v6 s) [ some m ↦ some m | none ↦ seed_plain s ]

abbrev pub pinned_seed : Seed → Configured Seed
pinned_seed m =
    if is_hex64 m.node_id
    then given (record m { node_id = to_lower_case m.node_id })
    else mesh_error bad_node_id

abbrev pub pinned_match : Option Seed → Configured Seed
pinned_match none = mesh_error no_port
pinned_match (some m) = pinned_seed m

unfoldable pub parse_seed : Text → Configured Seed
parse_seed entry =
    if any (λ c. c == b'@') entry then pinned_match (seed_entry entry) else mesh_error no_node_id

abbrev pub station : Text → Text → Seed
station host node_id = record { host = host; port = 4433; node_id = node_id }

abbrev pub default_seeds : List Seed
default_seeds =
    station (codes "station-de-frankfurt.macula.io")
      (codes "00cd0008ec2e72b6572b7bf6fc8b048d7fe83993faf1fc544370f2bc1eb71f85")
    ∷ station (codes "station-de-nuremberg.macula.io")
        (codes "00a9b4143e24ae42e5a058dd28c9aab585636acd17012cc4d418a3bb5413af22")
    ∷ station (codes "station-de-falkenstein.macula.io")
        (codes "00df68247d119685f94030afdb203ab7a2a105fb6093a964dbf0509a57e86435")
    ∷ station (codes "station-fi-helsinki.macula.io")
        (codes "004d1f470097ccf8826ce291900e882fdb1f20375e53901facaec0f23eb4efd8")
    ∷ station (codes "station-fr-paris.macula.io")
        (codes "0063acc4a5af409ca6b15041975128d389222c48366fb3a1dfb948da01f7ca94")
    ∷ station (codes "station-nl-ams.macula.io")
        (codes "000370eebafa9a89a44c9448b4796788fbff1885abd67c80d681d28cebb04b0c")
    ∷ []

-- MACULA_MESH_STATIONS
unfoldable pub seeds : Option Text → Configured (List Seed)
seeds (some (c ∷ s)) = read_each parse_seed (entries_of (c ∷ s))
seeds _ = given default_seeds

pub record RealmTrust : Type 0 where
  pub realm : Text
  pub key : Text

abbrev pub trust_behind : Text → Text → Configured RealmTrust
trust_behind realm key =
    if is_hex64 realm && (is_filled key && (all is_hex key && length key % 2 == 0))
    then given (record { realm = to_lower_case realm; key = to_lower_case key })
    else mesh_error bad_realm

abbrev pub trust_split : Text × Text → Configured RealmTrust
trust_split (realm, []) = mesh_error bad_realm
trust_split (realm, c ∷ key) = if c == b'=' then trust_behind realm key else mesh_error bad_realm

unfoldable pub parse_trust : Text → Configured RealmTrust
parse_trust entry = trust_split (span is_hex entry)

-- MACULA_MESH_REALMS, behind io.macula.
unfoldable pub realm_trust : RealmTrust → Option Text → Configured (List RealmTrust)
realm_trust io_macula (some (c ∷ s)) =
    collected (given io_macula) (read_each parse_trust (entries_of (c ∷ s)))
realm_trust io_macula _ = given (io_macula ∷ [])

-- MACULA_MCP_KEM_ADVERTISE
unfoldable pub kem_advertise : Option Text → Configured Bool
kem_advertise none = given false
kem_advertise (some v) =
    if same v [] || same v (codes "0")
    then given false
    else if same v (codes "1")
    then given true
    else mesh_error bad_kem

abbrev pub is_name_start : ℕ → Bool
is_name_start c = leb b'a' c && leb c b'z' || (is_digit c || c == b'_')

abbrev pub is_agent_name : Text → Bool
is_agent_name [] = false
is_agent_name (c ∷ s) =
    is_name_start c && (all (λ d. is_name_start d || d == b'-') s && leb (length s) 63)

-- MACULA_MCP_AGENT
unfoldable pub agent_name : Option Text → Configured (Option Text)
agent_name (some (c ∷ s)) =
    let name = to_lower_case (c ∷ s) in
    if is_agent_name name then given (some name) else mesh_error bad_agent
agent_name _ = given none

abbrev pub key_file : Text → Option Text → Text
key_file scope_key (some agent) = codes "agent-" ++ agent ++ codes ".key"
key_file scope_key none = scope_key ++ codes ".key"

-- The path that MACULA_MCP_IDENTITY pins, or the name of a file beside the other keys.
pub data KeyPath : Type 0 where
  pinned_at in_keys : Text → KeyPath

abbrev pub path_of : Text → Option Text → Option Text → Configured KeyPath
path_of scope_key none (some (c ∷ s)) = given (pinned_at (c ∷ s))
path_of scope_key (some agent) (some (c ∷ s)) = mesh_error both_set
path_of scope_key agent pinned = given (in_keys (key_file scope_key agent))

unfoldable pub node_key_path : Text → Option Text → Option Text → Configured KeyPath
node_key_path scope_key agent pinned = elim (agent_name agent) [
  | mesh_error e ↦ mesh_error e
  | given name ↦ path_of scope_key name pinned
]

pub record Prefixed : Type 0 where
  pub procedure : Text
  pub realm : Option Text

-- `.` of a pattern matches no line end.
abbrev pub is_line_end : ℕ → Bool
is_line_end c = c == 10 || (c == 13 || (c == 0x2028 || c == 0x2029))

abbrev pub is_bare : Text → Bool
is_bare [] = false
is_bare (c ∷ s) = all (λ d. not (is_line_end d)) (c ∷ s)

-- REALM_PREFIXED_PROCEDURE: the realm and the bare procedure.
abbrev pub prefix_behind : Text × Text → Option (Text × Text)
prefix_behind (realm, []) = none
prefix_behind (realm, c ∷ bare) =
    if c == b'/' && (is_hex64 realm && is_bare bare) then some (realm, bare) else none

abbrev pub agreed : Text → Text → Option Text → Configured Prefixed
agreed prefixed bare (some (c ∷ s)) =
    if same (to_lower_case (c ∷ s)) (to_lower_case prefixed)
    then given (record { procedure = bare; realm = some (to_lower_case prefixed) })
    else mesh_error realms_disagree
agreed prefixed bare realm =
    given (record { procedure = bare; realm = some (to_lower_case prefixed) })

abbrev pub split_by : Text → Option Text → Option (Text × Text) → Configured Prefixed
split_by procedure realm none = given (record { procedure = procedure; realm = realm })
split_by procedure realm (some (prefixed, bare)) = agreed prefixed bare realm

unfoldable pub split_realm_prefix : Text → Option Text → Configured Prefixed
split_realm_prefix procedure realm =
    split_by procedure realm (prefix_behind (span is_hex procedure))
