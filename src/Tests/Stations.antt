-- ===== src/Tests/Stations.antt =====
-- Tests of what the environment configures.
use macula_mcp.Base.{
  ◌≡◌, refl, true, false, Option, none, some, List, [], ◌∷◌, ◌++◌, Text, codes, all, length,
}
use macula_mcp.MeshConfig.{
  Configured, given, mesh_error, no_node_id, bad_node_id, bad_agent, Seed, default_seeds,
  entries_of, seeds, parse_seed, agent_name, split_realm_prefix, realms_disagree, Prefixed,
}
use macula_mcp.MeshConfig.Pinned.{Gives, StationsOf, seeds-StationsOf}

abbrev node : Text
node = codes "00CD0008ec2e72b6572b7bf6fc8b048d7fe83993faf1fc544370f2bc1eb71f85"

abbrev node_in_lower_case : Text
node_in_lower_case = codes "00cd0008ec2e72b6572b7bf6fc8b048d7fe83993faf1fc544370f2bc1eb71f85"

abbrev listed : Text
listed = codes "[::1]:4433@" ++ node ++ codes " ,, station.example:80@" ++ node

seeds-StationsOf_example : Gives (StationsOf (some listed)) (seeds (some listed))
seeds-StationsOf_example = seeds-StationsOf (some listed)

two_stations :
    seeds (some listed)
    ≡ given (
        record { host = codes "::1"; port = 4433; node_id = node_in_lower_case }
        ∷ record { host = codes "station.example"; port = 80; node_id = node_in_lower_case }
        ∷ [])
unfolding seeds macula_mcp.MeshConfig.read_each entries_of macula_mcp.MeshConfig.split_at_commas
    macula_mcp.Base.trim parse_seed macula_mcp.MeshConfig.seed_entry macula_mcp.MeshConfig.span
    macula_mcp.Base.is_hex64 macula_mcp.Base.to_lower_case
two_stations = refl

unpinned : seeds (some (codes "station.example:80")) ≡ mesh_error no_node_id
unfolding seeds macula_mcp.MeshConfig.read_each entries_of macula_mcp.MeshConfig.split_at_commas
    macula_mcp.Base.trim parse_seed
unpinned = refl

short_id : seeds (some (codes "station.example:80@00cd")) ≡ mesh_error bad_node_id
unfolding seeds macula_mcp.MeshConfig.read_each entries_of macula_mcp.MeshConfig.split_at_commas
    macula_mcp.Base.trim parse_seed macula_mcp.MeshConfig.seed_entry macula_mcp.MeshConfig.span
    macula_mcp.Base.is_hex64
short_id = refl

not_a_file_name : agent_name (some (codes "../a")) ≡ mesh_error bad_agent
unfolding agent_name macula_mcp.Base.to_lower_case
not_a_file_name = refl

of_another_realm :
    split_realm_prefix (node ++ codes "/agents/hello") (some (codes "ff"))
    ≡ mesh_error realms_disagree
unfolding split_realm_prefix macula_mcp.MeshConfig.span macula_mcp.Base.is_hex64
    macula_mcp.Base.same macula_mcp.Base.to_lower_case
of_another_realm = refl
