-- ===== src/Tests/Trusts.antt =====
-- Tests of the contact policy and of the allowlist in its file.
use macula_mcp.Base.{
  ◌≡◌, inr, refl, true, false, none, some, codes, same, to_lower_case, is_hex64, trim,
}
use macula_mcp.Json.{text, obj, field, end, get, put}
use macula_mcp.Policy.{
  allowlist_policy, PolicyStore, parsed, load_contact_policy, is_allowlisted, parse_policy, named,
  policy_label, file_contribution, parse_policy_file, parse_policy_object,
}
use macula_mcp.Policy.Allowlist.{
  Mutation, add_to_allowlist, remove_from_allowlist, read_raw_policy_file, raw_allowlist,
  trusted_policy,
}
use macula_mcp.Policy.Allowlist.Listed.{key_in, file_policy}
use macula_mcp.Policy.Allowlist.Trust.{
  IsFlipped, add_to_allowlist-trusts, remove_from_allowlist-distrusts,
}
use macula_mcp.Tests.{bob}

-- A file that asks, and names an offer under another key.
abbrev asking : PolicyStore
asking = parsed (
    obj (
      field (codes "contact_policy") (text (codes "ask"))
        (field (codes "note") (text (codes "hi")) end)))

abbrev trusting : PolicyStore
trusting = (add_to_allowlist bob true asking).0

abbrev trusted : Mutation
trusted = record {
  node_id = bob;
  allowlist_size = 1;
  contact_policy = allowlist_policy;
  policy_changed = true;
}

add_to_allowlist-trusts_example :
    (is_allowlisted (load_contact_policy none trusting) bob ≡ true)
    × IsFlipped asking trusting
    × (key_in (codes "note") trusting ≡ key_in (codes "note") asking)
unfolding add_to_allowlist read_raw_policy_file raw_allowlist trusted_policy parse_policy same
    to_lower_case is_hex64 get put named trim file_contribution parse_policy_file
    parse_policy_object
add_to_allowlist-trusts_example =
    add_to_allowlist-trusts bob true asking trusting trusted none (codes "note") (inr refl) refl
      refl refl

remove_from_allowlist-distrusts_example :
    (is_allowlisted
        (load_contact_policy (some (codes "open")) (remove_from_allowlist bob true trusting).0)
        bob
      ≡ false)
    × (file_policy (remove_from_allowlist bob true trusting).0 ≡ file_policy trusting)
    × (key_in (codes "note") (remove_from_allowlist bob true trusting).0
        ≡ key_in (codes "note") trusting)
unfolding add_to_allowlist remove_from_allowlist read_raw_policy_file raw_allowlist trusted_policy
    parse_policy same to_lower_case is_hex64 get put named trim policy_label
remove_from_allowlist-distrusts_example =
    remove_from_allowlist-distrusts bob true trusting (remove_from_allowlist bob true trusting).0
      (record {
        node_id = bob;
        allowlist_size = 0;
        contact_policy = allowlist_policy;
        policy_changed = false;
      })
      (some (codes "open")) (codes "note") refl refl
