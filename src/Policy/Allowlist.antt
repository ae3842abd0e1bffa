-- ===== src/Policy/Allowlist.antt =====
-- src/policy.ts: adding a node to the allowlist in the file, and removing one.
pub mod Listed
pub mod Trust
use macula_mcp.Base.{
  ℕ, ◌≡◌, Bool, true, false, not, Option, none, some, List, [], ◌∷◌, ◌++◌, Text, codes, same,
  length, any, keep, is_hex64, to_lower_case, if◌then◌else◌, get_or,
}
use macula_mcp.Json.{
  Value, text, arr, obj, Items, nil, cons, Fields, end, get, put, texts_in, arr_of_texts,
}
use macula_mcp.Policy.{
  Policy, ask_policy, allowlist_policy, policy_label, parse_policy, PolicyStore, no_file,
  unreadable, unparsable, parsed,
}

pub data Failure : Type 0 where
  not_a_node_id cannot_read not_valid_json not_an_object cannot_write : Failure

pub data Raw : Type 0 where
  raw : Fields → Raw
  broken : Failure → Raw

unfoldable pub read_raw_policy_file : PolicyStore → Raw
read_raw_policy_file no_file = raw end
read_raw_policy_file unreadable = broken cannot_read
read_raw_policy_file unparsable = broken not_valid_json
read_raw_policy_file (parsed (obj p)) = raw p
read_raw_policy_file (parsed v) = broken not_an_object

abbrev pub lower_texts : List Text → List Text
lower_texts [] = []
lower_texts (s ∷ ss) = to_lower_case s ∷ lower_texts ss

-- rawAllowlist: the strings of the list, in lower case; other entries are left out.
unfoldable pub raw_allowlist : Option Value → List Text
raw_allowlist (some (arr vs)) = lower_texts (texts_in vs)
raw_allowlist _ = []

unfoldable pub trusted_policy : Option Policy → Policy × Bool
trusted_policy none = (allowlist_policy, true)
trusted_policy (some ask_policy) = (allowlist_policy, true)
trusted_policy (some p) = (p, false)

pub record Mutation : Type 0 where
  pub node_id : Text
  pub allowlist_size : ℕ
  pub contact_policy : Policy
  pub policy_changed : Bool

pub data MutationResult : Type 0 where
  done : Mutation → MutationResult
  failed : Failure → MutationResult

abbrev pub added : Text → List Text → List Text
added id existing = if any (same id) existing then existing else existing ++ id ∷ []

abbrev pub list_value : List Text → Value
list_value ids = arr (arr_of_texts ids)

-- What addToAllowlist writes.
abbrev pub trusted_raw : Text → Fields → Fields
trusted_raw id p =
    put (codes "contact_policy")
      (text (policy_label (trusted_policy (parse_policy (get (codes "contact_policy") p))).0))
      (put (codes "allowlist") (list_value (added id (raw_allowlist (get (codes "allowlist") p))))
        p)

-- What removeFromAllowlist writes.
abbrev pub without : Text → List Text → List Text
without id = keep (λ e. not (same e id))

abbrev pub untrusted_raw : Text → Fields → Fields
untrusted_raw id p =
    put (codes "allowlist") (list_value (without id (raw_allowlist (get (codes "allowlist") p)))) p

-- writeRawPolicyFile: `can_write` says whether the file system takes the write.
abbrev pub write : Bool → Fields → Mutation → PolicyStore → PolicyStore × MutationResult
write true next m store = (parsed (obj next), done m)
write false next m store = (store, failed cannot_write)

unfoldable pub add_to_allowlist : Text → Bool → PolicyStore → PolicyStore × MutationResult
add_to_allowlist node_id can_write store =
    if is_hex64 (to_lower_case node_id)
    then elim (read_raw_policy_file store) [
      | broken f ↦ (store, failed f)
      | raw p ↦
          write can_write (trusted_raw (to_lower_case node_id) p)
            (record {
              node_id = to_lower_case node_id;
              allowlist_size =
                  length
                    (added (to_lower_case node_id) (raw_allowlist (get (codes "allowlist") p)));
              contact_policy = (trusted_policy (parse_policy (get (codes "contact_policy") p))).0;
              policy_changed = (trusted_policy (parse_policy (get (codes "contact_policy") p))).1;
            })
            store
    ]
    else (store, failed not_a_node_id)

unfoldable pub remove_from_allowlist : Text → Bool → PolicyStore → PolicyStore × MutationResult
remove_from_allowlist node_id can_write store = elim (read_raw_policy_file store) [
  | broken f ↦ (store, failed f)
  | raw p ↦
      write can_write (untrusted_raw (to_lower_case node_id) p)
        (record {
          node_id = to_lower_case node_id;
          allowlist_size =
              length (without (to_lower_case node_id) (raw_allowlist (get (codes "allowlist") p)));
          contact_policy = get_or (parse_policy (get (codes "contact_policy") p)) ask_policy;
          policy_changed = false;
        })
        store
]
