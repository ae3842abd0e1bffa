-- ===== src/Policy.antt =====
-- src/policy.ts: the operator's contact policy, from its file and an environment variable.
-- A file is what `JSON.parse` makes of its text; a problem text is a constructor of `Problem`.
pub mod Allowlist
use macula_mcp.Base.{
  ℕ, ◌≡◌, Bool, true, false, not, ◌&&◌, ◌||◌, Option, none, some, List, [], ◌∷◌, ◌++◌, map, Text,
  codes, same, length, any, is_hex64, to_lower_case, trim, leb, ◌==◌, if◌then◌else◌, get_or,
  first_some,
}
use macula_mcp.Json.{
  Value, null, bool, nat, num, text, arr, obj, Items, nil, cons, Fields, get, boolean_keys,
}

-- POLICY: open 1, ask 2, allowlist 3, closed 4.
pub data Policy : Type 0 where
  open_policy ask_policy allowlist_policy closed_policy : Policy

unfoldable pub policy_label : Policy → Text
policy_label open_policy = codes "open"
policy_label ask_policy = codes "ask"
policy_label allowlist_policy = codes "allowlist"
policy_label closed_policy = codes "closed"

-- POLICY_BY_NAME
abbrev pub policy_by_name : List (Text × Policy)
policy_by_name =
    (codes "open", open_policy)
    ∷ (codes "1", open_policy)
    ∷ (codes "ask", ask_policy)
    ∷ (codes "2", ask_policy)
    ∷ (codes "allowlist", allowlist_policy)
    ∷ (codes "3", allowlist_policy)
    ∷ (codes "closed", closed_policy)
    ∷ (codes "4", closed_policy)
    ∷ []

unfoldable pub named : Text → List (Text × Policy) → Option Policy
named s [] = none
named s ((name, p) ∷ ps) = let rest = named s ps in if same name s then some p else rest

-- `String(n)` is a name of the table for 1 to 4 only.
abbrev pub policy_of_number : ℕ → Option Policy
policy_of_number n =
    if n == 1
    then some open_policy
    else if n == 2
    then some ask_policy
    else if n == 3
    then some allowlist_policy
    else if n == 4
    then some closed_policy
    else none

unfoldable pub parse_policy : Option Value → Option Policy
parse_policy (some (nat n)) = policy_of_number n
parse_policy (some (num s)) = named s policy_by_name
parse_policy (some (text s)) = named (to_lower_case (trim s)) policy_by_name
parse_policy _ = named [] policy_by_name

pub data Problem : Type 0 where
  not_json top_level : Problem
  boolean_at : Text → Problem
  bad_contact_policy : Value → Problem
  allowlist_not_a_list offers_not_a_list : Problem
  bad_allowlist_entry bad_offers_entry : Value → Problem
  bad_env_policy : Text → Problem

-- One entry: kept in lower case, or a problem.
abbrev pub allowlist_entry : Value → List Text × List Problem
allowlist_entry (text s) =
    if is_hex64 s then (to_lower_case s ∷ [], []) else ([], bad_allowlist_entry (text s) ∷ [])
allowlist_entry v = ([], bad_allowlist_entry v ∷ [])

abbrev pub is_offer : Text → Bool
is_offer s = leb 1 (length (trim s)) && leb (length s) 64

abbrev pub offer_entry : Value → List Text × List Problem
offer_entry (text s) =
    if is_offer s then (trim s ∷ [], []) else ([], bad_offers_entry (text s) ∷ [])
offer_entry v = ([], bad_offers_entry v ∷ [])

-- The loop over the entries of a list.
abbrev pub collect : (Value → List Text × List Problem) → Items → List Text × List Problem
collect entry nil = ([], [])
collect entry (cons v vs) =
    ((entry v).0 ++ (collect entry vs).0, (entry v).1 ++ (collect entry vs).1)

unfoldable pub allowlist_entries : Option Value → List Text × List Problem
allowlist_entries none = ([], [])
allowlist_entries (some (arr vs)) = collect allowlist_entry vs
allowlist_entries (some v) = ([], allowlist_not_a_list ∷ [])

unfoldable pub offer_entries : Option Value → List Text × List Problem
offer_entries none = ([], [])
offer_entries (some (arr vs)) = collect offer_entry vs
offer_entries (some v) = ([], offers_not_a_list ∷ [])

pub record PolicyFile : Type 0 where
  pub contact_policy : Option Policy
  pub allowlist : List Text
  pub offers : List Text
  pub problems : List Problem

-- NO_POLICY_FILE
abbrev pub no_policy_file : PolicyFile
no_policy_file = record { contact_policy = none; allowlist = []; offers = []; problems = [] }

abbrev pub policy_problems : Option Value → List Problem
policy_problems none = []
policy_problems (some v) = elim (parse_policy (some v)) [
  | none ↦ bad_contact_policy v ∷ []
  | some p ↦ []
]

-- parsePolicyFile on an object.
unfoldable pub parse_policy_object : Fields → PolicyFile
parse_policy_object p =
    let (allowlist, allowlist_problems) = allowlist_entries (get (codes "allowlist") p) in
    let (offers, offer_problems) = offer_entries (get (codes "offers") p) in
    record {
      contact_policy = parse_policy (get (codes "contact_policy") p);
      allowlist = allowlist;
      offers = offers;
      problems =
          map boolean_at (boolean_keys p)
          ++ (policy_problems (get (codes "contact_policy") p)
              ++ (allowlist_problems ++ offer_problems));
    }

-- The argument is what `JSON.parse` gives, `none` where it throws.
unfoldable pub parse_policy_file : Option Value → PolicyFile
parse_policy_file none = record no_policy_file { problems = not_json ∷ [] }
parse_policy_file (some (obj p)) = parse_policy_object p
parse_policy_file (some v) = record no_policy_file { problems = top_level ∷ [] }

-- The policy file as the program finds it.
pub data PolicyStore : Type 0 where
  -- ENOENT, and any other failure to read
  no_file unreadable : PolicyStore
  -- a text that `JSON.parse` refuses, and one that it reads
  unparsable : PolicyStore
  parsed : Value → PolicyStore

-- readPolicyText with parsePolicyFile.
unfoldable pub file_contribution : PolicyStore → PolicyFile
file_contribution no_file = no_policy_file
file_contribution unreadable = no_policy_file
file_contribution unparsable = parse_policy_file none
file_contribution (parsed v) = parse_policy_file (some v)

abbrev pub is_blank : Text → Bool
is_blank s = leb (length (trim s)) 0

-- MACULA_MCP_CONTACT_POLICY, with its own problem.
unfoldable pub env_policy : Option Text → Option Policy × List Problem
env_policy none = (none, [])
env_policy (some raw) = if is_blank raw then (none, []) else elim (parse_policy (some (text raw))) [
  | none ↦ (none, bad_env_policy raw ∷ [])
  | some p ↦ (some p, [])
]

pub data Source : Type 0 where
  env file default : Source

unfoldable pub policy_source : Option Policy → Option Policy → Source
policy_source (some p) from_file = env
policy_source none (some p) = file
policy_source none none = default

pub record ContactPolicy : Type 0 where
  pub contact_policy : Policy
  pub allowlist : List Text
  pub offers : List Text
  pub source : Source
  pub problems : List Problem

unfoldable pub load_contact_policy : Option Text → PolicyStore → ContactPolicy
load_contact_policy raw store =
    let from_file = file_contribution store in
    let (from_env, env_problems) = env_policy raw in
    record {
      contact_policy = get_or (first_some from_env from_file.contact_policy) ask_policy;
      allowlist = from_file.allowlist;
      offers = from_file.offers;
      source = policy_source from_env from_file.contact_policy;
      problems = from_file.problems ++ env_problems;
    }

unfoldable pub is_allowlisted : ContactPolicy → Text → Bool
is_allowlisted policy node_id = any (same (to_lower_case node_id)) policy.allowlist
