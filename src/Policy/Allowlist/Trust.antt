-- ===== src/Policy/Allowlist/Trust.antt =====
-- src/policy.ts: addToAllowlist and removeFromAllowlist, and the policy loaded after them.
use macula_mcp.Base.{
  ◌≡◌, refl, sym, ap, ◌∙◌, Bool, true, false, ◌⊎◌, inl, inr, Option, none, some, Text, codes, same,
  is_some, is_hex64, to_lower_case, to_lower_case_idem, arith, Bool-cases,
}
use macula_mcp.Json.{obj, Fields, end, get}
use macula_mcp.Json.Lookup.{get-put_self, get-put_ne}
use macula_mcp.Policy.{
  Policy, open_policy, ask_policy, allowlist_policy, closed_policy, named, parse_policy,
  parse_policy_object, parse_policy_file, PolicyStore, no_file, unreadable, unparsable, parsed,
  file_contribution, load_contact_policy, is_allowlisted,
}
use macula_mcp.Policy.Allowlist.{
  Raw, raw, broken, read_raw_policy_file, raw_allowlist, trusted_policy, Mutation, done, Failure,
  trusted_raw, without, untrusted_raw, add_to_allowlist, remove_from_allowlist, MutationResult,
  write,
}
use macula_mcp.Policy.Allowlist.Listed.{
  key_in, file_policy, is_unset_or_ask, any-added, collect-listed, collect-unlisted,
  raw_allowlist-IsLowered, without-IsLowered, any-without, loaded_allowlist, trusted_allowlist,
  trusted_contact_policy,
}

-- What a successful mutation did.
add_cases :
    (node_id : Text) (can_write : Bool) (store store' : PolicyStore) (m : Mutation)
    → add_to_allowlist node_id can_write store ≡ (store', done m)
    → (p : Fields) × (read_raw_policy_file store ≡ raw p)
      × (parsed (obj (trusted_raw (to_lower_case node_id) p)) ≡ store')
      × (is_hex64 (to_lower_case node_id) ≡ true)
unfolding add_to_allowlist
add_cases node_id can_write store store' m h = ground arith

remove_cases :
    (node_id : Text) (can_write : Bool) (store store' : PolicyStore) (m : Mutation)
    → remove_from_allowlist node_id can_write store ≡ (store', done m)
    → (p : Fields) × (read_raw_policy_file store ≡ raw p)
      × (parsed (obj (untrusted_raw (to_lower_case node_id) p)) ≡ store')
unfolding remove_from_allowlist
remove_cases node_id can_write store store' m h = ground arith

-- Where an object could be read, a missing file counts as the empty object.
raw_policy :
    (store : PolicyStore) (p : Fields)
    → read_raw_policy_file store ≡ raw p
    → file_policy store ≡ parse_policy (get (codes "contact_policy") p)
unfolding read_raw_policy_file file_contribution parse_policy_file parse_policy_object parse_policy
    named get same
raw_policy no_file p h = let e : end ≡ p = ground arith in rw (← e)
raw_policy unreadable p h = cc
raw_policy unparsable p h = cc
raw_policy (parsed (obj q)) p h = let e : q ≡ p = ground arith in rw e
raw_policy (parsed _) p h = cc

raw_key :
    (store : PolicyStore) (p : Fields) (k : Text)
    → read_raw_policy_file store ≡ raw p
    → key_in k store ≡ get k p
unfolding read_raw_policy_file get
raw_key no_file p k h = let e : end ≡ p = ground arith in rw (← e)
raw_key unreadable p k h = cc
raw_key unparsable p k h = cc
raw_key (parsed (obj q)) p k h = let e : q ≡ p = ground arith in rw e
raw_key (parsed _) p k h = cc

-- A policy before and after, as `trusted_policy` decides.
abbrev IsSwitched : Option Policy → Option Policy → Type 0
IsSwitched before after =
    ((is_unset_or_ask before ≡ true) × (after ≡ some allowlist_policy))
    ⊎ ((is_unset_or_ask before ≡ false) × (after ≡ before))

trusted_policy-IsSwitched :
    (before : Option Policy) → IsSwitched before (some (trusted_policy before).0)
unfolding trusted_policy
trusted_policy-IsSwitched none = inl (refl, refl)
trusted_policy-IsSwitched (some open_policy) = inr (refl, refl)
trusted_policy-IsSwitched (some ask_policy) = inl (refl, refl)
trusted_policy-IsSwitched (some allowlist_policy) = inr (refl, refl)
trusted_policy-IsSwitched (some closed_policy) = inr (refl, refl)

listed :
    (node_id : Text) (raw_env : Option Text) (p : Fields)
    → is_hex64 (to_lower_case node_id) ≡ true
    → is_allowlisted
        (load_contact_policy raw_env (parsed (obj (trusted_raw (to_lower_case node_id) p))))
        node_id
      ≡ true
unfolding is_allowlisted
listed node_id raw_env p hex =
    rw (loaded_allowlist raw_env _ _ (trusted_allowlist (to_lower_case node_id) p)) (
      collect-listed (to_lower_case node_id) _ hex (to_lower_case_idem node_id)
        (any-added (to_lower_case node_id) _))

switched :
    (id : Text) (store : PolicyStore) (p : Fields)
    → read_raw_policy_file store ≡ raw p
    → IsSwitched (file_policy store) (file_policy (parsed (obj (trusted_raw id p))))
unfolding file_contribution parse_policy_file parse_policy_object
switched id store p read =
    rw (raw_policy store p read, trusted_contact_policy id p) (trusted_policy-IsSwitched _)

kept :
    (id : Text) (store : PolicyStore) (p : Fields) (k : Text)
    → read_raw_policy_file store ≡ raw p
    → same (codes "allowlist") k ≡ false
    → same (codes "contact_policy") k ≡ false
    → get k (trusted_raw id p) ≡ key_in k store
kept id store p k read ka kc =
    get-put_ne k (codes "contact_policy") _ _ kc
    ∙ get-put_ne k (codes "allowlist") _ p ka
    ∙ sym (raw_key store p k read)

add_to_allowlist_lem :
    (node_id : Text) (can_write : Bool) (store store' : PolicyStore) (m : Mutation)
    (raw_env : Option Text) (k : Text)
    → add_to_allowlist node_id can_write store ≡ (store', done m)
    → same (codes "allowlist") k ≡ false
    → same (codes "contact_policy") k ≡ false
    → (is_allowlisted (load_contact_policy raw_env store') node_id ≡ true)
      × IsSwitched (file_policy store) (file_policy store')
      × (key_in k store' ≡ key_in k store)
add_to_allowlist_lem node_id can_write store store' m raw_env k h ka kc =
    let (p, read, after, hex) = add_cases node_id can_write store store' m h in
    rw (← after) (
      listed node_id raw_env p hex,
      switched (to_lower_case node_id) store p read,
      kept (to_lower_case node_id) store p k read ka kc,
    )

-- The file says nothing of contact_policy, or names one of the four policies.
abbrev pub IsPlain : PolicyStore → Type 0
IsPlain store =
    (key_in (codes "contact_policy") store ≡ none) ⊎ (is_some (file_policy store) ≡ true)

-- The file's own policy before and after: unset and ask become allowlist, the rest stays.
abbrev pub IsFlipped : PolicyStore → PolicyStore → Type 0
IsFlipped store store' =
    (((key_in (codes "contact_policy") store ≡ none) ⊎ (file_policy store ≡ some ask_policy))
      × (file_policy store' ≡ some allowlist_policy))
    ⊎ ((is_unset_or_ask (file_policy store) ≡ false) × (file_policy store' ≡ file_policy store))

ask_of : (p : Option Policy) → is_some p ≡ true → is_unset_or_ask p ≡ true → p ≡ some ask_policy
ask_of none s h = cc
ask_of (some open_policy) s h = cc
ask_of (some ask_policy) s h = refl
ask_of (some allowlist_policy) s h = cc
ask_of (some closed_policy) s h = cc

flipped :
    (store store' : PolicyStore)
    → IsPlain store
    → IsSwitched (file_policy store) (file_policy store')
    → IsFlipped store store'
flipped store store' plain (inr stays) = inr stays
flipped store store' (inl unset) (inl (_, after)) = inl (inl unset, after)
flipped store store' (inr known) (inl (flips, after)) =
    inl (inr (ask_of (file_policy store) known flips), after)

-- After a node has been added to a file that says nothing of contact_policy or names a policy:
-- whatever the environment says, the policy that is loaded next lists the node. The file's own
-- policy becomes allowlist if it was unset or ask, and only then; otherwise it is what it was.
-- Every key but `allowlist` and `contact_policy` keeps its value.
pub add_to_allowlist-trusts :
    (node_id : Text) (can_write : Bool) (store store' : PolicyStore) (m : Mutation)
    (raw_env : Option Text) (k : Text)
    → IsPlain store
    → add_to_allowlist node_id can_write store ≡ (store', done m)
    → same (codes "allowlist") k ≡ false
    → same (codes "contact_policy") k ≡ false
    → (is_allowlisted (load_contact_policy raw_env store') node_id ≡ true)
      × IsFlipped store store'
      × (key_in k store' ≡ key_in k store)
add_to_allowlist-trusts node_id can_write store store' m raw_env k plain h ka kc =
    let (lists, switches, keeps) =
      add_to_allowlist_lem node_id can_write store store' m raw_env k h ka kc in
    (lists, flipped store store' plain switches, keeps)

unlisted :
    (node_id : Text) (raw_env : Option Text) (p : Fields)
    → is_allowlisted
        (load_contact_policy raw_env (parsed (obj (untrusted_raw (to_lower_case node_id) p))))
        node_id
      ≡ false
unfolding is_allowlisted
unlisted node_id raw_env p =
    rw
      (loaded_allowlist raw_env (untrusted_raw (to_lower_case node_id) p)
        (without (to_lower_case node_id) (raw_allowlist (get (codes "allowlist") p)))
        (get-put_self (codes "allowlist") _ p))
      (collect-unlisted (to_lower_case node_id) _
        (without-IsLowered (to_lower_case node_id) _
          (raw_allowlist-IsLowered (get (codes "allowlist") p)))
        (any-without (to_lower_case node_id) (raw_allowlist (get (codes "allowlist") p))))

unswitched :
    (id : Text) (store : PolicyStore) (p : Fields)
    → read_raw_policy_file store ≡ raw p
    → file_policy (parsed (obj (untrusted_raw id p))) ≡ file_policy store
unfolding file_contribution parse_policy_file parse_policy_object same
unswitched id store p read =
    rw (raw_policy store p read)
      (ap parse_policy (get-put_ne (codes "contact_policy") (codes "allowlist") _ p refl))

-- After a node has been removed: whatever the environment says, the policy that is loaded next does
-- not list the node, however its id is spelled in the file; the file's own policy is what it was;
-- and every key but `allowlist` keeps its value.
pub remove_from_allowlist-distrusts :
    (node_id : Text) (can_write : Bool) (store store' : PolicyStore) (m : Mutation)
    (raw_env : Option Text) (k : Text)
    → remove_from_allowlist node_id can_write store ≡ (store', done m)
    → same (codes "allowlist") k ≡ false
    → (is_allowlisted (load_contact_policy raw_env store') node_id ≡ false)
      × (file_policy store' ≡ file_policy store)
      × (key_in k store' ≡ key_in k store)
remove_from_allowlist-distrusts node_id can_write store store' m raw_env k h ka =
    let (p, read, after) = remove_cases node_id can_write store store' m h in
    rw (← after) (
      unlisted node_id raw_env p,
      unswitched (to_lower_case node_id) store p read,
      get-put_ne k (codes "allowlist") _ p ka ∙ sym (raw_key store p k read),
    )

abbrev pub IsDoneOrUnchanged : PolicyStore → PolicyStore × MutationResult → Type 0
IsDoneOrUnchanged store r = ((m : Mutation) × (r.1 ≡ done m)) ⊎ (r.0 ≡ store)

raw_result : (r : Raw) → ((p : Fields) × (r ≡ raw p)) ⊎ ((f : Failure) × (r ≡ broken f))
raw_result (raw p) = inl (p, refl)
raw_result (broken f) = inr (f, refl)

write_cases :
    (can_write : Bool) (next : Fields) (m : Mutation) (store : PolicyStore)
    → IsDoneOrUnchanged store (write can_write next m store)
write_cases true next m store = inl (m, refl)
write_cases false next m store = inr refl

add_outcome :
    (node_id : Text) (can_write : Bool) (store : PolicyStore)
    → IsDoneOrUnchanged store (add_to_allowlist node_id can_write store)
unfolding add_to_allowlist
add_outcome node_id can_write store = elim (Bool-cases (is_hex64 (to_lower_case node_id))) [
  | inl hex ↦ elim (raw_result (read_raw_policy_file store)) [
    | inl (p, e) ↦ rw (hex, add_to_allowlist, e) (write_cases can_write _ _ store)
    | inr (f, e) ↦ rw (hex, add_to_allowlist, e) (inr refl)
  ]
  | inr bad ↦ rw bad (inr refl)
]

remove_outcome :
    (node_id : Text) (can_write : Bool) (store : PolicyStore)
    → IsDoneOrUnchanged store (remove_from_allowlist node_id can_write store)
unfolding remove_from_allowlist
remove_outcome node_id can_write store = elim (raw_result (read_raw_policy_file store)) [
  | inl (p, e) ↦ rw (e, remove_from_allowlist) (write_cases can_write _ _ store)
  | inr (f, e) ↦ rw (e, remove_from_allowlist) (inr refl)
]

broken_outcome :
    (node_id : Text) (can_write : Bool) (store : PolicyStore)
    → ((p : Fields) × (read_raw_policy_file store ≡ raw p))
      ⊎ (((add_to_allowlist node_id can_write store).0 ≡ store)
          × ((remove_from_allowlist node_id can_write store).0 ≡ store))
unfolding add_to_allowlist remove_from_allowlist
broken_outcome node_id can_write store = elim (raw_result (read_raw_policy_file store)) [
  | inl readable ↦ inl readable
  | inr (f, e) ↦ inr (ground arith, ground arith)
]

-- Adding and removing each either report that they are done, or leave the file as it was; a file
-- that is there and cannot be read or parsed as an object is left as it was in any case.
mutation_failed :
    (node_id : Text) (can_write : Bool) (store : PolicyStore)
    → IsDoneOrUnchanged store (add_to_allowlist node_id can_write store)
      × IsDoneOrUnchanged store (remove_from_allowlist node_id can_write store)
      × (((p : Fields) × (read_raw_policy_file store ≡ raw p))
          ⊎ (((add_to_allowlist node_id can_write store).0 ≡ store)
              × ((remove_from_allowlist node_id can_write store).0 ≡ store)))
mutation_failed node_id can_write store = (
  add_outcome node_id can_write store,
  remove_outcome node_id can_write store,
  broken_outcome node_id can_write store,
)
