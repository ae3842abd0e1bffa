-- ===== src/Policy/Allowlist/Listed.antt =====
-- src/policy.ts: reading an allowlist that was written back by loadContactPolicy.
use macula_mcp.Base.{
  ◌≡◌, refl, ◌∙◌, Bool, true, false, ◌||◌, Option, none, some, List, [], ◌∷◌, ◌++◌, Text, codes,
  same, same_refl, same_iff, any, is_hex64, to_lower_case, trim, to_lower_case_idem, arith,
}
use macula_mcp.Json.{Value, text, arr, obj, Fields, get, put, texts_in, arr_of_texts}
use macula_mcp.Json.Lookup.{get-put_self, get-put_ne}
use macula_mcp.Policy.{
  Policy, open_policy, ask_policy, policy_label, named, parse_policy, allowlist_entry, collect,
  allowlist_entries, parse_policy_object, parse_policy_file, PolicyStore, parsed, file_contribution,
  load_contact_policy,
}
use macula_mcp.Policy.Allowlist.{
  raw_allowlist, lower_texts, trusted_policy, added, list_value, trusted_raw, without,
}

-- A key of the object in the file.
abbrev pub key_in : Text → PolicyStore → Option Value
key_in k (parsed (obj p)) = get k p
key_in k _ = none

-- The policy that the file itself sets.
abbrev pub file_policy : PolicyStore → Option Policy
file_policy store = (file_contribution store).contact_policy

abbrev pub is_unset_or_ask : Option Policy → Bool
is_unset_or_ask none = true
is_unset_or_ask (some ask_policy) = true
is_unset_or_ask (some _) = false

parse-label : (p : Policy) → parse_policy (some (text (policy_label p))) ≡ some p
unfolding parse_policy policy_label named to_lower_case same trim
parse-label open_policy = refl
parse-label _ = refl

any-append_self : (id : Text) (xs : List Text) → any (same id) (xs ++ id ∷ []) ≡ true
any-append_self id [] = ground (arith, same_refl id)
any-append_self id (x ∷ xs) = ground (arith, any-append_self id xs)

pub any-added : (id : Text) (ids : List Text) → any (same id) (added id ids) ≡ true
any-added id ids = ground (arith, any-append_self id ids)

any-append :
    (id : Text) (xs ys : List Text)
    → any (same id) (xs ++ ys) ≡ (any (same id) xs || any (same id) ys)
any-append id [] ys = refl
any-append id (x ∷ xs) ys = ground (arith, any-append id xs ys)

-- Reading the written list keeps a node id that is in it.
pub collect-listed :
    (id : Text) (ids : List Text)
    → is_hex64 id ≡ true
    → to_lower_case id ≡ id
    → any (same id) ids ≡ true
    → any (same id) (collect allowlist_entry (arr_of_texts ids)).0 ≡ true
collect-listed id [] h l m = cc
collect-listed id (s ∷ ids) h l m = ground (
  arith,
  same_iff id s,
  same_refl id,
  any-append id (allowlist_entry (text s)).0 (collect allowlist_entry (arr_of_texts ids)).0,
  collect-listed id ids h l,
)

-- Reading the written list makes up no node id, if its entries are in lower case.
abbrev IsLowered : List Text → Type 0
IsLowered [] = Unit {0}
IsLowered (s ∷ ss) = (to_lower_case s ≡ s) × IsLowered ss

pub collect-unlisted :
    (id : Text) (ids : List Text)
    → IsLowered ids
    → any (same id) ids ≡ false
    → any (same id) (collect allowlist_entry (arr_of_texts ids)).0 ≡ false
collect-unlisted id [] l m = refl
collect-unlisted id (s ∷ ids) l m = ground (
  arith,
  any-append id (allowlist_entry (text s)).0 (collect allowlist_entry (arr_of_texts ids)).0,
  collect-unlisted id ids l.1,
)

lower_texts-IsLowered : (ss : List Text) → IsLowered (lower_texts ss)
lower_texts-IsLowered [] = tt
lower_texts-IsLowered (s ∷ ss) = (to_lower_case_idem s, lower_texts-IsLowered ss)

pub raw_allowlist-IsLowered : (v : Option Value) → IsLowered (raw_allowlist v)
unfolding raw_allowlist
raw_allowlist-IsLowered (some (arr vs)) = lower_texts-IsLowered (texts_in vs)
raw_allowlist-IsLowered none = tt
raw_allowlist-IsLowered (some _) = tt

pub without-IsLowered : (id : Text) (ids : List Text) → IsLowered ids → IsLowered (without id ids)
without-IsLowered id [] l = tt
without-IsLowered id (s ∷ ids) l = ground (arith, without-IsLowered id ids l.1)

pub any-without : (id : Text) (ids : List Text) → any (same id) (without id ids) ≡ false
any-without id [] = refl
any-without id (s ∷ ids) = ground (arith, same_iff id s, same_iff s id, any-without id ids)

-- The list of the loaded policy is what is read from the file's key.
pub loaded_allowlist :
    (raw_env : Option Text) (p : Fields) (ids : List Text)
    → get (codes "allowlist") p ≡ some (list_value ids)
    → (load_contact_policy raw_env (parsed (obj p))).allowlist
      ≡ (collect allowlist_entry (arr_of_texts ids)).0
unfolding load_contact_policy file_contribution parse_policy_file parse_policy_object
    allowlist_entries
loaded_allowlist raw_env p ids h = rw h

pub trusted_allowlist :
    (id : Text) (p : Fields)
    → get (codes "allowlist") (trusted_raw id p)
      ≡ some (list_value (added id (raw_allowlist (get (codes "allowlist") p))))
unfolding same
trusted_allowlist id p = get-put_ne _ _ _ _ refl ∙ get-put_self _ _ p

pub trusted_contact_policy :
    (id : Text) (p : Fields)
    → parse_policy (get (codes "contact_policy") (trusted_raw id p))
      ≡ some (trusted_policy (parse_policy (get (codes "contact_policy") p))).0
trusted_contact_policy id p =
    rw
      (get-put_self (codes "contact_policy")
        (text (policy_label (trusted_policy (parse_policy (get (codes "contact_policy") p))).0))
        (put (codes "allowlist") (list_value (added id (raw_allowlist (get (codes "allowlist") p))))
          p))
      (parse-label _)
