-- ===== src/Secrets.antt =====
-- src/secret_scan.ts: the walk that looks for a secret in what a tool is about to send. The patterns
-- are one function, `scan_string`: the name of the first that matches a text.
pub mod Leaves
use macula_mcp.Base.{
  ℕ, suc, zero, Bool, true, false, Option, none, some, List, [], ◌∷◌, ◌++◌, Text, codes, first_some,
}
use macula_mcp.Json.{
  Value, null, bool, nat, num, text, arr, obj, Items, nil, cons, Fields, end, field,
}

-- `${path}[${i}]` and `${path}.${k}`
pub data Step : Type 0 where
  at_index : ℕ → Step
  at_key : Text → Step

-- The path is its steps from the leaf up, below the argument's label.
pub record SecretMatch : Type 0 where
  pub pattern_name : Text
  pub path : List Step

module _ (scan_string : Text → Option Text) where
  abbrev pub match_at : List Step → Option Text → Option SecretMatch
  match_at path none = none
  match_at path (some name) = some (record { pattern_name = name; path = path })

  -- `${k}=${v}` of a text that is not empty.
  unfoldable pub scan_key_value : Text → Value → List Step → Option SecretMatch
  scan_key_value k (text (c ∷ s)) path =
      match_at (at_key k ∷ path) (scan_string (k ++ codes "=" ++ c ∷ s))
  scan_key_value k v path = none

  unfoldable mutual
    pub find_likely_secret : Value → List Step → Option SecretMatch
    find_likely_secret (text s) path = match_at path (scan_string s)
    find_likely_secret (arr vs) path = scan_array 0 vs path
    find_likely_secret (obj fs) path = scan_object fs path
    find_likely_secret _ path = none

    pub scan_array : ℕ → Items → List Step → Option SecretMatch
    scan_array i nil path = none
    scan_array i (cons v vs) path =
        first_some (find_likely_secret v (at_index i ∷ path)) (scan_array (suc i) vs path)

    pub scan_object : Fields → List Step → Option SecretMatch
    scan_object end path = none
    scan_object (field k v fs) path =
        first_some (first_some (scan_key_value k v path) (find_likely_secret v (at_key k ∷ path)))
          (scan_object fs path)

  -- The exception of assertNoLikelySecret.
  unfoldable pub assert_no_likely_secret : Value → Option SecretMatch
  assert_no_likely_secret v = find_likely_secret v []
