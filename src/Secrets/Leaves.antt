-- ===== src/Secrets/Leaves.antt =====
-- src/secret_scan.ts: what the walk looks at.
use macula_mcp.Base.{
  ℕ, suc, ◌≡◌, refl, sym, Bool, ◌||◌, Option, none, some, List, [], ◌∷◌, ◌++◌, Text, codes,
  first_some, is_some, any, arith,
}
use macula_mcp.Json.{
  Value, null, bool, nat, num, text, arr, obj, Items, nil, cons, Fields, end, field,
}
use macula_mcp.Secrets.{
  Step, at_index, at_key, SecretMatch, match_at, scan_key_value, find_likely_secret, scan_array,
  scan_object, assert_no_likely_secret,
}

-- A key with its text, as a line of an environment file.
abbrev pub assignment : Text → Value → List Text
assignment k (text (c ∷ s)) = (k ++ codes "=" ++ c ∷ s) ∷ []
assignment k v = []

-- Every text of a value, and every key with its text, at every depth.
mutual
  pub texts : Value → List Text
  texts (text s) = s ∷ []
  texts (arr vs) = item_texts vs
  texts (obj fs) = field_texts fs
  texts _ = []

  pub item_texts : Items → List Text
  item_texts nil = []
  item_texts (cons v vs) = texts v ++ item_texts vs

  pub field_texts : Fields → List Text
  field_texts end = []
  field_texts (field k v fs) = assignment k v ++ (texts v ++ field_texts fs)

any-append : (p : Text → Bool) (xs ys : List Text) → any p (xs ++ ys) ≡ any p xs || any p ys
any-append p [] ys = refl
any-append p (x ∷ xs) ys = ground (arith, any-append p xs ys)

three :
    (a b c : Option SecretMatch)
    → is_some (first_some (first_some a b) c) ≡ is_some a || (is_some b || is_some c)
three none none c = refl
three none (some b) c = refl
three (some a) b c = refl

is_some-first_some : (a b : Option SecretMatch) → is_some (first_some a b) ≡ is_some a || is_some b
is_some-first_some none b = refl
is_some-first_some (some a) b = refl

module _ (scan_string : Text → Option Text) where
  abbrev pub is_secret : Text → Bool
  is_secret s = is_some (scan_string s)

  is_some-match_at :
      (path : List Step) (s : Text)
      → is_some (match_at scan_string path (scan_string s)) ≡ any is_secret (s ∷ [])
  is_some-match_at path s = ground arith

  is_some-scan_key_value :
      (k : Text) (v : Value) (path : List Step)
      → is_some (scan_key_value scan_string k v path) ≡ any is_secret (assignment k v)
  unfolding scan_key_value
  is_some-scan_key_value k v path = ground arith

  scanned-texts :
      (xs ys zs : List Text) (a b c : Option SecretMatch)
      → is_some a ≡ any is_secret xs
      → is_some b ≡ any is_secret ys
      → is_some c ≡ any is_secret zs
      → is_some (first_some (first_some a b) c) ≡ any is_secret (xs ++ (ys ++ zs))
  scanned-texts xs ys zs a b c ea eb ec =
      rw (any-append is_secret xs (ys ++ zs), any-append is_secret ys zs, sym ea, sym eb, sym ec)
        (three a b c)

  mutual
    unfolding find_likely_secret texts

    found :
        (v : Value) (path : List Step)
        → is_some (find_likely_secret scan_string v path) ≡ any is_secret (texts v)
    found null path = refl
    found (bool b) path = refl
    found (nat n) path = refl
    found (num s) path = refl
    found (text s) path = is_some-match_at path s
    found (arr vs) path = found_in_array 0 vs path
    found (obj fs) path = found_in_object fs path

    found_in_array :
        (i : ℕ) (vs : Items) (path : List Step)
        → is_some (scan_array scan_string i vs path) ≡ any is_secret (item_texts vs)
    found_in_array i nil path = refl
    found_in_array i (cons v vs) path =
        rw
          (
            is_some-first_some (find_likely_secret scan_string v (at_index i ∷ path))
                (scan_array scan_string (suc i) vs path),
            any-append is_secret (texts v) (item_texts vs),
            found v (at_index i ∷ path),
            found_in_array (suc i) vs path,
          )
          refl

    found_in_object :
        (fs : Fields) (path : List Step)
        → is_some (scan_object scan_string fs path) ≡ any is_secret (field_texts fs)
    found_in_object end path = refl
    found_in_object (field k v fs) path =
        scanned-texts (assignment k v) (texts v) (field_texts fs)
          (scan_key_value scan_string k v path) (find_likely_secret scan_string v (at_key k ∷ path))
          (scan_object scan_string fs path) (is_some-scan_key_value k v path)
          (found v (at_key k ∷ path)) (found_in_object fs path)

  -- The walk misses nothing and invents nothing: a value is refused exactly when one of its texts, at
  -- any depth, or one of its keys with its text as `key=value`, matches a pattern.
  pub assert_no_likely_secret_lem :
      (v : Value) → is_some (assert_no_likely_secret scan_string v) ≡ any is_secret (texts v)
  unfolding assert_no_likely_secret
  assert_no_likely_secret_lem v = found v []
