-- ===== src/Config/Equal.antt =====
-- src/install/config_merge.ts: sameKeys and deepEqual on decoded values. The keys of an array are
-- the decimal texts of its indices.
use macula_mcp.Base.{
  ℕ, zero, suc, ◌+◌, ◌/◌, ◌%◌, ◌≡◌, refl, Bool, true, false, not, ◌&&◌, ◌||◌, none, some, [], ◌∷◌,
  ◌++◌, Text, same, same_refl, same_iff, ltb, ◌==◌, if◌then◌else◌, arith, and_left, and_right,
}
use macula_mcp.Json.{
  Value, null, bool, nat, num, text, arr, obj, Items, nil, cons, Fields, end, field, get,
}

abbrev digits : ℕ → ℕ → Text
digits zero n = []
digits (suc fuel) n =
    let rest = digits fuel (n / 10) in
    if ltb n 10 then (b'0' + n) ∷ [] else rest ++ (b'0' + n % 10) ∷ []

abbrev index_name : ℕ → Text
index_name n = digits (suc n) n

abbrev indexed : ℕ → Items → Fields
indexed n nil = end
indexed n (cons v vs) = field (index_name n) v (indexed (suc n) vs)

abbrev pub has_field : Text → Fields → Bool
has_field k end = false
has_field k (field j v fs) = same j k || has_field k fs

abbrev pub field_count : Fields → ℕ
field_count end = 0
field_count (field k v fs) = suc (field_count fs)

abbrev pub keys_in : Fields → Fields → Bool
keys_in end b = true
keys_in (field k v fs) b = has_field k b && keys_in fs b

-- The sorted keys of two objects are equal: as many, and the first's among the second's.
unfoldable pub same_keys : Fields → Fields → Bool
same_keys a b = field_count a == field_count b && keys_in a b

abbrev same_bool : Bool → Bool → Bool
same_bool true b = b
same_bool false b = not b

unfoldable mutual
  pub deep_equal : Value → Value → Bool
  deep_equal null null = true
  deep_equal (bool a) (bool b) = same_bool a b
  deep_equal (nat a) (nat b) = a == b
  deep_equal (num a) (num b) = same a b
  deep_equal (text a) (text b) = same a b
  deep_equal (arr vs) (arr ws) = equal_items vs ws
  deep_equal (arr vs) (obj gs) = same_keys (indexed 0 vs) gs && items_equal 0 vs gs
  deep_equal (obj fs) (obj gs) = same_keys fs gs && fields_equal fs gs
  deep_equal (obj fs) (arr ws) = same_keys fs (indexed 0 ws) && fields_equal fs (indexed 0 ws)
  deep_equal _ _ = false

  pub equal_items : Items → Items → Bool
  equal_items nil nil = true
  equal_items (cons v vs) (cons w ws) = deep_equal v w && equal_items vs ws
  equal_items _ _ = false

  pub items_equal : ℕ → Items → Fields → Bool
  items_equal n nil gs = true
  items_equal n (cons v vs) gs =
      elim (get (index_name n) gs) [ none ↦ false | some w ↦ deep_equal v w ]
      && items_equal (suc n) vs gs

  pub fields_equal : Fields → Fields → Bool
  fields_equal end gs = true
  fields_equal (field k v fs) gs =
      elim (get k gs) [ none ↦ false | some w ↦ deep_equal v w ] && fields_equal fs gs

-- A decoded value: an object has each key once, at every depth.
unfoldable mutual
  pub is_decoded : Value → Bool
  is_decoded (arr vs) = all_decoded vs
  is_decoded (obj fs) = once_each fs
  is_decoded _ = true

  pub all_decoded : Items → Bool
  all_decoded nil = true
  all_decoded (cons v vs) = is_decoded v && all_decoded vs

  pub once_each : Fields → Bool
  once_each end = true
  once_each (field k v fs) = not (has_field k fs) && (is_decoded v && once_each fs)

-- The fields of an object, found in a larger one in which the same keys mean the same.
keys_in-more :
    (fs gs : Fields) (k : Text) (v : Value)
    → keys_in fs gs ≡ true
    → keys_in fs (field k v gs) ≡ true
keys_in-more end gs k v h = refl
keys_in-more (field j w fs) gs k v h = ground (arith, keys_in-more fs gs k v)

keys_in_refl : (fs : Fields) → keys_in fs fs ≡ true
keys_in_refl end = refl
keys_in_refl (field k v fs) = ground (arith, same_refl k, keys_in-more fs fs k v, keys_in_refl fs)

fields_equal-more :
    (fs gs : Fields) (k : Text) (v : Value)
    → has_field k fs ≡ false
    → fields_equal fs gs ≡ true
    → fields_equal fs (field k v gs) ≡ true
unfolding deep_equal get
fields_equal-more end gs k v new h = refl
fields_equal-more (field j w fs) gs k v new h =
    ground (arith, fields_equal-more fs gs k v, same_iff k j, same_iff j k)

mutual
  unfolding deep_equal is_decoded same_keys get

  refl_deep_equal : (v : Value) → is_decoded v ≡ true → deep_equal v v ≡ true
  refl_deep_equal null h = refl
  refl_deep_equal (bool true) h = refl
  refl_deep_equal (bool false) h = refl
  refl_deep_equal (nat n) h = ground arith
  refl_deep_equal (num s) h = same_refl s
  refl_deep_equal (text s) h = same_refl s
  refl_deep_equal (arr vs) h = refl_equal_items vs h
  refl_deep_equal (obj fs) h = ground (arith, keys_in_refl fs, refl_fields_equal fs h)

  refl_equal_items : (vs : Items) → all_decoded vs ≡ true → equal_items vs vs ≡ true
  refl_equal_items nil h = refl
  refl_equal_items (cons v vs) h =
      rw (refl_deep_equal v (and_left (is_decoded v) (all_decoded vs) h))
        (refl_equal_items vs (and_right (is_decoded v) (all_decoded vs) h))

  refl_fields_equal : (fs : Fields) → once_each fs ≡ true → fields_equal fs fs ≡ true
  refl_fields_equal end h = refl
  refl_fields_equal (field k v fs) h =
      let inner = and_right (not (has_field k fs)) (is_decoded v && once_each fs) h in
      rw (same_refl k, refl_deep_equal v (and_left (is_decoded v) (once_each fs) inner))
        (fields_equal-more fs fs k v (ground arith)
          (refl_fields_equal fs (and_right (is_decoded v) (once_each fs) inner)))

pub deep_equal_obj : (fs : Fields) → once_each fs ≡ true → deep_equal (obj fs) (obj fs) ≡ true
unfolding is_decoded
deep_equal_obj fs h = refl_deep_equal (obj fs) h
