-- ===== src/Json.antt =====
-- Decoded payloads and files: what `JSON.parse` or the wire hands the program.
pub mod Lookup
use macula_mcp.Base.{
  ℕ, Bool, true, false, ◌&&◌, Option, none, some, List, [], ◌∷◌, Text, same, if◌then◌else◌,
}

-- `nat n` is a number that is a non-negative integer. `num s` is any other number, by what
-- `String` makes of it. A list and an object have list types of their own.
mutual
  pub data Value : Type 0 where
    null : Value
    bool : Bool → Value
    nat : ℕ → Value
    num : Text → Value
    text : Text → Value
    arr : Items → Value
    obj : Fields → Value

  pub data Items : Type 0 where
    nil : Items
    cons : Value → Items → Items

  pub data Fields : Type 0 where
    end : Fields
    field : Text → Value → Fields → Fields

abbrev pub items : Items → List Value
items nil = []
items (cons v vs) = v ∷ items vs

-- `p[key]`, with `none` for undefined. The keys of an object are distinct.
unfoldable pub get : Text → Fields → Option Value
get k end = none
get k (field j v fs) = if same j k then some v else get k fs

abbrev pub entries : Fields → List (Text × Value)
entries end = []
entries (field k v fs) = (k, v) ∷ entries fs

-- `p[key] = v`, in the key's place or at the end.
unfoldable pub put : Text → Value → Fields → Fields
put k v end = field k v end
put k v (field j w fs) = if same j k then field j v fs else field j w (put k v fs)

-- `typeof v === "string"`, with the string.
abbrev pub as_text : Option Value → Option Text
as_text (some (text s)) = some s
as_text _ = none

abbrev pub is_bool : Value → Bool
is_bool (bool b) = true
is_bool _ = false

-- `p[key] as string`, `as number` and `as string[]`, for a value that was checked before.
abbrev pub text_of : Option Value → Text
text_of (some (text s)) = s
text_of _ = []

abbrev pub nat_of : Option Value → ℕ
nat_of (some (nat n)) = n
nat_of _ = 0

abbrev pub texts_in : Items → List Text
texts_in nil = []
texts_in (cons (text s) vs) = s ∷ texts_in vs
texts_in (cons _ vs) = texts_in vs

abbrev pub texts_of : Option Value → List Text
texts_of (some (arr vs)) = texts_in vs
texts_of _ = []

-- `v !== undefined`, and the cast of a value that is there.
abbrev pub is_present : Option Value → Bool
is_present none = false
is_present (some v) = true

abbrev pub optional_text : Option Value → Option Text
optional_text none = none
optional_text (some v) = some (text_of (some v))

abbrev pub optional_texts : Option Value → Option (List Text)
optional_texts none = none
optional_texts (some v) = some (texts_of (some v))

-- `Array.isArray(v) && v.every((s) => typeof s === "string" && p(s))`
abbrev pub every_text : (Text → Bool) → Items → Bool
every_text p nil = true
every_text p (cons (text s) vs) = p s && every_text p vs
every_text p (cons _ vs) = false

abbrev pub is_list_of : (Text → Bool) → Value → Bool
is_list_of p (arr vs) = every_text p vs
is_list_of p _ = false

-- `{ ...(v !== undefined ? { key: v } : {}), ...rest }`
abbrev pub opt : Text → Option Value → Fields → Fields
opt key none rest = rest
opt key (some v) rest = field key v rest

abbrev pub arr_of_texts : List Text → Items
arr_of_texts [] = nil
arr_of_texts (s ∷ ss) = cons (text s) (arr_of_texts ss)

-- The names of the keys that hold a boolean, in the object's order.
abbrev pub boolean_keys : Fields → List Text
boolean_keys end = []
boolean_keys (field k v fs) = let rest = boolean_keys fs in if is_bool v then k ∷ rest else rest
