-- ===== src/Json/Lookup.antt =====
-- Reading back the keys of an object that is written out.
use macula_mcp.Base.{
  ◌≡◌, refl, ap, false, Option, none, some, List, [], ◌∷◌, Text, same, same_refl, same_iff, arith,
}
use macula_mcp.Json.{Value, Fields, field, end, get, put, opt, texts_in, arr_of_texts}

pub get-field_self : (k : Text) (v : Value) (fs : Fields) → get k (field k v fs) ≡ some v
unfolding get
get-field_self k v fs = rw (same_refl k)

pub get-field_ne :
    (k j : Text) (v : Value) (fs : Fields) → same j k ≡ false → get k (field j v fs) ≡ get k fs
unfolding get
get-field_ne k j v fs h = rw h

pub get-opt_ne :
    (k j : Text) (o : Option Value) (fs : Fields) → same j k ≡ false → get k (opt j o fs) ≡ get k fs
get-opt_ne k j none fs h = refl
get-opt_ne k j (some v) fs h = get-field_ne k j v fs h

pub get-opt_self :
    (k : Text) (o : Option Value) (fs : Fields) → get k fs ≡ none → get k (opt k o fs) ≡ o
get-opt_self k none fs h = h
get-opt_self k (some v) fs h = get-field_self k v fs

pub texts_in-arr_of_texts : (ss : List Text) → texts_in (arr_of_texts ss) ≡ ss
texts_in-arr_of_texts [] = refl
texts_in-arr_of_texts (s ∷ ss) = ap (λ (r : List Text). s ∷ r) (texts_in-arr_of_texts ss)

-- A write is read back, and leaves the other keys alone.
pub get-put_self : (k : Text) (v : Value) (fs : Fields) → get k (put k v fs) ≡ some v
unfolding put get
get-put_self k v end = get-field_self k v end
get-put_self k v (field j w fs) = ground (arith, same_iff j k, get-put_self k v fs)

pub get-put_ne :
    (k j : Text) (v : Value) (fs : Fields) → same j k ≡ false → get k (put j v fs) ≡ get k fs
unfolding put get
get-put_ne k j v end h = get-field_ne k j v end h
get-put_ne k j v (field i w fs) h = ground (arith, same_iff i j, get-put_ne k j v fs)
