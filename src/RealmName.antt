-- ===== src/RealmName.antt =====
-- src/realm_name.ts: the names of realms that an operator types, and the address of a realm. The
-- text of a rejection is a constructor of `Rejection` here.
pub mod Labels
pub mod Url
pub mod Accepted
use macula_mcp.Base.{
  ℕ, ◌+◌, Bool, true, false, not, ◌&&◌, ◌||◌, Option, none, some, List, [], ◌∷◌, ◌++◌, reverse,
  Text, codes, trim, to_lower_case, starts_with, length, all, ltb, leb, ◌==◌, if◌then◌else◌,
  is_digit,
}

abbrev pub max_length : ℕ
max_length = 253

abbrev pub min_labels : ℕ
min_labels = 2

pub data Rejection : Type 0 where
  empty too_long not_ascii empty_label few_labels : Rejection
  bad_label punycode : Text → Rejection

pub data Parsed : Type 0 where
  -- canonical and labels
  named : Text → List Text → Parsed
  rejected : Rejection → Parsed

abbrev pub dot : ℕ
dot = 46

abbrev pub cons_first : ℕ → List Text → List Text
cons_first c [] = (c ∷ []) ∷ []
cons_first c (l ∷ ls) = (c ∷ l) ∷ ls

-- `split(".")`
abbrev pub split : Text → List Text
split [] = [] ∷ []
split (c ∷ s) = let rest = split s in if c == dot then [] ∷ rest else cons_first c rest

-- `join(".")`
abbrev pub join : List Text → Text
join [] = []
join (l ∷ []) = l
join (l ∷ m ∷ ls) = l ++ dot ∷ join (m ∷ ls)

-- `endsWith(".")`, `includes("..")`
abbrev pub ends_with_dot : Text → Bool
ends_with_dot [] = false
ends_with_dot (c ∷ []) = c == dot
ends_with_dot (c ∷ d ∷ s) = ends_with_dot (d ∷ s)

abbrev pub has_two_dots : Text → Bool
has_two_dots [] = false
has_two_dots (c ∷ s) = starts_with (dot ∷ dot ∷ []) (c ∷ s) || has_two_dots s

unfoldable pub has_empty_label : Text → Bool
has_empty_label s = starts_with (dot ∷ []) s || ends_with_dot s || has_two_dots s

abbrev pub is_alnum : ℕ → Bool
is_alnum c = is_digit c || leb b'a' c && leb c b'z'

abbrev pub is_label_unit : ℕ → Bool
is_label_unit c = is_alnum c || c == b'-'

abbrev pub ends_alnum : Text → Bool
ends_alnum [] = false
ends_alnum (c ∷ []) = is_alnum c
ends_alnum (c ∷ d ∷ s) = ends_alnum (d ∷ s)

abbrev pub starts_alnum : Text → Bool
starts_alnum [] = false
starts_alnum (c ∷ s) = is_alnum c

-- /^[a-z0-9]([a-z0-9-]{0,61}[a-z0-9])?$/, which is one unit at each end and at most 63 in all.
unfoldable pub is_label : Text → Bool
is_label l = starts_alnum l && ends_alnum l && all is_label_unit l && leb (length l) 63

unfoldable pub label_problem : Text → Option Rejection
label_problem l =
    if is_label l
    then if starts_with (codes "xn--") l then some (punycode l) else none
    else some (bad_label l)

unfoldable pub labels_problem : List Text → Option Rejection
unfolding label_problem
labels_problem [] = none
labels_problem (l ∷ ls) =
    let rest = labels_problem ls in elim (label_problem l) [ some p ↦ some p | none ↦ rest ]

abbrev pub is_ascii : ℕ → Bool
is_ascii c = leb c 127

abbrev pub read_labels : Text → List Text → Parsed
read_labels canonical labels =
    if ltb (length labels) min_labels
    then rejected few_labels
    else elim (labels_problem labels) [ some p ↦ rejected p | none ↦ named canonical labels ]

abbrev pub read_name : Text → Parsed
read_name trimmed =
    if length trimmed == 0
    then rejected empty
    else if ltb max_length (length trimmed)
    then rejected too_long
    else if all is_ascii trimmed
    then if has_empty_label (to_lower_case trimmed)
      then rejected empty_label
      else read_labels (to_lower_case trimmed) (split (to_lower_case trimmed))
    else rejected not_ascii

unfoldable pub parse_realm_name : Text → Parsed
parse_realm_name input = read_name (trim input)

-- realmBaseURL
unfoldable pub realm_base_url : Text → Text
realm_base_url canonical = codes "https://realm." ++ join (reverse (split canonical))
