-- ===== src/RealmName/Accepted.antt =====
-- src/realm_name.ts: the names that parseRealmName accepts.
use macula_mcp.Base.{
  ℕ, ◌≡◌, ◌≤◌, refl, Bool, true, false, ◌||◌, List, [], ◌∷◌, none, Text, all, ◌==◌, arith, length,
  trim, to_lower_case, ◌∙◌,
}
use macula_mcp.RealmName.{
  dot, split, join, has_two_dots, has_empty_label, is_label_unit, is_label, label_problem,
  labels_problem, named, parse_realm_name,
}
use macula_mcp.RealmName.Labels.{join-split, all-append}

-- A unit of an accepted name: a lower-case letter, a digit, a hyphen or a dot.
abbrev pub is_name_unit : ℕ → Bool
is_name_unit c = is_label_unit c || c == dot

labels_problem-none : (ls : List Text) → labels_problem ls ≡ none → all is_label ls ≡ true
unfolding labels_problem label_problem
labels_problem-none [] h = refl
labels_problem-none (l ∷ ls) h = ground (arith, labels_problem-none ls)

label-units : (l : Text) → all is_label_unit l ≡ true → all is_name_unit l ≡ true
label-units [] h = refl
label-units (c ∷ l) h = ground (arith, label-units l)

join-units : (ls : List Text) → all is_label ls ≡ true → all is_name_unit (join ls) ≡ true
unfolding is_label
join-units [] h = refl
join-units (l ∷ []) h = label-units l (ground arith)
join-units (l ∷ m ∷ ls) h =
    all-append is_name_unit l (dot ∷ join (m ∷ ls))
    ∙ ground (arith, label-units l, join-units (m ∷ ls))

-- A typed name that is accepted is kept in lower case and trimmed: at least two labels joined by
-- dots, each a valid label, with no unit but lower-case letters, digits, hyphens and dots, and
-- nowhere two dots in a row.
parse_realm_name-named :
    (input canonical : Text) (labels : List Text)
    → parse_realm_name input ≡ named canonical labels
    → (canonical ≡ to_lower_case (trim input))
      × (join labels ≡ canonical)
      × (2 ≤ length labels)
      × (all is_label labels ≡ true)
      × (all is_name_unit canonical ≡ true)
      × (has_two_dots canonical ≡ false)
unfolding parse_realm_name has_empty_label
parse_realm_name-named input canonical labels h = ground (
  arith,
  join-split (to_lower_case (trim input)),
  labels_problem-none (split (to_lower_case (trim input))),
  join-units (split (to_lower_case (trim input))),
)
