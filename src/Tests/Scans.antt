-- ===== src/Tests/Scans.antt =====
-- Tests of the walk that looks for secrets.
use macula_mcp.Base.{
  ◌≡◌, refl, true, Option, none, some, Text, codes, any, is_some, starts_with, if◌then◌else◌,
}
use macula_mcp.Json.{Value, text, nat, arr, obj, nil, cons, end, field}
use macula_mcp.Secrets.{assert_no_likely_secret, find_likely_secret, scan_key_value}
use macula_mcp.Secrets.Leaves.{texts, is_secret, assert_no_likely_secret_lem}

-- One pattern: a line that sets a token.
abbrev scan : Text → Option Text
scan s = if starts_with (codes "TOKEN=") s then some (codes "token") else none

abbrev args : Value
args = obj (
    field (codes "lines") (arr (cons (nat 1) (cons (text (codes "x")) nil)))
      (field (codes "env") (obj (field (codes "TOKEN") (text (codes "abc")) end)) end))

assert_no_likely_secret_lem_example :
    is_some (assert_no_likely_secret scan args) ≡ any (is_secret scan) (texts args)
assert_no_likely_secret_lem_example = assert_no_likely_secret_lem scan args

found_in_args : is_some (assert_no_likely_secret scan args) ≡ true
unfolding assert_no_likely_secret find_likely_secret scan_key_value starts_with
found_in_args = refl
