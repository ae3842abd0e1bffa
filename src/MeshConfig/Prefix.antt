-- ===== src/MeshConfig/Prefix.antt =====
-- src/mesh_config.ts: splitRealmPrefix on what a listing prints.
use macula_mcp.Base.{
  ℕ, ◌≡◌, refl, ap, Bool, true, false, not, ◌&&◌, none, some, [], ◌∷◌, ◌++◌, Text, same, all,
  is_hex, is_hex64, is_lower_hex64, is_hex64_of_lower, to_lower_case, to_lower_case_of_lower_hex,
  arith, ◌∙◌, if◌then◌else◌,
}
use macula_mcp.MeshConfig.{
  Configured, given, mesh_error, Prefixed, span, prefix_behind, is_bare, is_filled, realms_disagree,
  split_by, agreed, split_realm_prefix,
}

span-append :
    (p : ℕ → Bool) (s : Text) (c : ℕ) (t : Text)
    → all p s ≡ true
    → p c ≡ false
    → span p (s ++ c ∷ t) ≡ (s, c ∷ t)
unfolding span
span-append p [] c t h stop = rw stop refl
span-append p (d ∷ s) c t h stop = ground (arith, span-append p s c t)

prefix_behind-listed :
    (realm bare : Text)
    → is_lower_hex64 realm ≡ true
    → is_bare bare ≡ true
    → prefix_behind (span is_hex (realm ++ b'/' ∷ bare)) ≡ some (realm, bare)
unfolding is_hex64
prefix_behind-listed realm bare hex plain =
    let hex64 = is_hex64_of_lower realm hex in
    ap prefix_behind (span-append is_hex realm b'/' bare (ground arith) refl)
    ∙ rw (hex64, plain) refl

agreed_lem :
    (realm bare passed : Text)
    → to_lower_case realm ≡ realm
    → agreed realm bare (some passed) ≡ (
        if is_filled passed && not (same (to_lower_case passed) realm)
        then mesh_error realms_disagree
        else given (record { procedure = bare; realm = some realm }))
agreed_lem realm bare [] lower = rw lower refl
agreed_lem realm bare (c ∷ s) lower = rw lower (ground arith)

-- A procedure in the form that a listing prints, a realm id in lower case before the bare
-- procedure, is split into the two. A realm that is passed alongside, in any letter case, changes
-- nothing when it is that realm, and is refused when it is another.
pub split_realm_prefix-listed :
    (realm bare passed : Text)
    → is_lower_hex64 realm ≡ true
    → is_bare bare ≡ true
    → let both : Configured Prefixed = given (record { procedure = bare; realm = some realm }) in
      (split_realm_prefix (realm ++ b'/' ∷ bare) none ≡ both)
      × (split_realm_prefix (realm ++ b'/' ∷ bare) (some passed) ≡ (
          if is_filled passed && not (same (to_lower_case passed) realm)
          then mesh_error realms_disagree
          else both))
unfolding split_realm_prefix is_lower_hex64
split_realm_prefix-listed realm bare passed hex plain =
    let found = prefix_behind-listed realm bare hex plain in
    let lower = to_lower_case_of_lower_hex realm (ground arith) in
    (
      ap (split_by (realm ++ b'/' ∷ bare) none) found ∙ rw lower refl,
      ap (split_by (realm ++ b'/' ∷ bare) (some passed)) found ∙ agreed_lem realm bare passed lower,
    )
