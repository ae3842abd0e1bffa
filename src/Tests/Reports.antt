-- ===== src/Tests/Reports.antt =====
-- Tests of the status of a reported result.
use macula_mcp.Base.{
  ◌≡◌, refl, true, false, not, ◌&&◌, some, List, [], ◌∷◌, Text, codes, any, is_digit, keep, same,
  to_lower_case, starts_with,
}
use macula_mcp.Realm.{device, citizen}
use macula_mcp.Claims.{
  ClaimReply, claim_confirmed, claim_disputed, derive_claim_status, extract_checkable_tokens,
  distinct, reproduces_checkable_token, includes,
}
use macula_mcp.Claims.Verified.{is_verified, vouches, objects, derive_claim_status-verified}

-- One pattern: the digits of a text, as one token.
abbrev as_token : Text → List Text
as_token [] = []
as_token (d ∷ ds) = (d ∷ ds) ∷ []

abbrev digits : Text → List Text
digits t = as_token (keep is_digit t)

abbrev by_citizen : ClaimReply
by_citizen = record {
  from = codes "c";
  kind = claim_confirmed;
  text = codes "ran 42 tests";
  tier = some citizen;
}

abbrev by_reporter : ClaimReply
by_reporter = record {
  from = codes "R";
  kind = claim_disputed;
  text = codes "no";
  tier = some citizen;
}

abbrev by_device : ClaimReply
by_device = record {
  from = codes "d";
  kind = claim_disputed;
  text = codes "41";
  tier = some device;
}

derive_claim_status-verified_example :
    is_verified
      (derive_claim_status digits (codes "r") (codes "42 pass") (by_reporter ∷ by_citizen ∷ []))
    ≡ not (any (objects digits (codes "r")) (by_reporter ∷ by_citizen ∷ []))
      && any (vouches digits (codes "r") (codes "42 pass")) (by_reporter ∷ by_citizen ∷ [])
derive_claim_status-verified_example =
    derive_claim_status-verified digits (codes "r") (codes "42 pass")
      (by_reporter ∷ by_citizen ∷ [])

echoed_by_a_citizen :
    is_verified
      (derive_claim_status digits (codes "r") (codes "42 pass") (by_reporter ∷ by_citizen ∷ []))
    ≡ true
unfolding derive_claim_status same to_lower_case extract_checkable_tokens distinct
    reproduces_checkable_token includes starts_with
echoed_by_a_citizen = refl

disputed_by_a_device :
    is_verified
      (derive_claim_status digits (codes "r") (codes "42 pass") (by_device ∷ by_citizen ∷ []))
    ≡ false
unfolding derive_claim_status same to_lower_case
disputed_by_a_device = refl
