-- ===== src/Claims.antt =====
-- src/claim_verification.ts: the status of a reported result, from the replies that confirm or
-- dispute it. What the four patterns match in a text, one pattern after the other, is one function,
-- `matches`. A tier is that of the realm's credentials.
pub mod Verified
use macula_mcp.Base.{
  ◌≡◌, Bool, true, false, not, ◌&&◌, ◌||◌, Option, none, some, List, [], ◌∷◌, map, Text, codes,
  same, to_lower_case, starts_with, any, keep, find, if◌then◌else◌,
}
use macula_mcp.Realm.{RealmTier, device, citizen}

pub data ClaimStatus : Type 0 where
  unconfirmed disputed corroborated verified : ClaimStatus

pub data ReplyKind : Type 0 where
  claim_confirmed claim_disputed : ReplyKind

pub record ClaimReply : Type 0 where
  pub from : Text
  pub kind : ReplyKind
  pub text : Text
  pub tier : Option RealmTier

pub data Reason : Type 0 where
  disputed_by : List Text → Reason
  own_evidence : (from text : Text) → Reason
  no_checkable_evidence : Reason
  echoed : (from : Text) → Reason
  weakly_echoed_by : List Text → Reason
  awaiting_confirmer : Reason

pub record ClaimVerificationResult : Type 0 where
  pub status : ClaimStatus
  pub reason : Reason

pub record Capability : Type 0 where
  pub with_resource : Text
  pub can : Text

-- Of a decoded token.
unfoldable pub membership_tier : List Capability → Option RealmTier
membership_tier caps =
    if any (λ c. same c.can (codes "member/email-verified")) caps
    then some citizen
    else if any (λ c. same c.can (codes "member/device-verified")) caps
    then some device
    else none

-- A Set of texts, in the order they came in.
unfoldable pub distinct : List Text → List Text
distinct [] = []
distinct (t ∷ ts) = t ∷ keep (λ u. not (same t u)) (distinct ts)

unfoldable pub includes : Text → Text → Bool
includes sub [] = starts_with sub []
includes sub (c ∷ s) = starts_with sub (c ∷ s) || includes sub s

abbrev pub is_confirmed : ClaimReply → Bool
is_confirmed r = elim r.kind [ claim_confirmed ↦ true | claim_disputed ↦ false ]

abbrev pub is_disputed : ClaimReply → Bool
is_disputed r = not (is_confirmed r)

abbrev pub is_from_citizen : ClaimReply → Bool
is_from_citizen r = elim r.tier [ some citizen ↦ true | some device ↦ false | none ↦ false ]

abbrev pub is_of_another : Text → ClaimReply → Bool
is_of_another reporter r = not (same (to_lower_case r.from) (to_lower_case reporter))

abbrev senders : List ClaimReply → List Text
senders = map (λ r. r.from)

abbrev pub is_nonempty {ℓ} : {A : Type ℓ} → List A → Bool
is_nonempty [] = false
is_nonempty (x ∷ xs) = true

module _ (matches : Text → List Text) where
  unfoldable pub extract_checkable_tokens : Text → List Text
  extract_checkable_tokens t = distinct (matches t)

  unfoldable pub reproduces_checkable_token : Text → Text → Bool
  reproduces_checkable_token target confirming =
      any (λ tok. includes tok confirming) (extract_checkable_tokens target)

  abbrev pub has_own_evidence : ClaimReply → Bool
  has_own_evidence r = is_from_citizen r && is_nonempty (extract_checkable_tokens r.text)

  abbrev pub status_by_evidence : Option ClaimReply → ClaimVerificationResult
  status_by_evidence (some strong) = record {
    status = verified;
    reason = own_evidence strong.from strong.text;
  }
  status_by_evidence none = record { status = unconfirmed; reason = no_checkable_evidence }

  abbrev pub status_without_tokens : List ClaimReply → ClaimVerificationResult
  status_without_tokens confirmed = status_by_evidence (find has_own_evidence confirmed)

  abbrev pub weak_status : List ClaimReply → ClaimVerificationResult
  weak_status [] = record { status = unconfirmed; reason = awaiting_confirmer }
  weak_status (r ∷ rs) = record {
    status = corroborated;
    reason = weakly_echoed_by (senders (r ∷ rs));
  }

  abbrev pub status_by_echo : Option ClaimReply → List ClaimReply → ClaimVerificationResult
  status_by_echo (some strong) echoing = record { status = verified; reason = echoed strong.from }
  status_by_echo none echoing = weak_status echoing

  abbrev pub status_of_echoes : List ClaimReply → ClaimVerificationResult
  status_of_echoes echoing = status_by_echo (find is_from_citizen echoing) echoing

  abbrev pub undisputed_status : Text → List ClaimReply → ClaimVerificationResult
  undisputed_status target confirmed =
      if is_nonempty (extract_checkable_tokens target)
      then status_of_echoes (keep (λ r. reproduces_checkable_token target r.text) confirmed)
      else status_without_tokens confirmed

  abbrev pub claim_status : Text → List ClaimReply → List ClaimReply → ClaimVerificationResult
  claim_status target [] valid = undisputed_status target (keep is_confirmed valid)
  claim_status target (d ∷ ds) valid = record {
    status = disputed;
    reason = disputed_by (senders (d ∷ ds));
  }

  unfoldable pub derive_claim_status : Text → Text → List ClaimReply → ClaimVerificationResult
  derive_claim_status reporter target replies =
      let valid = keep (is_of_another reporter) replies in
      claim_status target (keep is_disputed valid) valid
