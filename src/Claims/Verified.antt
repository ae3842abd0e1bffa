-- ===== src/Claims/Verified.antt =====
-- src/claim_verification.ts: what makes a claim verified.
use macula_mcp.Base.{
  ◌≡◌, refl, Bool, true, false, not, ◌&&◌, Option, none, some, List, [], ◌∷◌, Text, any, keep, find,
  is_some, arith, if◌then◌else◌, inl, inr, Bool-cases,
}
use macula_mcp.Claims.{
  unconfirmed, disputed, corroborated, verified, ClaimReply, ClaimVerificationResult, is_confirmed,
  is_disputed, is_from_citizen, is_of_another, is_nonempty, extract_checkable_tokens,
  reproduces_checkable_token, has_own_evidence, status_by_evidence, status_by_echo, weak_status,
  undisputed_status, claim_status, derive_claim_status,
}

abbrev pub is_verified : ClaimVerificationResult → Bool
is_verified v = elim v.status [
  | verified ↦ true
  | unconfirmed ↦ false
  | disputed ↦ false
  | corroborated ↦ false
]

any-keep {ℓ} :
    {A : Type ℓ} → (p q : A → Bool) (xs : List A) → any p (keep q xs) ≡ any (λ x. q x && p x) xs
any-keep p q [] = refl
any-keep p q (x ∷ xs) = let rest = any-keep p q xs in ground arith

is_nonempty-keep {ℓ} :
    {A : Type ℓ} → (q : A → Bool) (xs : List A) → is_nonempty (keep q xs) ≡ any q xs
is_nonempty-keep q [] = refl
is_nonempty-keep q (x ∷ xs) = let rest = is_nonempty-keep q xs in ground arith

is_some-find {ℓ} : {A : Type ℓ} → (p : A → Bool) (xs : List A) → is_some (find p xs) ≡ any p xs
is_some-find p [] = refl
is_some-find p (x ∷ xs) = let rest = is_some-find p xs in ground arith

any-same {ℓ} :
    {A : Type ℓ} → (p q : A → Bool) → ((x : A) → p x ≡ q x) → (xs : List A) → any p xs ≡ any q xs
any-same p q same_at [] = refl
any-same p q same_at (x ∷ xs) =
    let rest = any-same p q same_at xs in let here = same_at x in ground arith

module _ (matches : Text → List Text) where
  -- A reply that can verify a claim: of another sender, confirming, of a citizen, and repeating a
  -- token of the claim, or with a token of its own when the claim has none.
  abbrev pub vouches : Text → Text → ClaimReply → Bool
  vouches reporter target r =
      is_of_another reporter r
      && (is_confirmed r
          && (is_from_citizen r
              && (if is_nonempty (extract_checkable_tokens matches target)
                  then reproduces_checkable_token matches target r.text
                  else is_nonempty (extract_checkable_tokens matches r.text))))

  abbrev pub objects : Text → ClaimReply → Bool
  objects reporter r = is_of_another reporter r && is_disputed r

  weak_status-unverified : (rs : List ClaimReply) → is_verified (weak_status matches rs) ≡ false
  weak_status-unverified [] = refl
  weak_status-unverified (r ∷ rs) = refl

  status_by_echo-verified :
      (o : Option ClaimReply) (rs : List ClaimReply)
      → is_verified (status_by_echo matches o rs) ≡ is_some o
  status_by_echo-verified (some r) rs = refl
  status_by_echo-verified none rs = weak_status-unverified rs

  status_by_evidence-verified :
      (o : Option ClaimReply) → is_verified (status_by_evidence matches o) ≡ is_some o
  status_by_evidence-verified (some r) = refl
  status_by_evidence-verified none = refl

  claim_status-verified :
      (target : Text) (disputes valid : List ClaimReply)
      → is_verified (claim_status matches target disputes valid)
        ≡ not (is_nonempty disputes)
          && is_verified (undisputed_status matches target (keep is_confirmed valid))
  claim_status-verified target [] valid = refl
  claim_status-verified target (d ∷ ds) valid = refl

  undisputed_status-verified :
      (reporter target : Text) (replies : List ClaimReply)
      → is_verified (
          undisputed_status matches target
            (keep is_confirmed (keep (is_of_another reporter) replies)))
        ≡ any (vouches reporter target) replies
  undisputed_status-verified reporter target replies =
      elim (Bool-cases (is_nonempty (extract_checkable_tokens matches target))) [
        | inl n ↦
            rw
              (
                n,
                status_by_echo-verified (find is_from_citizen (keep echoes confirmed))
                    (keep echoes confirmed),
                is_some-find is_from_citizen (keep echoes confirmed),
                any-keep is_from_citizen echoes confirmed,
                any-keep (λ r. echoes r && is_from_citizen r) is_confirmed others,
                any-keep (λ r. is_confirmed r && (echoes r && is_from_citizen r))
                    (is_of_another reporter) replies,
              )
              (any-same _ _ (λ r. ground arith) replies)
        | inr e ↦
            rw
              (
                e,
                status_by_evidence-verified (find (has_own_evidence matches) confirmed),
                is_some-find (has_own_evidence matches) confirmed,
                any-keep (has_own_evidence matches) is_confirmed others,
                any-keep (λ r. is_confirmed r && has_own_evidence matches r)
                    (is_of_another reporter) replies,
              )
              (any-same _ _ (λ r. ground arith) replies)
      ]
    where
      others : List ClaimReply
      others = keep (is_of_another reporter) replies

      confirmed : List ClaimReply
      confirmed = keep is_confirmed others

      echoes : ClaimReply → Bool
      echoes r = reproduces_checkable_token matches target r.text

  -- Whatever the patterns match, a claim is verified exactly when some reply vouches for it, which
  -- takes a confirmation by a citizen other than the reporter that repeats a token of the claim, or
  -- shows one of its own when the claim has none, and no reply of another than the reporter
  -- disputes it.
  pub derive_claim_status-verified :
      (reporter target : Text) (replies : List ClaimReply)
      → is_verified (derive_claim_status matches reporter target replies)
        ≡ not (any (objects reporter) replies) && any (vouches reporter target) replies
  unfolding derive_claim_status
  derive_claim_status-verified reporter target replies =
      rw
        (
          claim_status-verified target (keep is_disputed (keep (is_of_another reporter) replies))
              (keep (is_of_another reporter) replies),
          is_nonempty-keep is_disputed (keep (is_of_another reporter) replies),
          any-keep is_disputed (is_of_another reporter) replies,
          undisputed_status-verified reporter target replies,
        )
        refl
