-- ===== src/Crew/Check.antt =====
-- src/crew_redeem_challenge/check.ts: which answers the client's check accepts.
use macula_mcp.Base.{
  ℕ, suc, zero, ◌*◌, ◌≡◌, refl, sym, ap, ◌∙◌, Bool, true, ◌&&◌, Option, some, [], ◌∷◌, Text, codes,
  length, all, arith, subst, is_lower_hex, is_lower_hex64, same_sound, Bool-cases, Option-cases,
  inl, inr,
}
use macula_mcp.Json.{Value, obj, Fields, get, as_text}
use macula_mcp.Crew.Message.{KeepsAscii, layout, crew_redeem_challenge_message-layout}
use macula_mcp.Crew.{
  Bytes, crew_redeem_challenge_message, from_hex, to_hex, ChallengeCheck, ok, ChallengeExpected,
  Decoded, key_id, decoded, subject_of, check_challenge, check_decoded, is_32, is_nonempty,
  names_unknown,
}

to_hex_pair :
    (a b : ℕ) (s : Text)
    → is_lower_hex a ≡ true
    → is_lower_hex b ≡ true
    → to_hex (from_hex (a ∷ b ∷ s)) ≡ a ∷ b ∷ to_hex (from_hex s)
to_hex_pair a b s h k = ground arith

hex_pairs :
    (n : ℕ) (s : Text)
    → length s ≡ n * 2
    → all is_lower_hex s ≡ true
    → (length (from_hex s) ≡ n) × (to_hex (from_hex s) ≡ s)
hex_pairs zero [] l h = (refl, refl)
hex_pairs zero (a ∷ s) l h = ground (arith, l)
hex_pairs (suc n) [] l h = ground (arith, l)
hex_pairs (suc n) (a ∷ []) l h = ground (arith, l)
hex_pairs (suc n) (a ∷ b ∷ s) l h =
    let (len, back) = hex_pairs n s (omega (arith, l)) (ground arith) in
    (omega (arith, len), to_hex_pair a b s (ground arith) (ground arith) ∙ ap (λ t. a ∷ b ∷ t) back)

hex64_pairs :
    (s : Text) → is_lower_hex64 s ≡ true → (length (from_hex s) ≡ 32) × (to_hex (from_hex s) ≡ s)
unfolding is_lower_hex64
hex64_pairs s h = hex_pairs 32 s (ground arith) (ground arith)

module _ (utf8 base64 : Text → Bytes) (sha256 : Bytes → Bytes)
    (verify : (message signature public_key : Bytes) (profile : Text) → Bool) where
  abbrev check : Value → ChallengeExpected → ChallengeCheck
  check = check_challenge utf8 base64 sha256 verify

  abbrev realm_named : Fields → Option Text
  realm_named p = as_text (get (codes "realm_id") p)

  decoded-realm :
      (p : Fields) (d : Decoded)
      → decoded utf8 base64 sha256 verify p ≡ some d
      → (r : Text) × (realm_named p ≡ some r)
        × (d.realm_id ≡ from_hex r)
        × (is_lower_hex64 r ≡ true)
  unfolding decoded
  decoded-realm p d h = elim (Option-cases (realm_named p)) [
    | inl missing ↦ ground arith
    | inr (r, there) ↦ (r, there, ground arith, ground arith)
  ]

  abbrev unknown_named : Fields → Bool
  unknown_named p = names_unknown utf8 base64 sha256 verify (as_text (get (codes "profile") p))

  -- The client's own side of the exchange: 32 bytes each, and an origin.
  abbrev pub is_expected : ChallengeExpected → Bool
  is_expected e = is_nonempty e.origin && is_32 e.nonce && is_32 e.crew_id

  -- The answer names the realm, and a key of the invite's id signed the bytes of this client's own
  -- nonce, origin and crew and of that realm, laid out as `layout` has them.
  pub record Proves (p : Fields) (e : ChallengeExpected) (realm : Text) : Type 0 where
    pub decoded_as : Decoded
    pub is_decoded : decoded utf8 base64 sha256 verify p ≡ some decoded_as
    pub names_realm : realm_named p ≡ some realm
    pub key_expected :
        key_id utf8 base64 sha256 verify decoded_as.public_key decoded_as.profile ≡ e.key_id
    pub verified :
        verify
          (layout e.nonce (utf8 e.origin) (from_hex realm) e.crew_id)
          decoded_as.signature
          decoded_as.public_key
          decoded_as.profile
        ≡ true

  check_decoded-Proves :
      (p : Fields) (e : ChallengeExpected) (realm : Text)
      → KeepsAscii utf8
      → check_decoded utf8 base64 sha256 verify e (decoded utf8 base64 sha256 verify p) ≡ ok realm
      → Proves p e realm
  check_decoded-Proves p e realm keeps h =
      elim (Option-cases (decoded utf8 base64 sha256 verify p)) [
        | inl malformed ↦ let k = rw malformed at h in cc
        | inr (d, read) ↦
            let (r, named, realm_id, hex) = decoded-realm p d read in
            elim (Option-cases (crew_redeem_challenge_message utf8 (subject_of d e))) [
              | inl none_built ↦ let k = rw (read, none_built) at h in ground arith
              | inr (m, built) ↦
                  let k = rw (read, built) at h in
                  let one : r ≡ realm =
                    sym (hex64_pairs r hex).1 ∙ ap to_hex (sym realm_id) ∙ ground arith in
                  let verified_message : verify m d.signature d.public_key d.profile ≡ true =
                    ground arith in
                  let laid_out =
                    crew_redeem_challenge_message-layout utf8 (subject_of d e) m keeps built
                    ∙ ap (λ b. layout e.nonce (utf8 e.origin) b e.crew_id)
                        (realm_id ∙ ap from_hex one) in
                  record {
                    decoded_as = d;
                    is_decoded = read;
                    names_realm = named ∙ ap some one;
                    key_expected = same_sound _ _ (ground arith);
                    verified =
                        subst (λ b. verify b d.signature d.public_key d.profile ≡ true) laid_out
                          verified_message;
                  }
            ]
      ]

  -- An answer that is accepted with a realm id names that realm itself and carries the key whose id
  -- the invite named, and its signature verifies under that key over the tag, the version, and
  -- this client's own nonce, origin and crew with that realm, each at its place in the bytes that
  -- `layout` writes out, where UTF-8 leaves ASCII texts alone.
  pub check_challenge-Proves :
      (p : Fields) (e : ChallengeExpected) (realm : Text)
      → KeepsAscii utf8
      → check (obj p) e ≡ ok realm
      → Proves p e realm
  unfolding check_challenge
  check_challenge-Proves p e realm keeps h = elim (Bool-cases (unknown_named p)) [
    | inl other ↦ let k = rw (other, check_challenge) at h in cc
    | inr known ↦ check_decoded-Proves p e realm keeps (rw (known, check_challenge) at h)
  ]
