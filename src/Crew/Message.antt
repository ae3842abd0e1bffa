-- ===== src/Crew/Message.antt =====
-- src/crew_redeem_challenge/message.ts: the bytes of a message, written out.
use mathlib.Core.List.{append-nil}
use macula_mcp.Base.{
  ℕ, ◌+◌, ◌≡◌, refl, sym, ap, ◌∙◌, Bool, true, Option, some, get_or, length-append, [], ◌∷◌, ◌++◌,
  Text, codes, length, all, ltb, arith, Bool-cases, inl, inr, zero, suc,
}
use macula_mcp.Crew.{
  Bytes, ChallengeSubject, head, is_subject, challenge_tag, crew_redeem_challenge_message,
}

abbrev drop : ℕ → Bytes → Bytes
drop zero b = b
drop (suc n) [] = []
drop (suc n) (x ∷ b) = drop n b

abbrev pub is_ascii : ℕ → Bool
is_ascii c = ltb c 128

-- UTF-8 of a text of ASCII characters is that text.
abbrev pub KeepsAscii : (Text → Bytes) → Type 0
KeepsAscii utf8 = (t : Text) → all is_ascii t ≡ true → utf8 t ≡ t

-- The map of six entries in the order of their encoded keys: v, tag, crew, nonce, realm, origin.
-- 88 32 is the head of 32 bytes, and 96 + n that of a short text.
abbrev pub layout : (nonce origin realm_id crew_id : Bytes) → Bytes
layout nonce origin realm_id crew_id =
    let from_origin = 102 ∷ (codes "origin" ++ (head 3 (length origin) ++ origin)) in
    let from_realm = 101 ∷ (codes "realm" ++ (88 ∷ 32 ∷ (realm_id ++ from_origin))) in
    let from_nonce = 101 ∷ (codes "nonce" ++ (88 ∷ 32 ∷ (nonce ++ from_realm))) in
    let from_crew = 100 ∷ (codes "crew" ++ (88 ∷ 32 ∷ (crew_id ++ from_nonce))) in
    let tag = codes "macula.realm.crew_redeem_challenge" in
    166 ∷ 97 ∷ b'v' ∷ 1 ∷ 99 ∷ (codes "tag" ++ (120 ∷ 34 ∷ (tag ++ from_crew)))

append_cancel : (a b x y : Bytes) → length a ≡ length b → a ++ x ≡ b ++ y → (a ≡ b) × (x ≡ y)
append_cancel [] [] x y l h = (refl, h)
append_cancel [] (c ∷ b) x y l h = ground arith
append_cancel (c ∷ a) [] x y l h = ground arith
append_cancel (c ∷ a) (d ∷ b) x y l h =
    let (same_rest, same_end) = append_cancel a b x y (omega (arith, l)) (ground (arith, h)) in
    (ground (arith, h, same_rest), same_end)

-- A longer text has no shorter head, so the whole length tells the text's length.
length-head : (n m : ℕ) → length (head 3 n) + n ≡ length (head 3 m) + m → n ≡ m
length-head n m h = ground arith

head_cancel : (u v : Bytes) → head 3 (length u) ++ u ≡ head 3 (length v) ++ v → u ≡ v
head_cancel u v h =
    let total = ap length h in
    let n : length u ≡ length v = length-head (length u) (length v) (
      omega
        (arith, total, length-append (head 3 (length u)) u, length-append (head 3 (length v)) v)) in
    (append_cancel (head 3 (length u)) (head 3 (length v)) u v (ap (λ k. length (head 3 k)) n) h).1

-- One field of 32 bytes, behind what both messages have in common.
layout-injective :
    (n n' o o' r r' c c' : Bytes)
    → length n ≡ length n'
    → length r ≡ length r'
    → length c ≡ length c'
    → layout n o r c ≡ layout n' o' r' c'
    → (n ≡ n') × (o ≡ o') × (r ≡ r') × (c ≡ c')
layout-injective n n' o o' r r' c c' ln lr lc h =
    let (crew, h₁) = append_cancel c c' _ _ lc (ap (drop 51) h) in
    let (nonce, h₂) = append_cancel n n' _ _ ln (ap (drop 8) h₁) in
    let (realm, h₃) = append_cancel r r' _ _ lr (ap (drop 8) h₂) in
    (nonce, head_cancel o o' (ap (drop 7) h₃), realm, crew)

module _ (utf8 : Text → Bytes) where
  message_lengths :
      (s : ChallengeSubject) (m : Bytes)
      → crew_redeem_challenge_message utf8 s ≡ some m
      → (length s.nonce ≡ 32) × (length s.realm_id ≡ 32) × (length s.crew_id ≡ 32)
  unfolding crew_redeem_challenge_message
  message_lengths s m h = elim (Bool-cases (is_subject s)) [
    | inr bad ↦ let k = rw bad at h in cc
    | inl good ↦ (ground arith, ground arith, ground arith)
  ]

  pub crew_redeem_challenge_message-layout :
      (s : ChallengeSubject) (m : Bytes)
      → KeepsAscii utf8
      → crew_redeem_challenge_message utf8 s ≡ some m
      → m ≡ layout s.nonce (utf8 s.origin) s.realm_id s.crew_id
  unfolding crew_redeem_challenge_message
  crew_redeem_challenge_message-layout s m keeps h = elim (Bool-cases (is_subject s)) [
    | inr bad ↦ let k = rw bad at h in cc
    | inl good ↦
        let (n, r, c) = message_lengths s m h in
        let k =
          rw
            (
              good,
              keeps (codes "tag") refl,
              keeps (codes "v") refl,
              keeps (codes "nonce") refl,
              keeps (codes "origin") refl,
              keeps (codes "realm") refl,
              keeps (codes "crew") refl,
              keeps challenge_tag refl,
              n,
              r,
              c,
            )
            at h in
        sym (
          ap (λ (o : Option Bytes). get_or o [])
            (rw (append-nil (head 3 (length (utf8 s.origin)) ++ utf8 s.origin)) at k))
  ]

  -- The message binds its subject: where UTF-8 leaves ASCII alone, two subjects that have the same
  -- message have the same nonce, realm and crew, and origins with the same UTF-8 bytes.
  pub crew_redeem_challenge_message-binds :
      (s s' : ChallengeSubject) (m : Bytes)
      → KeepsAscii utf8
      → crew_redeem_challenge_message utf8 s ≡ some m
      → crew_redeem_challenge_message utf8 s' ≡ some m
      → (s.nonce ≡ s'.nonce)
        × (utf8 s.origin ≡ utf8 s'.origin)
        × (s.realm_id ≡ s'.realm_id)
        × (s.crew_id ≡ s'.crew_id)
  crew_redeem_challenge_message-binds s s' m keeps h h' =
      let (n, r, c) = message_lengths s m h in
      let (n', r', c') = message_lengths s' m h' in
      layout-injective s.nonce s'.nonce (utf8 s.origin) (utf8 s'.origin) s.realm_id s'.realm_id
        s.crew_id s'.crew_id (n ∙ sym n') (r ∙ sym r') (c ∙ sym c')
        (sym (crew_redeem_challenge_message-layout s m keeps h)
          ∙ crew_redeem_challenge_message-layout s' m keeps h')
