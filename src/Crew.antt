-- ===== src/Crew.antt =====
-- src/crew_redeem_challenge: the bytes that a realm signs for a crew's redeem challenge (message.ts),
-- and the client's check of its answer (check.ts). Bytes are numbers below 256. The digest, the
-- signature and the decoding of UTF-8 and base64 are libraries' and so parameters.
pub mod Message
pub mod Check
use macula_mcp.Base.{
  ℕ, zero, suc, ◌+◌, ◌*◌, ◌-◌, ◌/◌, ◌%◌, Bool, true, false, not, ◌&&◌, ◌||◌, Option, none, some,
  List, [], ◌∷◌, ◌++◌, Text, codes, same, length, all, ltb, leb, ◌==◌, if◌then◌else◌, is_lower_hex,
  is_lower_hex64, is_digit,
}
use macula_mcp.Json.{Value, obj, Fields, get, as_text}

abbrev pub Bytes : Type 0
Bytes = List ℕ

pub data CborValue : Type 0 where
  number : ℕ → CborValue
  string : Text → CborValue
  bytes : Bytes → CborValue

-- A CBOR head: `major << 5` is a multiple of 32, and the length's bytes are its digits to base 256.
abbrev pub head : ℕ → ℕ → Bytes
head major n =
    if ltb n 24
    then (major * 32 + n) ∷ []
    else if ltb n 256
    then (major * 32 + 24) ∷ n ∷ []
    else if ltb n 65536
    then (major * 32 + 25) ∷ (n / 256) ∷ (n % 256) ∷ []
    else (major * 32 + 26)
      ∷ (n / 16777216 % 256)
      ∷ (n / 65536 % 256)
      ∷ (n / 256 % 256)
      ∷ (n % 256)
      ∷ []

-- Buffer.compare(a, b) < 0 or = 0
abbrev pub not_after : Bytes → Bytes → Bool
not_after [] b = true
not_after (x ∷ a) [] = false
not_after (x ∷ a) (y ∷ b) = let rest = not_after a b in if ltb x y then true else (x == y) && rest

abbrev put_sorted : Bytes × Bytes → List (Bytes × Bytes) → List (Bytes × Bytes)
put_sorted e [] = e ∷ []
put_sorted e (f ∷ fs) =
    let later = f ∷ put_sorted e fs in if not_after e.0 f.0 then e ∷ f ∷ fs else later

abbrev pub sorted : List (Bytes × Bytes) → List (Bytes × Bytes)
sorted [] = []
sorted (e ∷ es) = put_sorted e (sorted es)

abbrev pub flat : List (Bytes × Bytes) → Bytes
flat [] = []
flat (e ∷ es) = e.0 ++ e.1 ++ flat es

pub record ChallengeSubject : Type 0 where
  pub nonce : Bytes
  pub origin : Text
  pub realm_id : Bytes
  pub crew_id : Bytes

abbrev pub challenge_tag : Text
challenge_tag = codes "macula.realm.crew_redeem_challenge"

abbrev pub challenge_version : ℕ
challenge_version = 1

abbrev pub is_nonempty : Text → Bool
is_nonempty [] = false
is_nonempty (c ∷ s) = true

abbrev pub is_32 : Bytes → Bool
is_32 b = length b == 32

-- The fields that the message's own checks pass.
abbrev pub is_subject : ChallengeSubject → Bool
is_subject s = is_nonempty s.origin && is_32 s.nonce && is_32 s.realm_id && is_32 s.crew_id

-- The label of a key id, and the names of the profiles.
abbrev pub key_id_label : Text
key_id_label = codes "MACULA-KEY-ID-V1"

abbrev is_profile : Text → Bool
is_profile name = same (codes "pq_pure") name || same (codes "pq_hybrid") name

abbrev nibble : ℕ → ℕ
nibble c = if is_digit c then c - b'0' else c - b'a' + 10

abbrev pub from_hex : Text → Bytes
from_hex (a ∷ b ∷ s) = (nibble a * 16 + nibble b) ∷ from_hex s
from_hex _ = []

abbrev hex_unit : ℕ → ℕ
hex_unit n = if ltb n 10 then b'0' + n else b'a' + n - 10

abbrev pub to_hex : Bytes → Text
to_hex [] = []
to_hex (b ∷ bs) = hex_unit (b / 16) ∷ hex_unit (b % 16) ∷ to_hex bs

pub data ChallengeRefusal : Type 0 where
  malformed_answer unknown_profile key_id_mismatch bad_signature : ChallengeRefusal

-- `threw` is an exception of crewRedeemChallengeMessage.
pub data ChallengeCheck : Type 0 where
  ok : (realm_id : Text) → ChallengeCheck
  refused : ChallengeRefusal → ChallengeCheck
  threw : ChallengeCheck

pub record ChallengeExpected : Type 0 where
  pub nonce : Bytes
  pub origin : Text
  pub crew_id : Bytes
  pub key_id : Bytes

pub record Decoded : Type 0 where
  pub public_key : Bytes
  pub signature : Bytes
  pub realm_id : Bytes
  pub profile : Text

abbrev is_empty : Bytes → Bool
is_empty [] = true
is_empty (b ∷ bs) = false

abbrev pub subject_of : Decoded → ChallengeExpected → ChallengeSubject
subject_of d e = record {
  nonce = e.nonce;
  origin = e.origin;
  realm_id = d.realm_id;
  crew_id = e.crew_id;
}

module _ (utf8 : Text → Bytes) where
  abbrev pub encode : CborValue → Bytes
  encode (number n) = head 0 n
  encode (string s) = head 3 (length (utf8 s)) ++ utf8 s
  encode (bytes b) = head 2 (length b) ++ b

  abbrev encoded : List (Text × CborValue) → List (Bytes × Bytes)
  encoded [] = []
  encoded ((k, v) ∷ es) = (encode (string k), encode v) ∷ encoded es

  abbrev pub canonical_map : List (Text × CborValue) → Bytes
  canonical_map es = head 5 (length es) ++ flat (sorted (encoded es))

  unfoldable pub crew_redeem_challenge_message : ChallengeSubject → Option Bytes
  crew_redeem_challenge_message s =
      if is_subject s
      then some (
          canonical_map (
            (codes "tag", string challenge_tag)
            ∷ (codes "v", number challenge_version)
            ∷ (codes "nonce", bytes s.nonce)
            ∷ (codes "origin", string s.origin)
            ∷ (codes "realm", bytes s.realm_id)
            ∷ (codes "crew", bytes s.crew_id)
            ∷ []))
      else none

  module _ (base64 : Text → Bytes) (sha256 : Bytes → Bytes)
      (verify : (message signature public_key : Bytes) (profile : Text) → Bool) where
    unfoldable pub key_id : Bytes → Text → Bytes
    key_id public_key profile = sha256 (key_id_label ++ 0 ∷ length profile ∷ profile ++ public_key)

    -- The four fields are texts.
    abbrev decoded_in : Text → Text → Text → Text → Option Decoded
    decoded_in public_key signature realm_id profile =
        if is_lower_hex64 realm_id
          && (is_nonempty signature && all is_lower_hex signature)
          && not (is_empty (base64 public_key))
          && is_profile profile
        then some (record {
          public_key = base64 public_key;
          signature = from_hex signature;
          realm_id = from_hex realm_id;
          profile = profile;
        })
        else none

    unfoldable pub decoded : Fields → Option Decoded
    decoded p = elim (as_text (get (codes "public_key") p)) [
      | none ↦ none
      | some k ↦ elim (as_text (get (codes "signature") p)) [
        | none ↦ none
        | some s ↦ elim (as_text (get (codes "realm_id") p)) [
          | none ↦ none
          | some r ↦ elim (as_text (get (codes "profile") p)) [
            | none ↦ none
            | some f ↦ decoded_in k s r f
          ]
        ]
      ]
    ]

    abbrev same_key : Bytes → Bytes → Bool
    same_key a b = same a b

    abbrev pub verdict : Decoded → Option Bytes → ChallengeCheck
    verdict d none = threw
    verdict d (some message) =
        if verify message d.signature d.public_key d.profile
        then ok (to_hex d.realm_id)
        else refused bad_signature

    abbrev pub check_decoded : ChallengeExpected → Option Decoded → ChallengeCheck
    check_decoded e none = refused malformed_answer
    check_decoded e (some d) =
        if same_key (key_id d.public_key d.profile) e.key_id
        then verdict d (crew_redeem_challenge_message (subject_of d e))
        else refused key_id_mismatch

    abbrev pub names_unknown : Option Text → Bool
    names_unknown none = false
    names_unknown (some f) = not (is_profile f)

    unfoldable pub check_challenge : Value → ChallengeExpected → ChallengeCheck
    check_challenge (obj p) e =
        if names_unknown (as_text (get (codes "profile") p))
        then refused unknown_profile
        else check_decoded e (decoded p)
    check_challenge _ e = refused malformed_answer
