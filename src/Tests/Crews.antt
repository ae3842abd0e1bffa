-- ===== src/Tests/Crews.antt =====
-- Tests of the check of a crew's redeem challenge.
use macula_mcp.Base.{ℕ, ◌≡◌, refl, Bool, true, false, ◌++◌, List, [], ◌∷◌, Text, codes, same}
use macula_mcp.Json.{text, Fields, end, field, get}
use macula_mcp.Crew.{
  Bytes, ChallengeSubject, crew_redeem_challenge_message, is_subject, ChallengeExpected,
  check_challenge, ok, key_id, key_id_label,
}
use macula_mcp.Crew.Message.{crew_redeem_challenge_message-binds}
use macula_mcp.Crew.Check.{Proves, check_challenge-Proves}
use macula_mcp.Tests.{alice}

-- Stand-ins for the libraries: texts are their own bytes, and every signature verifies.
abbrev as_bytes : Text → Bytes
as_bytes s = s

abbrev digest : Bytes → Bytes
digest b = b

abbrev verifies : Bytes → Bytes → Bytes → Text → Bool
verifies message signature public_key profile = true

abbrev thirty_two : Bytes
thirty_two = codes "0123456789abcdef0123456789abcdef"

abbrev expected : ChallengeExpected
expected = record {
  nonce = thirty_two;
  origin = codes "https://realm.macula.io";
  crew_id = thirty_two;
  key_id = key_id_label ++ 0 ∷ 7 ∷ codes "pq_pure" ++ codes "k";
}

abbrev answer : Fields
answer = field (codes "public_key") (text (codes "k")) (
    field (codes "signature") (text (codes "ab")) (
      field (codes "realm_id") (text alice) (field (codes "profile") (text (codes "pq_pure")) end)))

check_challenge-Proves_example : Proves as_bytes as_bytes digest verifies answer expected alice
unfolding check_challenge get same macula_mcp.Crew.decoded macula_mcp.Base.is_lower_hex64 key_id
    macula_mcp.Crew.crew_redeem_challenge_message
check_challenge-Proves_example =
    check_challenge-Proves as_bytes as_bytes digest verifies answer expected alice (λ t plain. refl)
      refl

-- Two origins that are one text, and the message of both.
abbrev subject : ChallengeSubject
subject = record {
  nonce = thirty_two;
  origin = codes "https://realm.macula.io";
  realm_id = thirty_two;
  crew_id = thirty_two;
}

crew_redeem_challenge_message-binds_example :
    (thirty_two ≡ thirty_two)
    × (codes "https://realm.macula.io" ≡ codes "https://realm.macula.io")
    × (thirty_two ≡ thirty_two)
    × (thirty_two ≡ thirty_two)
unfolding crew_redeem_challenge_message
crew_redeem_challenge_message-binds_example =
    crew_redeem_challenge_message-binds as_bytes subject subject _ (λ t plain. refl) refl refl
