-- ===== src/Ring/Wire.antt =====
-- src/ring_agents/rings.ts: what travels to a node's ring procedure and back, validated on both
-- ends. A problem text of the source is a constructor of `Problem` here.
pub mod Laws
use macula_mcp.Base.{
  ℕ, Bool, true, false, ◌&&◌, Option, none, some, List, [], ◌∷◌, ◌++◌, map, Text, codes, length,
  trim, is_hex32, is_lower_hex64, to_lower_case, same, leb, ◌==◌, if◌then◌else◌,
}
use macula_mcp.Json.{
  Value, nat, text, arr, obj, Fields, field, end, get, text_of, nat_of, as_text, opt, boolean_keys,
}
use macula_mcp.Envelope.{is_room_topic}
use macula_mcp.Ring.{Answer, Verdict, decided, deferred, accepted, declined}

abbrev pub max_purpose_chars : ℕ
max_purpose_chars = 280

unfoldable pub ring_procedure : Text → Text
ring_procedure node_id = b'~' ∷ (to_lower_case node_id ++ codes "/ring")

pub record RingArgs : Type 0 where
  pub ring_id : Text
  pub from : Text
  pub to : Text
  pub purpose : Text
  pub room_topic : Text
  pub sent_at : ℕ

pub record RingAnswerArgs : Type 0 where
  pub ring_id : Text
  pub from : Text
  pub to : Text
  pub answer : Verdict
  pub room_topic : Text
  pub reason : Option Text
  pub sent_at : ℕ

pub data Problem : Type 0 where
  not_an_object : Problem
  boolean_at : Text → Problem
  bad_kind bad_ring_id bad_from bad_to bad_purpose bad_room_topic bad_sent_at : Problem
  bad_answer bad_reason : Problem

-- `if (!test) problems.push(problem)`
abbrev pub unless : Bool → Problem → List Problem
unless true p = []
unless false p = p ∷ []

abbrev pub is_text_where : (Text → Bool) → Option Value → Bool
is_text_where p (some (text s)) = p s
is_text_where p _ = false

abbrev pub is_nat : Option Value → Bool
is_nat (some (nat n)) = true
is_nat _ = false

abbrev pub is_purpose : Text → Bool
is_purpose s = leb 1 (length (trim s)) && leb (length s) max_purpose_chars

abbrev pub is_optional_text : Option Value → Bool
is_optional_text none = true
is_optional_text (some (text s)) = true
is_optional_text (some _) = false

-- `v === 1 || v === 2`, with the verdict.
abbrev pub verdict_at : Option Value → Option Verdict
verdict_at (some (nat n)) = if n == 1 then some accepted else if n == 2 then some declined else none
verdict_at _ = none

abbrev pub is_verdict : Option Verdict → Bool
is_verdict none = false
is_verdict (some v) = true

unfoldable pub ring_header_problems : Fields → List Problem
ring_header_problems p =
    unless (is_text_where (same (codes "ring")) (get (codes "kind") p)) bad_kind
    ++ (unless (is_text_where is_hex32 (get (codes "ring_id") p)) bad_ring_id
        ++ (unless (is_text_where is_lower_hex64 (get (codes "from") p)) bad_from
            ++ unless (is_text_where is_lower_hex64 (get (codes "to") p)) bad_to))

unfoldable pub ring_body_problems : Fields → List Problem
ring_body_problems p =
    unless (is_text_where is_purpose (get (codes "purpose") p)) bad_purpose
    ++ (unless (is_text_where is_room_topic (get (codes "room_topic") p)) bad_room_topic
        ++ unless (is_nat (get (codes "sent_at") p)) bad_sent_at)

unfoldable pub ring_problems : Value → List Problem
ring_problems (obj p) =
    map boolean_at (boolean_keys p) ++ (ring_header_problems p ++ ring_body_problems p)
ring_problems _ = not_an_object ∷ []

unfoldable pub ring_answer_header_problems : Fields → List Problem
ring_answer_header_problems p =
    unless (is_text_where (same (codes "ring_answer")) (get (codes "kind") p)) bad_kind
    ++ (unless (is_text_where is_hex32 (get (codes "ring_id") p)) bad_ring_id
        ++ (unless (is_text_where is_lower_hex64 (get (codes "from") p)) bad_from
            ++ (unless (is_text_where is_lower_hex64 (get (codes "to") p)) bad_to
                ++ unless (is_verdict (verdict_at (get (codes "answer") p))) bad_answer)))

unfoldable pub ring_answer_body_problems : Fields → List Problem
ring_answer_body_problems p =
    unless (is_text_where is_room_topic (get (codes "room_topic") p)) bad_room_topic
    ++ (unless (is_optional_text (get (codes "reason") p)) bad_reason
        ++ unless (is_nat (get (codes "sent_at") p)) bad_sent_at)

unfoldable pub ring_answer_problems : Value → List Problem
ring_answer_problems (obj p) =
    map boolean_at (boolean_keys p)
    ++ (ring_answer_header_problems p ++ ring_answer_body_problems p)
ring_answer_problems _ = not_an_object ∷ []

abbrev pub is_empty : List Problem → Bool
is_empty [] = true
is_empty (p ∷ ps) = false

abbrev pub read_ring : Fields → RingArgs
read_ring p = record {
  ring_id = text_of (get (codes "ring_id") p);
  from = text_of (get (codes "from") p);
  to = text_of (get (codes "to") p);
  purpose = text_of (get (codes "purpose") p);
  room_topic = text_of (get (codes "room_topic") p);
  sent_at = nat_of (get (codes "sent_at") p);
}

unfoldable pub parse_ring_args : Value → Option RingArgs
parse_ring_args (obj p) = if is_empty (ring_problems (obj p)) then some (read_ring p) else none
parse_ring_args _ = none

-- The verdict of a payload that has one.
abbrev pub known_verdict : Option Verdict → Verdict
known_verdict none = declined
known_verdict (some v) = v

abbrev pub read_ring_answer : Fields → RingAnswerArgs
read_ring_answer p = record {
  ring_id = text_of (get (codes "ring_id") p);
  from = text_of (get (codes "from") p);
  to = text_of (get (codes "to") p);
  answer = known_verdict (verdict_at (get (codes "answer") p));
  room_topic = text_of (get (codes "room_topic") p);
  reason = as_text (get (codes "reason") p);
  sent_at = nat_of (get (codes "sent_at") p);
}

unfoldable pub parse_ring_answer_args : Value → Option RingAnswerArgs
parse_ring_answer_args (obj p) =
    if is_empty (ring_answer_problems (obj p)) then some (read_ring_answer p) else none
parse_ring_answer_args _ = none

-- `{ ...args }`: what is sent.
unfoldable pub ring_payload : RingArgs → Fields
ring_payload r = field (codes "kind") (text (codes "ring")) (
    field (codes "ring_id") (text r.ring_id) (
      field (codes "from") (text r.from) (
        field (codes "to") (text r.to) (
          field (codes "purpose") (text r.purpose) (
            field (codes "room_topic") (text r.room_topic)
              (field (codes "sent_at") (nat r.sent_at) end))))))

abbrev pub verdict_code : Verdict → ℕ
verdict_code accepted = 1
verdict_code declined = 2

abbrev pub text_value : Option Text → Option Value
text_value none = none
text_value (some s) = some (text s)

unfoldable pub ring_answer_payload : RingAnswerArgs → Fields
ring_answer_payload a = field (codes "kind") (text (codes "ring_answer")) (
    field (codes "ring_id") (text a.ring_id) (
      field (codes "from") (text a.from) (
        field (codes "to") (text a.to) (
          field (codes "answer") (nat (verdict_code a.answer)) (
            field (codes "room_topic") (text a.room_topic) (
              opt (codes "reason") (text_value a.reason)
                (field (codes "sent_at") (nat a.sent_at) end)))))))

-- The value, or the problems that the RingError names.
pub data Built (A : Type 0) : Type 0 where
  built : A → Built A
  refused : List Problem → Built A

abbrev pub checked : {A : Type 0} → List Problem → A → Built A
checked [] a = built a
checked (p ∷ ps) a = refused (p ∷ ps)

-- buildRingArgs and buildRingAnswerArgs: the ring id that is drawn and the clock are in the argument.
unfoldable pub build_ring_args : RingArgs → Built RingArgs
build_ring_args args = checked (ring_problems (obj (ring_payload args))) args

unfoldable pub build_ring_answer_args : RingAnswerArgs → Built RingAnswerArgs
build_ring_answer_args args = checked (ring_answer_problems (obj (ring_answer_payload args))) args

pub record RingReply : Type 0 where
  pub ring_id : Option Text
  pub answer : Answer
  pub room_topic : Option Text
  pub reason : Option Text

abbrev pub answer_at : Option Value → Option Answer
answer_at (some (nat n)) =
    if n == 1
    then some (decided accepted)
    else if n == 2
    then some (decided declined)
    else if n == 3
    then some deferred
    else none
answer_at _ = none

abbrev pub optional_ring_id : Option Value → Bool
optional_ring_id none = true
optional_ring_id (some v) = is_text_where is_hex32 (some v)

-- parseRingReply: the optional fields are copied when they are strings.
unfoldable pub parse_ring_reply : Value → Option RingReply
parse_ring_reply (obj p) = elim (answer_at (get (codes "answer") p)) [
  | none ↦ none
  | some a ↦
      if optional_ring_id (get (codes "ring_id") p)
      then some (record {
        ring_id = as_text (get (codes "ring_id") p);
        answer = a;
        room_topic = as_text (get (codes "room_topic") p);
        reason = as_text (get (codes "reason") p);
      })
      else none
]
parse_ring_reply _ = none

pub record RingAnswerReply : Type 0 where
  pub ring_id : Text
  pub already_answered : Bool

abbrev pub is_one : Option Value → Bool
is_one (some (nat n)) = n == 1
is_one _ = false

unfoldable pub parse_ring_answer_reply : Value → Option RingAnswerReply
parse_ring_answer_reply (obj p) =
    if is_text_where is_hex32 (get (codes "ring_id") p) && is_one (get (codes "received") p)
    then some (record {
      ring_id = text_of (get (codes "ring_id") p);
      already_answered = is_one (get (codes "already_answered") p);
    })
    else none
parse_ring_answer_reply _ = none
