-- ===== src/Envelope.antt =====
-- src/envelope.ts: the one shape of every conversation fact, and what makes a payload one. A
-- problem text of the source is a constructor of `Problem` here.
pub mod Laws
pub mod Sound
use macula_mcp.Base.{
  ℕ, ◌≡◌, Bool, true, false, not, ◌&&◌, ◌||◌, Option, none, some, List, [], ◌∷◌, ◌++◌, map, Text,
  codes, same, starts_with, drop, length, all, any, find, is_hex32, is_hex64, to_lower_case, ltb,
  leb, if◌then◌else◌, is_some,
}
use macula_mcp.Json.{
  Value, null, bool, nat, num, text, arr, obj, Items, items, Fields, field, end, get, is_bool,
  as_text, text_of, nat_of, texts_of, is_present, optional_text, optional_texts, is_list_of, opt,
  arr_of_texts, boolean_keys,
}

abbrev pub central_topic : Text
central_topic = codes "agents.lobby"

abbrev pub room_topic_prefix : Text
room_topic_prefix = codes "agents.room."

-- LIFECYCLE_KINDS and TALK_KINDS.
pub data Kind : Type 0 where
  room_opened participant_joined participant_left room_closed : Kind
  question_asked answer_given help_offered help_requested task_handed_over : Kind
  result_reported remark_made lane_claimed lane_released claim_confirmed claim_disputed : Kind

abbrev pub kinds : List Kind
kinds =
    room_opened ∷ participant_joined ∷ participant_left ∷ room_closed ∷ question_asked
    ∷ answer_given ∷ help_offered ∷ help_requested ∷ task_handed_over ∷ result_reported
    ∷ remark_made ∷ lane_claimed ∷ lane_released ∷ claim_confirmed ∷ claim_disputed ∷ []

unfoldable pub kind_name : Kind → Text
kind_name room_opened = codes "room_opened"
kind_name participant_joined = codes "participant_joined"
kind_name participant_left = codes "participant_left"
kind_name room_closed = codes "room_closed"
kind_name question_asked = codes "question_asked"
kind_name answer_given = codes "answer_given"
kind_name help_offered = codes "help_offered"
kind_name help_requested = codes "help_requested"
kind_name task_handed_over = codes "task_handed_over"
kind_name result_reported = codes "result_reported"
kind_name remark_made = codes "remark_made"
kind_name lane_claimed = codes "lane_claimed"
kind_name lane_released = codes "lane_released"
kind_name claim_confirmed = codes "claim_confirmed"
kind_name claim_disputed = codes "claim_disputed"

-- REPLY_REQUIRED_KINDS
abbrev pub needs_reply_to : Kind → Bool
needs_reply_to answer_given = true
needs_reply_to result_reported = true
needs_reply_to lane_released = true
needs_reply_to claim_confirmed = true
needs_reply_to claim_disputed = true
needs_reply_to _ = false

-- isKind, with the kind that the text names.
unfoldable pub kind_of : Text → Option Kind
kind_of s = find (λ k. same (kind_name k) s) kinds

unfoldable pub is_room_topic : Text → Bool
is_room_topic topic =
    starts_with room_topic_prefix topic && is_hex32 (drop (length room_topic_prefix) topic)

unfoldable pub is_conversation_topic : Text → Bool
is_conversation_topic topic = same topic central_topic || is_room_topic topic

abbrev pub max_to : ℕ
max_to = 32

pub record Envelope : Type 0 where
  pub message_id : Text
  pub room_topic : Text
  pub in_reply_to : Option Text
  pub sent_at : ℕ
  pub from : Text
  pub from_citizen : Option Text
  pub kind : Kind
  pub text : Text
  pub refs : Option (List Text)
  pub to : Option (List Text)
  pub participants : Option (List Text)
  pub purpose : Option Text

pub data Problem : Type 0 where
  not_an_object : Problem
  boolean_at : Text → Problem
  bad_message_id bad_room_topic bad_sent_at bad_from bad_kind bad_text bad_in_reply_to : Problem
  missing_in_reply_to : Kind → Problem
  bad_from_citizen bad_refs bad_participants bad_to bad_purpose : Problem

-- `if (!test) problems.push(problem)`
abbrev pub unless : Bool → Problem → List Problem
unless true p = []
unless false p = p ∷ []

abbrev pub is_text_where : (Text → Bool) → Option Value → Bool
is_text_where p (some (Value.text s)) = p s
is_text_where p _ = false

-- Absent, or a string that passes.
abbrev pub is_optional_where : (Text → Bool) → Option Value → Bool
is_optional_where p none = true
is_optional_where p (some v) = is_text_where p (some v)

abbrev pub is_nat : Option Value → Bool
is_nat (some (nat n)) = true
is_nat _ = false

abbrev pub is_nonempty : Text → Bool
is_nonempty [] = false
is_nonempty (c ∷ s) = true

abbrev pub kind_at : Option Value → Option Kind
kind_at (some (Value.text s)) = kind_of s
kind_at _ = none

abbrev pub is_optional_list : (Text → Bool) → Option Value → Bool
is_optional_list p none = true
is_optional_list p (some v) = is_list_of p v

abbrev pub count_items : Option Value → ℕ
count_items (some (arr vs)) = length (items vs)
count_items _ = 0

unfoldable pub identity_problems : Fields → List Problem
identity_problems p =
    unless (is_text_where is_hex32 (get (codes "message_id") p)) bad_message_id
    ++ (unless (is_text_where is_conversation_topic (get (codes "room_topic") p)) bad_room_topic
        ++ unless (is_nat (get (codes "sent_at") p)) bad_sent_at)

unfoldable pub sender_problems : Fields → List Problem
sender_problems p =
    unless (is_text_where is_hex64 (get (codes "from") p)) bad_from
    ++ (unless (is_some (kind_at (get (codes "kind") p))) bad_kind
        ++ unless (is_text_where (λ s. true) (get (codes "text") p)) bad_text)

abbrev pub reply_missing : Option Kind → Option Value → List Problem
reply_missing none v = []
reply_missing (some k) v = unless (not (needs_reply_to k) || is_present v) (missing_in_reply_to k)

unfoldable pub reply_problems : Fields → List Problem
reply_problems p =
    unless (is_optional_where is_hex32 (get (codes "in_reply_to") p)) bad_in_reply_to
    ++ reply_missing (kind_at (get (codes "kind") p)) (get (codes "in_reply_to") p)

unfoldable pub reference_problems : Fields → List Problem
reference_problems p =
    unless (is_optional_where is_nonempty (get (codes "from_citizen") p)) bad_from_citizen
    ++ unless (is_optional_list is_nonempty (get (codes "refs") p)) bad_refs

abbrev pub is_recipients : Option Value → Bool
is_recipients none = true
is_recipients (some v) =
    is_list_of is_hex64 v && leb 1 (count_items (some v)) && leb (count_items (some v)) max_to

unfoldable pub recipient_problems : Fields → List Problem
recipient_problems p =
    unless (is_optional_list is_hex64 (get (codes "participants") p)) bad_participants
    ++ unless (is_recipients (get (codes "to") p)) bad_to

unfoldable pub field_problems : Fields → List Problem
field_problems p =
    map boolean_at (boolean_keys p)
    ++ (identity_problems p
        ++ (sender_problems p
            ++ (reply_problems p
                ++ (reference_problems p
                    ++ (recipient_problems p
                        ++ unless (is_optional_where (λ s. true) (get (codes "purpose") p))
                            bad_purpose)))))

unfoldable pub envelope_problems : Value → List Problem
envelope_problems (obj p) = field_problems p
envelope_problems _ = not_an_object ∷ []

abbrev pub lower_all : Option (List Text) → Option (List Text)
lower_all none = none
lower_all (some ids) = some (map to_lower_case ids)

-- The kind of a payload that has one.
abbrev pub known_kind : Option Kind → Kind
known_kind none = remark_made
known_kind (some k) = k

-- The known keys of a payload with no problem.
unfoldable pub read_envelope : Fields → Envelope
read_envelope p = record {
  message_id = text_of (get (codes "message_id") p);
  room_topic = text_of (get (codes "room_topic") p);
  in_reply_to = optional_text (get (codes "in_reply_to") p);
  sent_at = nat_of (get (codes "sent_at") p);
  from = to_lower_case (text_of (get (codes "from") p));
  from_citizen = optional_text (get (codes "from_citizen") p);
  kind = known_kind (kind_at (get (codes "kind") p));
  text = text_of (get (codes "text") p);
  refs = optional_texts (get (codes "refs") p);
  to = lower_all (optional_texts (get (codes "to") p));
  participants = optional_texts (get (codes "participants") p);
  purpose = optional_text (get (codes "purpose") p);
}

abbrev pub is_empty : List Problem → Bool
is_empty [] = true
is_empty (p ∷ ps) = false

unfoldable pub parse_envelope : Value → Option Envelope
parse_envelope (obj p) =
    if is_empty (envelope_problems (obj p)) then some (read_envelope p) else none
parse_envelope _ = none

abbrev pub text_value : Option Text → Option Value
text_value none = none
text_value (some s) = some (Value.text s)

abbrev pub list_value : Option (List Text) → Option Value
list_value none = none
list_value (some ss) = some (arr (arr_of_texts ss))

-- `{ ...env }`: the fact that is published. Optional keys are left out.
unfoldable pub payload_of : Envelope → Fields
payload_of e = field (codes "message_id") (Value.text e.message_id) (
    field (codes "room_topic") (Value.text e.room_topic) (
      field (codes "sent_at") (nat e.sent_at) (
        field (codes "from") (Value.text e.from) (
          field (codes "kind") (Value.text (kind_name e.kind)) (
            field (codes "text") (Value.text e.text) (
              opt (codes "in_reply_to") (text_value e.in_reply_to) (
                opt (codes "from_citizen") (text_value e.from_citizen) (
                  opt (codes "refs") (list_value e.refs) (
                    opt (codes "to") (list_value e.to) (
                      opt (codes "participants") (list_value e.participants)
                        (opt (codes "purpose") (text_value e.purpose) end)))))))))))

-- BuildInput, with the message id that the source draws and the clock that it reads.
pub record BuildInput : Type 0 where
  pub room_topic : Text
  pub from : Text
  pub kind : Kind
  pub text : Option Text
  pub in_reply_to : Option Text
  pub refs : Option (List Text)
  pub participants : Option (List Text)
  pub purpose : Option Text
  pub from_citizen : Option Text
  pub to : Option (List Text)

abbrev or_empty : Option Text → Text
or_empty none = []
or_empty (some s) = s

unfoldable pub draft : BuildInput → Text → ℕ → Envelope
draft input message_id now = record {
  message_id = message_id;
  room_topic = input.room_topic;
  in_reply_to = input.in_reply_to;
  sent_at = now;
  from = input.from;
  from_citizen = input.from_citizen;
  kind = input.kind;
  text = or_empty input.text;
  refs = input.refs;
  to = input.to;
  participants = input.participants;
  purpose = input.purpose;
}

-- The envelope, or the problems that the EnvelopeError names.
pub data Built : Type 0 where
  built : Envelope → Built
  refused : List Problem → Built

unfoldable pub build_envelope : BuildInput → Text → ℕ → Built
build_envelope input message_id now =
    elim (envelope_problems (obj (payload_of (draft input message_id now)))) [
      | [] ↦ built (draft input message_id now)
      | p ∷ ps ↦ refused (p ∷ ps)
    ]

-- isAttested: the station's publisher is the node that the envelope claims.
unfoldable pub is_attested : Text → Option Text → Bool
is_attested from none = false
is_attested from (some publisher) = same (to_lower_case publisher) (to_lower_case from)
