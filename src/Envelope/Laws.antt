-- ===== src/Envelope/Laws.antt =====
-- src/envelope.ts: buildEnvelope read back by parseEnvelope.
use macula_mcp.Base.{
  ℕ, ◌≡◌, refl, ap, true, Option, none, some, List, Text, codes, same, arith, to_lower_case,
}
use macula_mcp.Json.{Value, obj, get, optional_text, optional_texts}
use macula_mcp.Json.Lookup.{get-opt_ne, get-opt_self, texts_in-arr_of_texts}
use macula_mcp.Envelope.{
  Kind, kind_name, kind_of, Envelope, read_envelope, parse_envelope, payload_of, text_value,
  list_value, lower_all, is_empty, envelope_problems, BuildInput, draft, built, build_envelope,
}

-- Every kind is found by its name.
kind_of-kind_name : (k : Kind) → kind_of (kind_name k) ≡ some k
unfolding kind_of kind_name same
kind_of-kind_name Kind.room_opened = refl
kind_of-kind_name _ = refl

module _ (e : Envelope) where
  at_to : get (codes "to") (payload_of e) ≡ list_value e.to
  unfolding payload_of get same
  at_to = simp (get-opt_ne, get-opt_self)

  at_message : get (codes "message_id") (payload_of e) ≡ some (Value.text e.message_id)
  unfolding payload_of get same
  at_message = refl

  at_purpose : get (codes "purpose") (payload_of e) ≡ text_value e.purpose
  unfolding payload_of get same
  at_purpose = simp (get-opt_ne, get-opt_self)

  at_room_topic : get (codes "room_topic") (payload_of e) ≡ some (Value.text e.room_topic)
  unfolding payload_of get same
  at_room_topic = refl

  at_sent_at : get (codes "sent_at") (payload_of e) ≡ some (Value.nat e.sent_at)
  unfolding payload_of get same
  at_sent_at = refl

  at_from : get (codes "from") (payload_of e) ≡ some (Value.text e.from)
  unfolding payload_of get same
  at_from = refl

  at_kind : get (codes "kind") (payload_of e) ≡ some (Value.text (kind_name e.kind))
  unfolding payload_of get same
  at_kind = refl

  at_text : get (codes "text") (payload_of e) ≡ some (Value.text e.text)
  unfolding payload_of get same
  at_text = refl

  at_in_reply_to : get (codes "in_reply_to") (payload_of e) ≡ text_value e.in_reply_to
  unfolding payload_of get same
  at_in_reply_to = simp (get-opt_ne, get-opt_self)

  at_from_citizen : get (codes "from_citizen") (payload_of e) ≡ text_value e.from_citizen
  unfolding payload_of get same
  at_from_citizen = simp (get-opt_ne, get-opt_self)

  at_refs : get (codes "refs") (payload_of e) ≡ list_value e.refs
  unfolding payload_of get same
  at_refs = simp (get-opt_ne, get-opt_self)

  at_participants : get (codes "participants") (payload_of e) ≡ list_value e.participants
  unfolding payload_of get same
  at_participants = simp (get-opt_ne, get-opt_self)

optional_text-text_value : (o : Option Text) → optional_text (text_value o) ≡ o
optional_text-text_value none = refl
optional_text-text_value (some s) = refl

optional_texts-list_value : (o : Option (List Text)) → optional_texts (list_value o) ≡ o
optional_texts-list_value none = refl
optional_texts-list_value (some ss) = ap some (texts_in-arr_of_texts ss)

-- The envelope as a reader sees it: its node ids in lower case.
abbrev pub lowered : Envelope → Envelope
lowered e = record e { from = to_lower_case e.from; to = lower_all e.to }

read_envelope-payload_of : (e : Envelope) → read_envelope (payload_of e) ≡ lowered e
unfolding read_envelope
read_envelope-payload_of e = simp (
  at_message e,
  at_room_topic e,
  at_sent_at e,
  at_from e,
  at_kind e,
  at_text e,
  at_in_reply_to e,
  at_from_citizen e,
  at_refs e,
  at_participants e,
  at_to e,
  at_purpose e,
  kind_of-kind_name e.kind,
  optional_text-text_value,
  optional_texts-list_value,
)

built_cases :
    (input : BuildInput) (message_id : Text) (now : ℕ) (e : Envelope)
    → build_envelope input message_id now ≡ built e
    → (e ≡ draft input message_id now) × (is_empty (envelope_problems (obj (payload_of e))) ≡ true)
unfolding build_envelope
built_cases input message_id now e h = ground arith

parse_of_valid :
    (e : Envelope)
    → is_empty (envelope_problems (obj (payload_of e))) ≡ true
    → parse_envelope (obj (payload_of e)) ≡ some (lowered e)
unfolding parse_envelope
parse_of_valid e h = rw h (ap some (read_envelope-payload_of e))

-- Whatever `buildEnvelope` returns is the envelope of its input, its message id and its clock, and
-- every reader of the published fact parses it to that envelope with `from` and `to` in lower case;
-- the participants keep their spelling.
pub parse-build :
    (input : BuildInput) (message_id : Text) (now : ℕ) (e : Envelope)
    → build_envelope input message_id now ≡ built e
    → (e ≡ draft input message_id now) × (parse_envelope (obj (payload_of e)) ≡ some (lowered e))
parse-build input message_id now e h =
    let (same_draft, valid) = built_cases input message_id now e h in
    (same_draft, parse_of_valid e valid)
