-- ===== src/Tests/Wires.antt =====
-- Tests of the payloads: rings, their answers, and envelopes.
use macula_mcp.Base.{◌≡◌, refl, none, some, [], ◌∷◌, codes, same, is_hex32, is_hex64, starts_with}
use macula_mcp.Json.{obj, get}
use macula_mcp.Ring.{accepted}
use macula_mcp.Ring.Wire.{RingArgs, RingAnswerArgs, build_ring_args, parse_ring_args, ring_payload}
use macula_mcp.Ring.Wire.Laws.{parse-build_ring_args}
use macula_mcp.Envelope.Sound.{IsEnvelope, parse_envelope-IsEnvelope}
use macula_mcp.Envelope
use macula_mcp.Envelope.{
  Envelope, BuildInput, room_opened, question_asked, answer_given, build_envelope, draft,
  payload_of, parse_envelope, read_envelope, kind_name, kind_of, envelope_problems, field_problems,
  identity_problems, sender_problems, reply_problems, reference_problems, recipient_problems,
  is_conversation_topic, is_room_topic,
}
use macula_mcp.Envelope.Laws.{lowered, parse-build}
use macula_mcp.Tests.{alice, bob, ring_1, room}

abbrev ring : RingArgs
ring = record {
  ring_id = ring_1;
  from = bob;
  to = alice;
  purpose = codes "pair";
  room_topic = room;
  sent_at = 5;
}

abbrev answer : RingAnswerArgs
answer = record {
  ring_id = ring_1;
  from = alice;
  to = bob;
  answer = accepted;
  room_topic = room;
  reason = none;
  sent_at = 6;
}

abbrev input : BuildInput
input = record {
  room_topic = room;
  from = alice;
  kind = question_asked;
  text = some (codes "who?");
  in_reply_to = none;
  refs = none;
  participants = none;
  purpose = none;
  from_citizen = none;
  to = some (bob ∷ []);
}

abbrev asked : Envelope
asked = record {
  message_id = ring_1;
  room_topic = room;
  in_reply_to = none;
  sent_at = 7;
  from = alice;
  from_citizen = none;
  kind = question_asked;
  text = codes "who?";
  refs = none;
  to = some (bob ∷ []);
  participants = none;
  purpose = none;
}

parse-build_example :
    (asked ≡ draft input ring_1 7)
    × (parse_envelope (obj (payload_of asked)) ≡ some (lowered asked))
unfolding build_envelope draft payload_of kind_name kind_of envelope_problems field_problems
    identity_problems sender_problems reply_problems reference_problems recipient_problems
    is_conversation_topic is_room_topic same get is_hex32 is_hex64 starts_with
parse-build_example = parse-build input ring_1 7 asked refl

-- An answer that does not say what it answers is refused.
answer_needs_target :
    envelope_problems (obj (payload_of (record asked { kind = answer_given })))
    ≡ Envelope.missing_in_reply_to answer_given ∷ []
unfolding payload_of kind_name kind_of envelope_problems field_problems identity_problems
    sender_problems reply_problems reference_problems recipient_problems is_conversation_topic
    is_room_topic same get is_hex32 is_hex64 starts_with
answer_needs_target = refl

parse_envelope-IsEnvelope_example : IsEnvelope asked
unfolding payload_of parse_envelope kind_name kind_of envelope_problems field_problems
    identity_problems sender_problems reply_problems reference_problems recipient_problems
    is_conversation_topic is_room_topic same get is_hex32 is_hex64 starts_with read_envelope
    macula_mcp.Base.to_lower_case
parse_envelope-IsEnvelope_example = parse_envelope-IsEnvelope (obj (payload_of asked)) asked refl

parse-build_ring_args_example :
    (ring ≡ ring) × (parse_ring_args (obj (ring_payload ring)) ≡ some ring)
unfolding build_ring_args macula_mcp.Ring.Wire.ring_problems ring_payload
    macula_mcp.Ring.Wire.ring_header_problems get same is_hex32 macula_mcp.Base.is_lower_hex64
    macula_mcp.Ring.Wire.ring_body_problems macula_mcp.Base.trim is_room_topic starts_with
parse-build_ring_args_example = parse-build_ring_args ring ring refl
