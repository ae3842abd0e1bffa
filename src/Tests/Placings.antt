-- ===== src/Tests/Placings.antt =====
-- Tests of the caller's side of a ring.
use macula_mcp.Base.{
  ◌≡◌, refl, arith, true, false, none, some, [], ◌∷◌, Text, codes, same, find, to_lower_case, trim,
  is_space, is_hex32, is_hex64, is_lower_hex64, starts_with,
}
use macula_mcp.Json.{obj, get}
use macula_mcp.Ring.{accepted, decided, outgoing, has_key}
use macula_mcp.Ring.Pending.{pending_summary, pending_incoming, list_rings}
use macula_mcp.Ring.Wire.{
  RingArgs, ring_problems, ring_header_problems, ring_body_problems, ring_payload, parse_ring_args,
  build_ring_args, parse_ring_reply,
}
use macula_mcp.Envelope.{
  is_room_topic, participant_joined, payload_of, kind_name, parse_envelope, envelope_problems,
  field_problems, identity_problems, is_conversation_topic, sender_problems, kind_of, read_envelope,
  recipient_problems, reference_problems, reply_problems,
}
use macula_mcp.Policy.{open_policy, default, ContactPolicy}
use macula_mcp.Machine.{empty_db}
use macula_mcp.Dossier.{ring_received_in, ring_placed}
use macula_mcp.Dossier
use macula_mcp.Serve.Outcome.{IsReceived}
use macula_mcp.Serve.{
  joined, ServeState, Reason, JoinOutcome, handle_ring, take_ring, decide_ring, accept_ring,
  addressee_problem, rate_limited, last_time,
}
use macula_mcp.Presence.Roster.{by_node_id}
use macula_mcp.RoomWait.{Fact, facts_after}
use macula_mcp.Placing.{
  wait_for_join, Placing, place_ring, begin_ring, sends, placed_seed, take_reply, is_reply_to,
  wait_for_join,
}
use macula_mcp.Placing.Agreed.{handled, reached, settled, place_ring-agrees}
use macula_mcp.Tests.{alice, bob, ring_1, room}

abbrev welcoming : ContactPolicy
welcoming = record {
  contact_policy = open_policy;
  allowlist = [];
  offers = [];
  source = default;
  problems = [];
}

abbrev fresh : ServeState
fresh = record { db = empty_db; last_ring_at = [] }

abbrev placing : Placing
placing = record {
  has_secret = false;
  to = by_node_id alice;
  me = bob;
  room = some room;
  purpose = codes "pair";
  ring_id = ring_1;
  sent_at = 5;
}

abbrev said : Reason → Text
said r = codes "no"

abbrev join : Text → Text → JoinOutcome
join topic from = joined

place_ring-agrees_example :
    (ring : RingArgs) × (begin_ring placing ≡ sends ring)
    × (ring.to ≡ alice)
    × (join ring.room_topic ring.from ≡ joined)
    × IsReceived ring alice 9001 empty_db
        (handled said welcoming join [] 9000 9001 alice fresh bob (obj (ring_payload ring))).0.db
    × (find
          (has_key ring.ring_id outgoing)
          (place_ring placing
            (reached said welcoming join [] 9000 9001 alice fresh bob)
            6
            []
            7
            empty_db).0.rings
        ≡ settled (decided accepted) none 7 (
            find
              (has_key ring.ring_id outgoing)
              (Dossier.run [] (ring_placed (placed_seed ring) 6 empty_db).0).rings))
unfolding place_ring begin_ring same build_ring_args ring_problems ring_payload ring_header_problems
    get is_hex32 is_lower_hex64 ring_body_problems trim is_room_topic starts_with take_reply
    handle_ring parse_ring_args is_space to_lower_case is_reply_to list_rings pending_incoming
    pending_summary parse_ring_reply accept_ring addressee_problem decide_ring last_time
    rate_limited take_ring Dossier.run
place_ring-agrees_example =
    place_ring-agrees said welcoming join [] 9000 9001 alice fresh placing 6 [] 7 empty_db none
      (λ e. ground arith) refl

-- A fact that alice published in the room, whose envelope says that bob has joined.
abbrev forged : Fact
forged = record {
  id = 1;
  topic = room;
  payload = obj (
      payload_of (record {
        message_id = ring_1;
        room_topic = room;
        in_reply_to = none;
        sent_at = 7;
        from = bob;
        from_citizen = none;
        kind = participant_joined;
        text = [];
        refs = none;
        to = none;
        participants = none;
        purpose = none;
      }));
  observed_at = 1;
  publisher = some alice;
}

forged_join : wait_for_join room bob 0 ((forged ∷ []) ∷ []) ≡ true
unfolding wait_for_join facts_after same parse_envelope envelope_problems field_problems payload_of
    identity_problems get is_hex32 is_conversation_topic is_room_topic starts_with sender_problems
    is_hex64 kind_of kind_name to_lower_case read_envelope recipient_problems reference_problems
    reply_problems
forged_join = refl
