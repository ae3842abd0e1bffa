-- ===== src/Tests/Answers.antt =====
-- Tests of the model's own answers and of threads.
use macula_mcp.Base.{
  ◌+◌, ◌≡◌, refl, true, none, some, List, [], ◌∷◌, Text, codes, same, to_lower_case, is_hex32,
  is_lower_hex64, starts_with, length, All, arith,
}
use macula_mcp.Json.{Value, obj, nat, text, field, end, get}
use macula_mcp.Ring.{accepted, decided, incoming}
use macula_mcp.Ring.Wire.{
  build_ring_answer_args, ring_answer_problems, ring_answer_header_problems,
  ring_answer_body_problems, ring_answer_payload, parse_ring_answer_reply,
}
use macula_mcp.NodeEvents.{append_node_event}
use macula_mcp.Machine.{Db, empty_db}
use macula_mcp.Dossier.{
  receives, places, ring_placed, ring_received_in, claim_deferred_ring, answer_claimed_ring,
  log_answered, apply, run,
}
use macula_mcp.Dossier.History.{answer_in, apply-IsConsistent, empty_db-IsConsistent}
use macula_mcp.Envelope.{Envelope, answer_given, payload_of, is_room_topic}
use macula_mcp.Serve.{joined}
use macula_mcp.Answering.{Surroundings, PendingAnswer, answer_pending_ring, record_answer}
use macula_mcp.Answering.Recorded.{answer_pending_ring-recorded}
use macula_mcp.RoomWait.{Fact}
use macula_mcp.Threads.{Row, ObservedEnvelope, parse_rows, thread_envelopes}
use macula_mcp.Threads.Walk.{threaded, envelopes_of, IsShallow, thread_envelopes-ends}
use macula_mcp.Tests.{alice, bob, ring_1, room, seed, token_1}

abbrev waiting : Db
waiting = apply (receives seed none none 10) empty_db

-- Another ring is placed while the room is joined, and the caller acknowledges.
abbrev around : Surroundings
around = record {
  token = token_1;
  started = 20;
  claimed_at = 20;
  answered_at = 30;
  sent_at = 31;
  join = λ topic peer. joined;
  during = places seed 25 ∷ [];
  call = λ ans.
      some (obj (field (codes "ring_id") (text ring_1) (field (codes "received") (nat 1) end)));
}

abbrev yes_please : PendingAnswer
yes_please = record { ring_id = ring_1; answer = accepted; reason = none }

answer_pending_ring-recorded_example :
    answer_in ring_1 incoming (answer_pending_ring around alice yes_please waiting).0
    ≡ some (decided accepted)
unfolding answer_pending_ring record_answer run apply ring_placed ring_received_in
    claim_deferred_ring answer_claimed_ring log_answered append_node_event build_ring_answer_args
    ring_answer_problems ring_answer_header_problems ring_answer_body_problems ring_answer_payload
    parse_ring_answer_reply same get to_lower_case is_hex32 is_lower_hex64 is_room_topic starts_with
answer_pending_ring-recorded_example =
    answer_pending_ring-recorded around alice yes_please waiting bob room true
      (apply-IsConsistent (receives seed none none 10) empty_db (λ e. ground arith)
        empty_db-IsConsistent)
      ((λ e. ground arith), tt) refl

abbrev ring_2 : Text
ring_2 = codes "ffffffffffffffffffffffffffffffff"

abbrev says : Text → Text → Envelope
says id target = record {
  message_id = id;
  room_topic = room;
  in_reply_to = some target;
  sent_at = 7;
  from = alice;
  from_citizen = none;
  kind = answer_given;
  text = [];
  refs = none;
  to = none;
  participants = none;
  purpose = none;
}

abbrev row_of : Value → Row
row_of payload = record { payload = payload; observed_at = 1; publisher = some alice; seq = none }

-- Two messages that answer each other, and a row that is no envelope.
abbrev cycle : List Row
cycle =
    row_of (obj (payload_of (says ring_1 ring_2)))
    ∷ row_of (nat 3)
    ∷ row_of (obj (payload_of (says ring_2 ring_1)))
    ∷ []

thread_envelopes-ends_example :
    (ms : List ObservedEnvelope) × ((thread_envelopes cycle).0 ≡ some ms)
    × (threaded ms ≡ envelopes_of (parse_rows cycle).0)
    × All (IsShallow (length (parse_rows cycle).0 + 1)) ms
    × (length ms + (thread_envelopes cycle).1 ≡ length cycle)
thread_envelopes-ends_example = thread_envelopes-ends cycle

-- A poll that holds a message of alice and one of bob.
abbrev said : List Fact
said =
    record {
      id = 1;
      topic = room;
      payload = obj (payload_of (says ring_1 ring_2));
      observed_at = 1;
      publisher = some alice;
    }
    ∷ record {
      id = 2;
      topic = room;
      payload = obj (payload_of (record (says ring_2 ring_1) { from = bob }));
      observed_at = 2;
      publisher = some bob;
    }
    ∷ []
