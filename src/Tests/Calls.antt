-- ===== src/Tests/Calls.antt =====
-- Tests of the handler of inbound calls.
use macula_mcp.Base.{
  ◌≡◌, refl, arith, none, some, [], codes, same, to_lower_case, trim, is_space, is_hex32,
  is_lower_hex64, starts_with,
}
use macula_mcp.Json.{obj, get}
use macula_mcp.Ring.{accepted}
use macula_mcp.Ring.Pending.{pending_summary, pending_incoming, list_rings}
use macula_mcp.Ring.Wire.{
  RingArgs, ring_problems, ring_header_problems, ring_body_problems, ring_payload, parse_ring_args,
}
use macula_mcp.Envelope.{is_room_topic}
use macula_mcp.Policy.{open_policy, default, ContactPolicy}
use macula_mcp.Machine.{empty_db}
use macula_mcp.Dossier.{ring_received_in}
use macula_mcp.Serve.{
  joined, ServeState, handle_ring, take_ring, decide_ring, accept_ring, addressee_problem,
  rate_limited, last_time, seed_of,
}
use macula_mcp.Serve.Outcome.{IsAddressed, IsWelcome, IsReceived, handle_ring_accepts}
use macula_mcp.Serve.Writes.{IsWritten, handle_ring_writes}
use macula_mcp.Tests.{alice, bob, ring_1, room}

abbrev welcoming : ContactPolicy
welcoming = record {
  contact_policy = open_policy;
  allowlist = [];
  offers = [];
  source = default;
  problems = [];
}

abbrev fresh : ServeState
fresh = record { db = empty_db; last_ring_at = [] }

abbrev ring : RingArgs
ring = record {
  ring_id = ring_1;
  from = bob;
  to = alice;
  purpose = codes "pair";
  room_topic = room;
  sent_at = 5;
}

handle_ring_accepts_example :
    (r : RingArgs) × IsAddressed (obj (ring_payload ring)) bob alice r
    × IsWelcome welcoming r.from
    × (joined ≡ joined)
    × ((handle_ring welcoming
          (λ topic from. joined)
          []
          9000
          9001
          (obj (ring_payload ring))
          bob
          (some alice)
          fresh).0.db
        ≡ (ring_received_in (seed_of alice r) (some accepted) none 9001 empty_db).0)
    × IsReceived r alice 9001 empty_db
        (handle_ring welcoming
          (λ topic from. joined)
          []
          9000
          9001
          (obj (ring_payload ring))
          bob
          (some alice)
          fresh).0.db
unfolding handle_ring take_ring decide_ring accept_ring addressee_problem rate_limited last_time
    pending_summary pending_incoming list_rings parse_ring_args ring_problems ring_header_problems
    ring_body_problems ring_payload same get trim is_space is_hex32 is_lower_hex64 is_room_topic
    starts_with to_lower_case macula_mcp.Dossier.run
handle_ring_accepts_example =
    handle_ring_accepts welcoming (λ topic from. joined) [] 9000 9001 (obj (ring_payload ring)) bob
      alice fresh (some ring_1) (some room) none (λ e. ground arith) refl

handle_ring_writes_example :
    IsWritten []
      (obj (ring_payload ring))
      bob
      alice
      9001
      empty_db
      (handle_ring welcoming
        (λ topic from. joined)
        []
        9000
        9001
        (obj (ring_payload ring))
        bob
        (some alice)
        fresh).0.db
handle_ring_writes_example =
    handle_ring_writes welcoming (λ topic from. joined) [] 9000 9001 (obj (ring_payload ring)) bob
      alice fresh (λ e. ground arith)
