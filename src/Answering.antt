-- ===== src/Answering.antt =====
-- src/ring_agents/serve_rings.ts, answerPendingRing: the model's own answer to a ring that the policy
-- deferred. While the join is awaited the other sessions of the machine go on: `during` is what they
-- do to the file. `join` and `call` are the mesh's part, `call` giving what came back, if anything.
pub mod Recorded
use macula_mcp.Base.{ℕ, Bool, true, false, Option, none, some, List, [], ◌∷◌, Text, if◌then◌else◌}
use macula_mcp.Json.{Value}
use macula_mcp.Ring.{Answer, Verdict, accepted, declined, RingRow}
use macula_mcp.Ring.Wire.{
  Problem, RingAnswerArgs, RingAnswerReply, Built, built, refused, build_ring_answer_args,
  parse_ring_answer_reply,
}
use macula_mcp.Machine.{Db}
use macula_mcp.Dossier.{
  Claim, claimed, missing, answered, claim_deferred_ring, answer_claimed_ring, release_claim,
  Transition, run,
}
use macula_mcp.Serve.{JoinOutcome, joined, at_capacity, join_failed}

pub record PendingAnswer : Type 0 where
  pub ring_id : Text
  pub answer : Verdict
  pub reason : Option Text

pub data Outcome : Type 0 where
  -- peer, room_topic and caller_notified of the result
  recorded : Text → (room_topic : Text) → (notified : Bool) → Outcome
  -- what the function throws
  not_active no_such_ring lost_claim room_limit room_failed : Outcome
  already_answered : Option Answer → Outcome
  bad_answer : List Problem → Outcome

-- The clocks and the token of one call, and what happens around it.
pub record Surroundings : Type 0 where
  pub token : Text
  pub started : ℕ
  pub claimed_at : ℕ
  pub answered_at : ℕ
  pub sent_at : ℕ
  pub join : Text → Text → JoinOutcome
  pub during : List Transition
  pub call : RingAnswerArgs → Option Value

-- joinRoomForAcceptedAnswer: a declined ring's room is not joined.
abbrev pub join_for : Surroundings → Verdict → RingRow → JoinOutcome
join_for w accepted ring = w.join ring.room_topic ring.peer
join_for w declined ring = joined

-- notifyCaller: whether an acknowledgement came back.
abbrev pub is_acknowledged : Option Value → Bool
is_acknowledged none = false
is_acknowledged (some reply) = elim (parse_ring_answer_reply reply) [ none ↦ false | some r ↦ true ]

abbrev pub answer_of_ring : Surroundings → Text → PendingAnswer → RingRow → RingAnswerArgs
answer_of_ring w node_id args ring = record {
  ring_id = ring.ring_id;
  from = node_id;
  to = ring.peer;
  answer = args.answer;
  room_topic = ring.room_topic;
  reason = args.reason;
  sent_at = w.sent_at;
}

abbrev pub notify : Surroundings → Text → PendingAnswer → RingRow → Outcome
notify w node_id args ring = elim (build_ring_answer_args (answer_of_ring w node_id args ring)) [
  | refused problems ↦ bad_answer problems
  | built ans ↦ recorded ring.peer ring.room_topic (is_acknowledged (w.call ans))
]

-- Once the room is joined: the answer is recorded if the claim still stands.
unfoldable pub record_answer :
    Surroundings → Text → PendingAnswer → RingRow → Text → Db → Db × Outcome
record_answer w node_id args ring token db =
    if (answer_claimed_ring ring.ring_id token args.answer args.reason w.answered_at db).1
    then (
      (answer_claimed_ring ring.ring_id token args.answer args.reason w.answered_at db).0,
      notify w node_id args ring,
    )
    else (db, lost_claim)

abbrev pub answer_claimed : Surroundings → Text → PendingAnswer → Db × Claim → Db × Outcome
answer_claimed w node_id args (db, missing) = (db, no_such_ring)
answer_claimed w node_id args (db, answered a) = (db, already_answered a)
answer_claimed w node_id args (db, claimed ring token) = elim (join_for w args.answer ring) [
  | joined ↦ record_answer w node_id args ring token (run w.during db)
  | at_capacity ↦ (release_claim ring.ring_id token (run w.during db), room_limit)
  | join_failed ↦ (release_claim ring.ring_id token (run w.during db), room_failed)
]

unfoldable pub answer_pending_ring : Surroundings → Text → PendingAnswer → Db → Db × Outcome
answer_pending_ring w [] args db = (db, not_active)
answer_pending_ring w (c ∷ cs) args db =
    answer_claimed w (c ∷ cs) args
      (claim_deferred_ring args.ring_id (c ∷ cs) w.started w.claimed_at w.token db)
