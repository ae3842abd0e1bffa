-- ===== src/Tests/Dossiers.antt =====
-- Tests of the ring dossier and of the node event log.
use macula_mcp.Base.{
  ◌≡◌, ◌≤◌, refl, true, false, none, some, ◌++◌, same, to_lower_case, arith, All, keep, length,
}
use macula_mcp.Ring.{accepted, declined, decided, incoming, RingRow}
use macula_mcp.NodeEvents.{EventLog, append_node_event, read_node_events, is_after}
use macula_mcp.NodeEvents.Cursor.{IsOrdered, read_node_events-page}
use macula_mcp.Machine.{Db, empty_db}
use macula_mcp.Dossier.{
  log_answered, ring_received_in, claim_deferred_ring, answer_claimed_ring, receives, apply, run,
}
use macula_mcp.Dossier.Once.{decisions, IsNamed, IsConsistent}
use macula_mcp.Dossier.History.{decisions-run, answer_in, apply-IsConsistent, empty_db-IsConsistent}
use macula_mcp.Dossier.Final.{answer_in-run}
use macula_mcp.Dossier.Claims.{claim_lease, is_claimed}
use macula_mcp.Dossier.Log.{run-log}
use macula_mcp.Tests.{alice, bob, ring_1, room, seed, token_1, token_2, history}

history-IsNamed : All IsNamed history
history-IsNamed = ((λ e. ground arith), (tt, (tt, (tt, (tt, tt)))))

decisions-run_example : decisions ring_1 incoming (run history empty_db) ≡ 1
unfolding run apply ring_received_in claim_deferred_ring answer_claimed_ring log_answered
    append_node_event same to_lower_case
decisions-run_example = decisions-run history ring_1 incoming history-IsNamed

-- The file once the ring was received, and once it was claimed.
abbrev received : Db
received = apply (receives seed none none 10) empty_db

received-IsConsistent : IsConsistent received
received-IsConsistent =
    apply-IsConsistent (receives seed none none 10) empty_db (λ e. ground arith)
      empty_db-IsConsistent

abbrev held : Db
held = (claim_deferred_ring ring_1 alice 20 20 token_1 received).0

abbrev row : RingRow
row = record {
  ring_id = ring_1;
  self = some alice;
  direction = incoming;
  peer = bob;
  purpose = seed.purpose;
  room_topic = room;
  sent_at = 5;
  recorded_at = 10;
  answer = none;
  reason = none;
  answered_at = none;
  claim = some token_1;
  claimed_at = none;
}

claim_lease_example :
    ((claim_deferred_ring ring_1 bob 30 30 token_2 held).0 ≡ held)
    × (is_claimed (claim_deferred_ring ring_1 bob 30 30 token_2 held).1 ≡ false)
    × (answer_claimed_ring ring_1 token_2 declined none 35 held ≡ (held, false))
    × ((answer_claimed_ring ring_1 token_1 declined none 35 held).1 ≡ true)
unfolding apply ring_received_in claim_deferred_ring append_node_event same to_lower_case
claim_lease_example =
    claim_lease ring_1 alice token_1 20 20 received held row bob token_2 30 35 declined none
      received-IsConsistent refl (omega arith) (λ e. ground arith)

answer_in-run_example :
    answer_in ring_1 incoming (run history (apply (receives seed (some declined) none 8) empty_db))
    ≡ some (decided declined)
unfolding apply ring_received_in log_answered append_node_event same to_lower_case
answer_in-run_example =
    answer_in-run history (apply (receives seed (some declined) none 8) empty_db) ring_1 incoming
      declined refl

empty-IsOrdered : IsOrdered empty_db.log
empty-IsOrdered = record { rising = tt; below = tt; positive = omega arith }

abbrev log : EventLog
log = (run history empty_db).log

read_node_events-page_example :
    ((read_node_events log alice (some 0) 1).events
        ++ keep
            (is_after (to_lower_case alice) (read_node_events log alice (some 0) 1).next_after_seq)
            log.events
      ≡ keep (is_after (to_lower_case alice) 0) log.events)
    × (length (read_node_events log alice (some 0) 1).events ≤ 1)
read_node_events-page_example =
    read_node_events-page log alice 0 1 (run-log history empty_db empty-IsOrdered).1

-- The second claim loses and the answer under its token is refused.
second_claim_refused : (answer_claimed_ring ring_1 token_2 accepted none 35 held).1 ≡ false
unfolding apply ring_received_in claim_deferred_ring answer_claimed_ring append_node_event same
    to_lower_case
second_claim_refused = refl
