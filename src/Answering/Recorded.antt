-- ===== src/Answering/Recorded.antt =====
-- answerPendingRing of src/ring_agents/serve_rings.ts: its outcome and the row of the ring.
use macula_mcp.Base.{
  find-passes, ℕ, ◌≡◌, ◌≤◌, ◌<◌, refl, true, Bool, Option, some, List, [], ◌∷◌, Text, same_iff,
  arith, count_if, ltb, ltb→lt, find, All, Bool-cases, inl, inr, ◌⊎◌, subst, Option-cases,
  to_lower_case,
}
use macula_mcp.Ring.{Verdict, decided, incoming, RingRow}
use macula_mcp.Machine.{Db}
use macula_mcp.Serve.{JoinOutcome, joined, at_capacity, join_failed}
use macula_mcp.Answering.{
  PendingAnswer, recorded, Surroundings, join_for, record_answer, answer_claimed,
  answer_pending_ring,
}
use macula_mcp.Dossier.{
  is_own_incoming, update_where, holds_claim, set_verdict, answer_claimed_ring, claim_deferred_ring,
  Claim, claimed, missing, answered, run,
}
use macula_mcp.Dossier.Once.{IsConsistent, IsNamed, rings-log_answered}
use macula_mcp.Dossier.Counts.{rows_of, count_if-le-rows_of}
use macula_mcp.Dossier.History.{
  answer_in, answer_in_rows, run-IsConsistent, claim_deferred_ring-IsConsistent,
}

JoinOutcome-cases : (o : JoinOutcome) → (o ≡ joined) ⊎ ((o ≡ at_capacity) ⊎ (o ≡ join_failed))
JoinOutcome-cases joined = inl refl
JoinOutcome-cases at_capacity = inr (inl refl)
JoinOutcome-cases join_failed = inr (inr refl)

verdict_in_rows :
    (id token : Text) (v : Verdict) (reason : Option Text) (at : ℕ) (rows : List RingRow)
    → rows_of id incoming rows ≤ 1
    → 0 < count_if (holds_claim id token) rows
    → answer_in_rows id incoming
        (update_where (holds_claim id token) (set_verdict v reason at) rows)
      ≡ some (decided v)
verdict_in_rows id token v reason at [] u h = ground arith
verdict_in_rows id token v reason at (r ∷ rows) u h = ground (
  arith,
  verdict_in_rows id token v reason at rows,
  count_if-le-rows_of (holds_claim id token) id incoming (λ x p. ground arith) rows,
)

-- An answer under a claim that went through is what the row of the ring holds.
answer_in-answer_claimed_ring :
    (id token : Text) (v : Verdict) (reason : Option Text) (at : ℕ) (db : Db)
    → IsConsistent db
    → (answer_claimed_ring id token v reason at db).1 ≡ true
    → answer_in id incoming (answer_claimed_ring id token v reason at db).0 ≡ some (decided v)
unfolding answer_claimed_ring
answer_in-answer_claimed_ring id token v reason at db c h =
    elim (Bool-cases (ltb 0 (count_if (holds_claim id token) db.rings))) [
      | inr miss ↦ absurd (ground arith)
      | inl hit ↦
          rw (hit, answer_claimed_ring, rings-log_answered id incoming (decided v) reason at _)
            (verdict_in_rows id token v reason at db.rings (c.unique id incoming)
              (ltb→lt 0 (count_if (holds_claim id token) db.rings) hit))
    ]

-- The row that a claim hands out is the ring that was asked for.
claimed-ring_id :
    (id self token token' : Text) (started at : ℕ) (db : Db) (row : RingRow)
    → (claim_deferred_ring id self started at token db).1 ≡ claimed row token'
    → row.ring_id ≡ id
unfolding claim_deferred_ring
claimed-ring_id id self token token' started at db row h =
    elim (Option-cases (find (is_own_incoming id (to_lower_case self)) db.rings)) [
      | inl no_row ↦ absurd (ground arith)
      | inr (r, found) ↦ ground (
        arith,
        find-passes (is_own_incoming id (to_lower_case self)) db.rings r found,
        same_iff r.ring_id id,
      )
    ]

record_answer-recorded :
    (w : Surroundings) (node_id : Text) (args : PendingAnswer) (ring : RingRow) (token : Text)
    (db : Db) (peer room_topic : Text) (notified : Bool)
    → IsConsistent db
    → (record_answer w node_id args ring token db).1 ≡ recorded peer room_topic notified
    → answer_in ring.ring_id incoming (record_answer w node_id args ring token db).0
      ≡ some (decided args.answer)
unfolding record_answer
record_answer-recorded w node_id args ring token db peer room_topic notified c h =
    elim (Bool-cases
      (answer_claimed_ring ring.ring_id token args.answer args.reason w.answered_at db).1) [
        | inr lost ↦ absurd (ground (arith, h, lost))
        | inl won ↦
            rw (won, record_answer)
              (answer_in-answer_claimed_ring ring.ring_id token args.answer args.reason
                w.answered_at db c won)
      ]

answer_claimed_joined :
    (w : Surroundings) (node_id : Text) (args : PendingAnswer) (db : Db) (ring : RingRow)
    (token : Text)
    → join_for w args.answer ring ≡ joined
    → answer_claimed w node_id args (db, claimed ring token)
      ≡ record_answer w node_id args ring token (run w.during db)
answer_claimed_joined w node_id args db ring token e = ground arith

answer_claimed-recorded :
    (w : Surroundings) (node_id : Text) (args : PendingAnswer) (r : Db × Claim)
    (peer room_topic : Text) (notified : Bool)
    → IsConsistent r.0
    → All IsNamed w.during
    → ((row : RingRow) (token : Text) → r.1 ≡ claimed row token → row.ring_id ≡ args.ring_id)
    → (answer_claimed w node_id args r).1 ≡ recorded peer room_topic notified
    → answer_in args.ring_id incoming (answer_claimed w node_id args r).0
      ≡ some (decided args.answer)
answer_claimed-recorded w node_id args (db, missing) peer room_topic notified c named same_ring h =
    absurd (ground arith)
answer_claimed-recorded w node_id args (db, answered a) peer room_topic notified c named same_ring
      h =
    absurd (ground arith)
answer_claimed-recorded w node_id args (db, claimed ring token) peer room_topic notified c named
      same_ring h =
    elim (JoinOutcome-cases (join_for w args.answer ring)) [
      | inr broken ↦ elim broken [
        | inl e ↦ absurd (ground (arith, h, e))
        | inr e ↦ absurd (ground (arith, h, e))
      ]
      | inl e ↦ rw (answer_claimed_joined w node_id args db ring token e) (
          subst
            (λ id.
              answer_in id incoming (record_answer w node_id args ring token (run w.during db)).0
              ≡ some (decided args.answer))
            (same_ring ring token refl)
            (record_answer-recorded w node_id args ring token (run w.during db) peer room_topic
              notified (run-IsConsistent w.during db named c)
              (rw (answer_claimed_joined w node_id args db ring token e) at h)))
    ]

-- On a consistent file, when the model's answer is reported as recorded, then whatever the other
-- sessions did to the file while the room was joined, the row of the ring holds that answer.
pub answer_pending_ring-recorded :
    (w : Surroundings) (node_id : Text) (args : PendingAnswer) (db : Db) (peer room_topic : Text)
    (notified : Bool)
    → IsConsistent db
    → All IsNamed w.during
    → (answer_pending_ring w node_id args db).1 ≡ recorded peer room_topic notified
    → answer_in args.ring_id incoming (answer_pending_ring w node_id args db).0
      ≡ some (decided args.answer)
unfolding answer_pending_ring
answer_pending_ring-recorded w [] args db peer room_topic notified c named h = absurd (ground arith)
answer_pending_ring-recorded w (n ∷ ns) args db peer room_topic notified c named h =
    answer_claimed-recorded w (n ∷ ns) args
      (claim_deferred_ring args.ring_id (n ∷ ns) w.started w.claimed_at w.token db) peer room_topic
      notified
      (claim_deferred_ring-IsConsistent args.ring_id (n ∷ ns) w.started w.claimed_at w.token db c)
      named
      (λ row token e.
        claimed-ring_id args.ring_id (n ∷ ns) w.token token w.started w.claimed_at db row e)
      h
