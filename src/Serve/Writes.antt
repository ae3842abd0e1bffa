-- ===== src/Serve/Writes.antt =====
-- src/ring_agents/serve_rings.ts: the writes of handleRing and handleRingAnswer.
use macula_mcp.Base.{
  ℕ, ◌≡◌, ◌≢◌, refl, sym, true, ◌⊎◌, inl, inr, Option, some, List, [], Text, same, same_iff,
  to_lower_case, arith, Bool-cases, Option-cases, subst,
}
use macula_mcp.Json.{Value}
use macula_mcp.Ring.{Verdict, decided, outgoing, RingRow}
use macula_mcp.Ring.Pending.{get_ring}
use macula_mcp.Ring.Wire.{RingArgs, RingAnswerArgs, parse_ring_args, parse_ring_answer_args}
use macula_mcp.Policy.{ContactPolicy}
use macula_mcp.Machine.{Db}
use macula_mcp.Dossier.{Transition, receives, hears, apply, run}
use macula_mcp.Dossier.Once.{IsConsistent}
use macula_mcp.Dossier.History.{apply-IsConsistent}
use macula_mcp.Serve.{
  JoinOutcome, ServeState, is_ring_answer, seed_of, is_ours, already_answered, take_answer,
  handle_ring_answer, address, handle_for, handle_ring,
}
use macula_mcp.Serve.Outcome.{IsAddressed, handle_ring_active}
use macula_mcp.Serve.Received.{IsReceivedOn, IsAnswerTo, address-IsReceived}

-- What the answer to a ring writes.
abbrev IsHeard : Value → Text → Text → ℕ → Db → Db → Type 0
IsHeard payload caller node_id at db db' =
    (ans : RingAnswerArgs) × IsAnswerTo payload caller node_id db ans
    × (db' ≡ apply (hears ans.ring_id (some (decided ans.answer)) ans.reason at) db)

take_answer_writes :
    (ans : RingAnswerArgs) (node_id : Text) (at : ℕ) (s : ServeState)
    → ((take_answer ans at s (get_ring ans.ring_id node_id s.db)).0.db ≡ s.db)
      ⊎ (((ring : RingRow) × (get_ring ans.ring_id node_id s.db ≡ some ring)
            × (ring.direction ≡ outgoing)
            × (ring.peer ≡ ans.from)
            × (ring.room_topic ≡ ans.room_topic))
          × ((take_answer ans at s (get_ring ans.ring_id node_id s.db)).0.db
              ≡ apply (hears ans.ring_id (some (decided ans.answer)) ans.reason at) s.db))
unfolding apply
take_answer_writes ans node_id at s = elim (Option-cases (get_ring ans.ring_id node_id s.db)) [
  | inl unknown ↦ inl (rw unknown refl)
  | inr (ring, found) ↦ elim (Bool-cases (is_ours ring ans)) [
    | inr other ↦ inl (rw (found, other) refl)
    | inl ours ↦ elim (Bool-cases (already_answered ring)) [
      | inl before ↦ inl (rw (found, ours, before) refl)
      | inr first ↦
          let (out, peer, room) = is_ours_sound ring ans ours in
          inr ((ring, found, out, peer, room), rw (found, ours, first) refl)
    ]
  ]
]
  where
    is_ours_sound :
        (ring : RingRow) (ans : RingAnswerArgs)
        → is_ours ring ans ≡ true
        → (ring.direction ≡ outgoing) × (ring.peer ≡ ans.from) × (ring.room_topic ≡ ans.room_topic)
    is_ours_sound ring ans h =
        ground (arith, same_iff ring.peer ans.from, same_iff ring.room_topic ans.room_topic)

handle_ring_answer-IsHeard :
    (payload : Value) (node_id caller : Text) (at : ℕ) (s : ServeState)
    → ((handle_ring_answer payload node_id (to_lower_case caller) at s).0.db ≡ s.db)
      ⊎ IsHeard payload caller node_id at s.db
          (handle_ring_answer payload node_id (to_lower_case caller) at s).0.db
unfolding handle_ring_answer
handle_ring_answer-IsHeard payload node_id caller at s =
    elim (Option-cases (parse_ring_answer_args payload)) [
      | inl bad ↦ inl (rw (bad, handle_ring_answer) refl)
      | inr (ans, parsed) ↦ elim (Bool-cases (same ans.from (to_lower_case caller))) [
        | inr other ↦ inl (rw (parsed, handle_ring_answer, other) refl)
        | inl from ↦ elim (Bool-cases (same ans.to node_id)) [
          | inr other ↦ inl (rw (parsed, handle_ring_answer, from, other) refl)
          | inl to ↦ elim (take_answer_writes ans node_id at s) [
            | inl kept ↦ inl (rw (parsed, handle_ring_answer, from, to) kept)
            | inr (row, written) ↦ inr (
              ans,
              (
                parsed,
                (same_iff ans.from (to_lower_case caller)).0 from,
                (same_iff ans.to node_id).0 to,
                row,
              ),
              rw (parsed, handle_ring_answer, from, to) written,
            )
          ]
        ]
      ]
    ]

-- A ring addressed to this node, from its verified caller, recorded as received.
abbrev IsRung : Value → Text → Text → ℕ → Db → Db → Type 0
IsRung payload caller node_id at db db' =
    (ring : RingArgs) × IsAddressed payload caller node_id ring
    × ((v : Option Verdict) × (reason : Option Text) × (db'
          ≡ apply (receives (seed_of node_id ring) v reason at) db))

-- A call writes nothing, or records the ring it carries, addressed to this node by its verified
-- caller, or records the answer it carries to a ring that this node placed to that caller.
abbrev pub IsWrittenOn : Value → Text → Text → ℕ → Db → Db → Type 0
IsWrittenOn payload caller node_id at db db' =
    (db' ≡ db)
    ⊎ (IsRung payload caller node_id at db db' ⊎ IsHeard payload caller node_id at db db')

-- So it is on the file of the call, or on the file as other sessions left it during the join.
abbrev pub IsWritten : List Transition → Value → Text → Text → ℕ → Db → Db → Type 0
IsWritten meanwhile payload caller node_id at db db' =
    IsWrittenOn payload caller node_id at db db'
    ⊎ IsWrittenOn payload caller node_id at (run meanwhile db) db'

rung :
    (payload : Value) (caller node_id : Text) (ring : RingArgs) (at : ℕ) (db db' : Db)
    → IsAddressed payload caller node_id ring
    → IsReceivedOn node_id ring at db db'
    → IsWrittenOn payload caller node_id at db db'
rung payload caller node_id ring at db db' sent (inl kept) = inl kept
rung payload caller node_id ring at db db' sent (inr (v, reason, written)) =
    inr (inl (ring, sent, (v, reason, written)))

written-IsConsistent :
    (payload : Value) (caller node_id : Text) (at : ℕ) (db db' : Db)
    → node_id ≢ []
    → IsWrittenOn payload caller node_id at db db'
    → IsConsistent db
    → IsConsistent db'
written-IsConsistent payload caller node_id at db db' active (inl kept) c =
    subst IsConsistent (sym kept) c
written-IsConsistent payload caller node_id at db db' active
      (inr (inl (ring, sent, (v, reason, e)))) c =
    subst IsConsistent (sym e)
      (apply-IsConsistent (receives (seed_of node_id ring) v reason at) db active c)
written-IsConsistent payload caller node_id at db db' active (inr (inr (ans, ours, e))) c =
    subst IsConsistent (sym e)
      (apply-IsConsistent (hears ans.ring_id (some (decided ans.answer)) ans.reason at) db tt c)

module _ (policy : ContactPolicy) (join : Text → Text → JoinOutcome) (meanwhile : List Transition)
    (now at : ℕ) where
  handle_for_writes :
      (node_id : Text) (payload : Value) (caller : Text) (s : ServeState)
      → IsWritten meanwhile payload caller node_id at s.db
          (handle_for policy join meanwhile now at node_id payload (to_lower_case caller) s).0.db
  handle_for_writes node_id payload caller s = elim (Bool-cases (is_ring_answer payload)) [
    | inl answer ↦ elim (handle_ring_answer-IsHeard payload node_id caller at s) [
      | inl kept ↦ inl (inl (rw answer kept))
      | inr heard ↦ inl (inr (inr (rw answer heard)))
    ]
    | inr ring ↦ elim (Option-cases (parse_ring_args payload)) [
      | inl bad ↦ inl (inl (rw (ring, bad) refl))
      | inr (r, parsed) ↦
          elim (address-IsReceived policy join meanwhile now at node_id (to_lower_case caller) r
            s) [
              | inl kept ↦ inl (inl (rw (ring, parsed) kept))
              | inr (from, to, received) ↦
                  let call =
                    address policy join meanwhile now at node_id (to_lower_case caller) r s in
                  let same_call : (handle_for policy join meanwhile now at node_id payload
                        (to_lower_case caller) s).0.db
                      ≡ call.0.db =
                    rw (ring, parsed) refl in
                  subst (IsWritten meanwhile payload caller node_id at s.db) (sym same_call)
                    (elim received [
                      | inl now_on ↦
                          inl (rung payload caller node_id r at s.db _ (parsed, from, to) now_on)
                      | inr later ↦ inr (
                          rung payload caller node_id r at (run meanwhile s.db) _ (parsed, from, to)
                            later)
                    ])
            ]
    ]
  ]

  -- Whatever an inbound call to an active node holds, the file is as it was, or a ring was recorded
  -- that is addressed to this node and names the call's verified caller as its sender, or an answer
  -- was recorded, sent by the verified caller, to a ring that this node had placed to that caller in
  -- the same room: on the file of the call, or on the file as other sessions left it while the room
  -- was joined.
  pub handle_ring_writes :
      (payload : Value) (caller node_id : Text) (s : ServeState)
      → node_id ≢ []
      → IsWritten meanwhile payload caller node_id at s.db
          (handle_ring policy join meanwhile now at payload caller (some node_id) s).0.db
  handle_ring_writes payload caller node_id s active =
      rw (handle_ring_active policy join meanwhile now at payload caller node_id s active)
        (handle_for_writes node_id payload caller s)

  -- An inbound call to an active node keeps the dossier consistent: one row per ring and direction,
  -- and one decision in the log for a decided row.
  handle_ring-IsConsistent :
      (payload : Value) (caller node_id : Text) (s : ServeState)
      → node_id ≢ []
      → IsConsistent s.db
      → IsConsistent (run meanwhile s.db)
      → IsConsistent (handle_ring policy join meanwhile now at payload caller (some node_id) s).0.db
  handle_ring-IsConsistent payload caller node_id s active c c' =
      elim (handle_ring_writes payload caller node_id s active) [
        | inl now_on ↦ written-IsConsistent payload caller node_id at s.db _ active now_on c
        | inr later ↦
            written-IsConsistent payload caller node_id at (run meanwhile s.db) _ active later c'
      ]
