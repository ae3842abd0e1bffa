-- ===== src/Placing/Agreed.antt =====
-- src/ring_agents/mesh_ring.ts with serve_rings.ts: one ring on both sides.
use macula_mcp.Base.{
  ℕ, ◌≡◌, ◌≢◌, refl, sym, subst, Bool, true, false, Option, none, some, List, [], ◌∷◌, Text, codes,
  same, find, count_if, ltb, arith, if◌then◌else◌, Bool-cases, Option-cases, inl, inr, ◌⊎◌,
}
use macula_mcp.Json.{Value, obj, text, nat, field, end, get, opt}
use macula_mcp.Ring.{
  Answer, accepted, declined, decided, deferred, outgoing, RingRow, has_key, is_open,
}
use macula_mcp.Ring.Wire.{
  Problem, Built, built, refused, RingArgs, RingReply, ring_payload, build_ring_args,
  parse_ring_reply,
}
use macula_mcp.Ring.Wire.Laws.{parse-build_ring_args}
use macula_mcp.Machine.{Db}
use macula_mcp.Dossier.{
  ring_placed, ring_reply, ring_received_in, log_answered, update_where, awaits_reply, set_answer,
  Transition,
}
use macula_mcp.Dossier
use macula_mcp.Policy.{ContactPolicy}
use macula_mcp.Serve.{
  ServeState, JoinOutcome, joined, HandleReply, replied, acknowledged, threw, Reason, handle_ring,
}
use macula_mcp.Serve.Outcome.{IsReceived, handle_ring_accepts}
use macula_mcp.Placing.{
  Delivery, delivered, unreachable, is_reply_to, answered, placed_seed, take_reply, Placing,
  Refusal, ring_of, resolved_id, built_ring, with_built, with_room, with_callee, Sent, sends, stops,
  begin_ring, place_ring,
}

abbrev answer_number : Answer → ℕ
answer_number (decided accepted) = 1
answer_number (decided declined) = 2
answer_number deferred = 3

abbrev as_text_value : Option Text → Option Value
as_text_value none = none
as_text_value (some s) = some (text s)

abbrev one_if : Bool → Option Value
one_if true = some (nat 1)
one_if false = none

module _ (said : Reason → Text) where
  abbrev as_reason : Option Reason → Option Value
  as_reason none = none
  as_reason (some r) = some (text (said r))

  -- The reply of a callee's handler on the wire.
  abbrev pub wire_reply : HandleReply → Delivery
  wire_reply (replied id a room reason) = delivered (
      obj (
        opt (codes "ring_id") (as_text_value id) (
          field (codes "answer") (nat (answer_number a)) (
            opt (codes "room_topic") (as_text_value room)
              (opt (codes "reason") (as_reason reason) end)))))
  wire_reply (acknowledged id again) = delivered (
      obj (
        field (codes "ring_id") (text id)
          (field (codes "received") (nat 1) (opt (codes "already_answered") (one_if again) end))))
  wire_reply threw = unreachable (codes "unreachable")

  abbrev taken : Delivery → Option RingReply
  taken (delivered payload) = parse_ring_reply payload
  taken (unreachable reason) = none

  -- What the caller reads off the wire is what the handler answered.
  taken-wire_reply :
      (r : HandleReply) (reply : RingReply)
      → taken (wire_reply r) ≡ some reply
      → (id : Option Text) × (room : Option Text) × (reason : Option Reason) × (r
          ≡ replied id reply.answer room reason)
  unfolding parse_ring_reply get same
  taken-wire_reply (replied none a room reason) reply h = (none, room, reason, ground arith)
  taken-wire_reply (replied (some id) a room reason) reply h = (some id, room, reason, ground arith)
  taken-wire_reply (acknowledged id again) reply h = ground arith
  taken-wire_reply threw reply h = cc

-- The caller's row of a ring once an answer to it has come.
abbrev pub settled : Answer → Option Text → ℕ → Option RingRow → Option RingRow
settled a reason at none = none
settled a reason at (some r) = some (if is_open r.answer then set_answer a reason at r else r)

rings-log_answered :
    (id : Text) (a : Answer) (reason : Option Text) (at : ℕ) (db : Db)
    → (log_answered id outgoing a reason at db).rings ≡ db.rings
unfolding log_answered
rings-log_answered id a reason at db = ground arith

find-update_where :
    (id : Text) (a : Answer) (reason : Option Text) (at : ℕ) (rs : List RingRow)
    → find (has_key id outgoing) (update_where (awaits_reply id) (set_answer a reason at) rs)
      ≡ settled a reason at (find (has_key id outgoing) rs)
find-update_where id a reason at [] = refl
find-update_where id a reason at (r ∷ rs) = ground (arith, find-update_where id a reason at rs)

-- No open row: nothing to settle.
find-not_open :
    (id : Text) (a : Answer) (reason : Option Text) (at : ℕ) (rs : List RingRow)
    → count_if (awaits_reply id) rs ≡ 0
    → settled a reason at (find (has_key id outgoing) rs) ≡ find (has_key id outgoing) rs
find-not_open id a reason at [] h = refl
find-not_open id a reason at (r ∷ rs) h = ground (arith, find-not_open id a reason at rs)

find-ring_reply :
    (id : Text) (a : Answer) (reason : Option Text) (at : ℕ) (db : Db)
    → find (has_key id outgoing) (ring_reply id (some a) reason at db).0.rings
      ≡ settled a reason at (find (has_key id outgoing) db.rings)
unfolding ring_reply
find-ring_reply id a reason at db =
    elim (Bool-cases (ltb 0 (count_if (awaits_reply id) db.rings))) [
      | inl waits ↦
          rw (waits, ring_reply)
            (rw
              (rings-log_answered id a reason at (record db {
                rings = update_where (awaits_reply id) (set_answer a reason at) db.rings;
              }))
              (find-update_where id a reason at db.rings))
      | inr shut ↦
          rw (shut, ring_reply) (sym (find-not_open id a reason at db.rings (ground arith)))
    ]

-- What a ring that was answered has sent, read and written.
take_reply-answered :
    (ring : RingArgs) (d : Delivery) (at : ℕ) (db : Db) (a : Answer) (reason : Option Text)
    (said : Reason → Text)
    → (take_reply ring d at db).1 ≡ answered a reason
    → (reply : RingReply) × (taken said d ≡ some reply)
      × (reply.answer ≡ a)
      × ((take_reply ring d at db).0 ≡ (ring_reply ring.ring_id (some a) reason at db).0)
unfolding take_reply
take_reply-answered ring (unreachable why) at db a reason said h = ground arith
take_reply-answered ring (delivered payload) at db a reason said h =
    elim (Option-cases (parse_ring_reply payload)) [
      | inl none_read ↦ let k = rw none_read at h in ground arith
      | inr (reply, read) ↦ elim (Bool-cases (is_reply_to (some reply) ring)) [
        | inl ours ↦ (reply, read, ground arith, ground arith)
        | inr other ↦ ground arith
      ]
    ]

Built-cases :
    (b : Built RingArgs)
    → ((ps : List Problem) × (b ≡ refused ps)) ⊎ ((r : RingArgs) × (b ≡ built r))
Built-cases (refused ps) = inl (ps, refl)
Built-cases (built r) = inr (r, refl)

with_built-sends :
    (args ring : RingArgs)
    → with_built (built_ring (build_ring_args args)) ≡ sends ring
    → build_ring_args ring ≡ built ring
with_built-sends args ring h = elim (Built-cases (build_ring_args args)) [
  | inl (ps, bad) ↦ let k = rw bad at h in cc
  | inr (r, good) ↦
      let same_ring : r ≡ ring = ground arith in
      let args_are = (parse-build_ring_args args r good).0 in
      subst (λ x. build_ring_args x ≡ built x) same_ring
        (subst (λ x. build_ring_args x ≡ built r) (sym args_are) good)
]

with_room-sends :
    (p : Placing) (to : Text) (room : Option Text) (ring : RingArgs)
    → with_room p to room ≡ sends ring
    → build_ring_args ring ≡ built ring
with_room-sends p to none ring h = cc
with_room-sends p to (some room) ring h = with_built-sends (ring_of p to room) ring h

with_callee-sends :
    (p : Placing) (to : Option Text) (ring : RingArgs)
    → with_callee p to ≡ sends ring
    → build_ring_args ring ≡ built ring
with_callee-sends p none ring h = cc
with_callee-sends p (some to) ring h = elim (Bool-cases (same to p.me)) [
  | inl own ↦ let k = rw own at h in cc
  | inr other ↦ with_room-sends p to p.room ring (rw other at h)
]

begin_ring-sends :
    (p : Placing) (ring : RingArgs) → begin_ring p ≡ sends ring → build_ring_args ring ≡ built ring
unfolding begin_ring
begin_ring-sends p ring h = elim (Bool-cases p.has_secret) [
  | inl secret ↦ let k = rw secret at h in cc
  | inr plain ↦ with_callee-sends p (resolved_id p.to) ring (rw plain at h)
]

Sent-cases :
    (x : Sent) → ((why : Refusal) × (x ≡ stops why)) ⊎ ((ring : RingArgs) × (x ≡ sends ring))
Sent-cases (stops why) = inl (why, refl)
Sent-cases (sends ring) = inr (ring, refl)

module _ (said : Reason → Text) (policy : ContactPolicy) (join : Text → Text → JoinOutcome)
    (meanwhile : List Transition) (now at : ℕ) (node : Text) (s : ServeState) where
  -- The callee's handler, reached by a caller that the mesh verified.
  abbrev pub handled : Text → Value → ServeState × HandleReply
  handled me payload = handle_ring policy join meanwhile now at payload me (some node) s

  abbrev pub reached : Text → Value → Delivery
  reached me payload = wire_reply said (handled me payload).1

  accepted-recorded :
      (me : Text) (ring : RingArgs) (reply : RingReply)
      → node ≢ []
      → build_ring_args ring ≡ built ring
      → taken said (reached me (obj (ring_payload ring))) ≡ some reply
      → reply.answer ≡ decided accepted
      → (ring.to ≡ node)
        × (join ring.room_topic ring.from ≡ joined)
        × IsReceived ring node at
            (Dossier.run meanwhile s.db)
            (handled me (obj (ring_payload ring))).0.db
  accepted-recorded me ring reply active well_built read is_accepted =
      let payload = obj (ring_payload ring) in
      let (id, room, why, told) = taken-wire_reply said (handled me payload).1 reply read in
      let (ring', (parsed, _, to), _, in_room, _, recorded) =
        handle_ring_accepts policy join meanwhile now at payload me node s id room why active
          (rw is_accepted at told) in
      let one : ring' ≡ ring =
        ground (arith, (parse-build_ring_args ring ring well_built).1, parsed) in
      subst
        (λ x.
          (x.to ≡ node)
          × (join x.room_topic x.from ≡ joined)
          × IsReceived x node at (Dossier.run meanwhile s.db) (handled me payload).0.db)
        one (to, in_room, recorded)

  -- Both sides of an accepted ring agree. When placeRing reports that the callee accepted, the ring
  -- went to that callee, its handler joined the ring's room, and the callee's row of the ring is
  -- one of exactly that ring as received and accepted, unless it had received a ring of that id
  -- before, whose row it keeps, whatever other sessions did to the callee's file during the join; and the caller's row of the ring, whatever other sessions did to the
  -- caller's file while the call was out, is the row as they left it if it was decided by then, and
  -- that row accepted, with the reply's reason and time, if it was not.
  pub place_ring-agrees :
      (p : Placing) (placed_at : ℕ) (between : List Transition) (replied_at : ℕ) (db : Db)
      (reason : Option Text)
      → node ≢ []
      → (place_ring p (reached p.me) placed_at between replied_at db).1
        ≡ answered (decided accepted) reason
      → (ring : RingArgs) × (begin_ring p ≡ sends ring)
        × (ring.to ≡ node)
        × (join ring.room_topic ring.from ≡ joined)
        × IsReceived ring node at
            (Dossier.run meanwhile s.db)
            (handled p.me (obj (ring_payload ring))).0.db
        × (find
              (has_key ring.ring_id outgoing)
              (place_ring p (reached p.me) placed_at between replied_at db).0.rings
            ≡ settled (decided accepted) reason replied_at (
                find
                  (has_key ring.ring_id outgoing)
                  (Dossier.run between (ring_placed (placed_seed ring) placed_at db).0).rings))
  unfolding place_ring
  place_ring-agrees p placed_at between replied_at db reason active h =
      elim (Sent-cases (begin_ring p)) [
        | inl (why, stopped) ↦ let k = rw (stopped, place_ring) at h in cc
        | inr (ring, sent) ↦
            let meanwhile = Dossier.run between (ring_placed (placed_seed ring) placed_at db).0 in
            let k = rw (sent, place_ring) at h in
            let (reply, read, is_accepted, wrote) =
              take_reply-answered ring (reached p.me (obj (ring_payload ring))) replied_at meanwhile
                (decided accepted) reason said k in
            let (to, in_room, recorded) =
              accepted-recorded p.me ring reply active (begin_ring-sends p ring sent) read
                is_accepted in
            (
              ring,
              sent,
              to,
              in_room,
              recorded,
              rw (sent, place_ring, wrote)
                  (find-ring_reply ring.ring_id (decided accepted) reason replied_at meanwhile),
            )
      ]
