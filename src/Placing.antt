-- ===== src/Placing.antt =====
-- src/ring_agents/mesh_ring.ts: the caller's side of a ring. What the mesh hands back, and what other
-- sessions of the machine do to the file meanwhile, are arguments. Counts of lost events are left
-- out.
pub mod Joined
pub mod Agreed
use macula_mcp.Base.{
  ℕ, ◌==◌, Bool, true, false, not, ◌&&◌, ◌||◌, Option, none, some, List, [], ◌∷◌, Text, codes, same,
  any, if◌then◌else◌,
}
use macula_mcp.Json.{Value, obj}
use macula_mcp.Ring.{Answer, Verdict, accepted, decided}
use macula_mcp.Ring.Wire
use macula_mcp.Ring.Wire.{RingArgs, RingReply, ring_payload, build_ring_args, parse_ring_reply}
use macula_mcp.Machine.{Db}
use macula_mcp.Dossier.{RingSeed, ring_placed, ring_reply, Transition}
use macula_mcp.Dossier
use macula_mcp.Membership.{is_joined, Membership}
use macula_mcp.Envelope.{Envelope, Kind, participant_joined, parse_envelope}
use macula_mcp.Presence.Roster.{Resolved, by_node_id, by_petname}
use macula_mcp.RoomWait.{Fact, facts_after, last_id}

-- What comes back from the callee's endpoint.
pub data Delivery : Type 0 where
  delivered : (payload : Value) → Delivery
  unreachable : (reason : Text) → Delivery

abbrev is_optional_id : Option Text → Text → Bool
is_optional_id none id = true
is_optional_id (some r) id = same r id

unfoldable pub is_reply_to : Option RingReply → RingArgs → Bool
is_reply_to none ring = false
is_reply_to (some reply) ring = is_optional_id reply.ring_id ring.ring_id

-- RingError and RoomError, an unreachable callee, a reply that is none, or an answer.
pub data Refusal : Type 0 where
  likely_secret unresolved own_id no_room bad_ring : Refusal

pub data PlaceRingResult : Type 0 where
  threw : Refusal → PlaceRingResult
  not_reached : (reason : Text) → PlaceRingResult
  malformed_reply : PlaceRingResult
  answered : Answer → (reason : Option Text) → PlaceRingResult

abbrev pub placed_seed : RingArgs → RingSeed
placed_seed ring = record {
  ring_id = ring.ring_id;
  self = ring.from;
  peer = ring.to;
  purpose = ring.purpose;
  room_topic = ring.room_topic;
  sent_at = ring.sent_at;
}

abbrev pub reply_taken : RingArgs → ℕ → Db → Option RingReply → Db × PlaceRingResult
reply_taken ring at db none =
    ((ring_reply ring.ring_id none (some (codes "malformed reply")) at db).0, malformed_reply)
reply_taken ring at db (some reply) =
    if is_reply_to (some reply) ring
    then (
      (ring_reply ring.ring_id (some reply.answer) reply.reason at db).0,
      answered reply.answer reply.reason,
    )
    else ((ring_reply ring.ring_id none (some (codes "malformed reply")) at db).0, malformed_reply)

-- placeRing from the callee's reply on.
unfoldable pub take_reply : RingArgs → Delivery → ℕ → Db → Db × PlaceRingResult
take_reply ring (unreachable reason) at db =
    ((ring_reply ring.ring_id none (some reason) at db).0, not_reached reason)
take_reply ring (delivered payload) at db = reply_taken ring at db (parse_ring_reply payload)

abbrev pub resolved_id : Resolved → Option Text
resolved_id (by_node_id id) = some id
resolved_id (by_petname id) = some id
resolved_id _ = none

-- ringRoomTopic: the room that was given and is joined, or the one that openRoom gives.
unfoldable pub ring_room_topic : Text → Option Text → List Membership → Option Text → Option Text
ring_room_topic me none members opened = opened
ring_room_topic me (some topic) members opened =
    if is_joined me topic members then some topic else none

-- The tool's arguments, and what placeRing finds before it sends: a secret in the purpose, the
-- callee, this node, the room, and the ring's id and time.
pub record Placing : Type 0 where
  pub has_secret : Bool
  pub to : Resolved
  pub me : Text
  pub room : Option Text
  pub purpose : Text
  pub ring_id : Text
  pub sent_at : ℕ

abbrev pub ring_of : Placing → Text → Text → RingArgs
ring_of p to room = record {
  ring_id = p.ring_id;
  from = p.me;
  to = to;
  purpose = p.purpose;
  room_topic = room;
  sent_at = p.sent_at;
}

abbrev pub built_ring : Wire.Built RingArgs → Option RingArgs
built_ring (Wire.refused problems) = none
built_ring (Wire.built ring) = some ring

-- The ring that is sent, or why none is.
pub data Sent : Type 0 where
  sends : RingArgs → Sent
  stops : Refusal → Sent

abbrev pub with_built : Option RingArgs → Sent
with_built none = stops bad_ring
with_built (some ring) = sends ring

abbrev pub with_room : Placing → Text → Option Text → Sent
with_room p to none = stops no_room
with_room p to (some room) = with_built (built_ring (build_ring_args (ring_of p to room)))

abbrev pub with_callee : Placing → Option Text → Sent
with_callee p none = stops unresolved
with_callee p (some to) = if same to p.me then stops own_id else with_room p to p.room

unfoldable pub begin_ring : Placing → Sent
begin_ring p = if p.has_secret then stops likely_secret else with_callee p (resolved_id p.to)

-- The row goes down before the call; `between` is what others do to the file while it is out.
unfoldable pub place_ring :
    Placing
    → (Value → Delivery)
    → (placed_at : ℕ) (between : List Transition) (replied_at : ℕ) → Db
    → Db × PlaceRingResult
place_ring p deliver placed_at between replied_at db = elim (begin_ring p) [
  | stops why ↦ (db, threw why)
  | sends ring ↦
      take_reply ring (deliver (obj (ring_payload ring))) replied_at
        (Dossier.run between (ring_placed (placed_seed ring) placed_at db).0)
]

-- A fact that says that `who` has joined.
abbrev pub is_join_of : Text → Option Envelope → Bool
is_join_of who none = false
is_join_of who (some env) = elim env.kind [ participant_joined ↦ same env.from who | _ ↦ false ]

abbrev pub says_join : Text → Fact → Bool
says_join who f = is_join_of who (parse_envelope f.payload)

-- waitForJoin: what the transcript holds at each poll before the deadline.
unfoldable pub wait_for_join : Text → Text → ℕ → List (List Fact) → Bool
wait_for_join topic who after [] = false
wait_for_join topic who after (facts ∷ polls) =
    let fresh = facts_after topic after facts in
    let rest = wait_for_join topic who (last_id after fresh) polls in
    if any (says_join who) fresh then true else rest
