-- ===== src/Serve.antt =====
-- src/ring_agents/serve_rings.ts: the callee's side of a ring. The caller of a CALL is verified by
-- the mesh and handed to the handler. The join of a room is a function of the model's caller.
pub mod Outcome
pub mod Received
pub mod Writes
use macula_mcp.Base.{
  ℕ, ◌+◌, Bool, true, false, not, ◌&&◌, Option, none, some, List, [], ◌∷◌, Text, codes, same,
  to_lower_case, ltb, leb, if◌then◌else◌, get_or,
}
use macula_mcp.Json.{Value, text, obj, get}
use macula_mcp.Ring.{
  Answer, Verdict, accepted, declined, decided, deferred, Direction, outgoing, same_direction,
  RingRow,
}
use macula_mcp.Ring.Pending.{get_ring, pending_summary}
use macula_mcp.Ring.Wire
use macula_mcp.Ring.Wire.{
  RingArgs, RingAnswerArgs, ring_problems, parse_ring_args, ring_answer_problems,
  parse_ring_answer_args,
}
use macula_mcp.Policy.{
  Policy, open_policy, ask_policy, allowlist_policy, closed_policy, ContactPolicy, is_allowlisted,
}
use macula_mcp.Machine.{Db}
use macula_mcp.Dossier.{RingSeed, ring_received_in, ring_reply, Transition, run}

abbrev pub max_pending_per_peer : ℕ
max_pending_per_peer = 3

abbrev pub ring_rate_limit_ms : ℕ
ring_rate_limit_ms = 2000

-- The reason of a reply, one for each text of the source.
pub data Reason : Type 0 where
  not_active unverified wrong_callee rate_limited_now already_pending room_limit : Reason
  closed_to_all not_on_allowlist model_will_answer unknown_ring : Reason
  invalid : List Wire.Problem → Reason

pub data HandleReply : Type 0 where
  -- ring_id, answer, room_topic and reason of a RingReply
  replied : Option Text → Answer → Option Text → Option Reason → HandleReply
  -- ring_id and already_answered of a RingAnswerReply
  acknowledged : Text → Bool → HandleReply
  -- the handler throws
  threw : HandleReply

-- How `joinRoom` ends: the room is joined, RoomCapacityError, or another error.
pub data JoinOutcome : Type 0 where
  joined at_capacity join_failed : JoinOutcome

-- The process's own memory beside the file.
pub record ServeState : Type 0 where
  pub db : Db
  pub last_ring_at : List (Text × ℕ)

-- lastRingAt.get and lastRingAt.set
unfoldable pub last_time : Text → List (Text × ℕ) → Option ℕ
last_time caller [] = none
last_time caller ((c, t) ∷ times) =
    let rest = last_time caller times in if same c caller then some t else rest

abbrev pub set_time : Text → ℕ → List (Text × ℕ) → List (Text × ℕ)
set_time caller now times = (caller, now) ∷ times

unfoldable pub rate_limited : Text → ℕ → ServeState → Bool
rate_limited caller now s =
    ltb now (get_or (last_time caller s.last_ring_at) 0 + ring_rate_limit_ms)

unfoldable pub decide_ring {ℓ} :
    {A : Type ℓ} → ContactPolicy → RingArgs → A → (Reason → Text → A) → (Reason → A) → A
decide_ring policy ring accept decline defer = elim policy.contact_policy [
  | open_policy ↦ accept
  | closed_policy ↦ decline closed_to_all (codes "closed")
  | allowlist_policy ↦
      if is_allowlisted policy ring.from
      then accept
      else decline not_on_allowlist (codes "not on allowlist")
  | ask_policy ↦ defer model_will_answer
]

unfoldable pub addressee_problem : RingArgs → Text → Text → Option Reason
addressee_problem ring caller node_id =
    if same ring.from caller
    then if same ring.to node_id then none else some wrong_callee
    else some unverified

abbrev pub is_ring_answer : Value → Bool
is_ring_answer (obj p) = Wire.is_text_where (same (codes "ring_answer")) (get (codes "kind") p)
is_ring_answer _ = false

abbrev pub seed_of : Text → RingArgs → RingSeed
seed_of node_id ring = record {
  ring_id = ring.ring_id;
  self = node_id;
  peer = ring.from;
  purpose = ring.purpose;
  room_topic = ring.room_topic;
  sent_at = ring.sent_at;
}

-- `decline`, `accept` and `defer` of handleRing; `at` is the dossier's own clock.
module _ (node_id : Text) (ring : RingArgs) (at : ℕ) (s : ServeState) where
  abbrev pub record_ring : Option Verdict → Option Text → ServeState
  record_ring v recorded = record s {
    db = (ring_received_in (seed_of node_id ring) v recorded at s.db).0;
  }

  unfoldable pub decline_ring : Reason → Text → ServeState × HandleReply
  decline_ring reason recorded = (
    record_ring (some declined) (some recorded),
    replied (some ring.ring_id) (decided declined) none (some reason),
  )

  unfoldable pub accept_ring : JoinOutcome → ServeState × HandleReply
  unfolding decline_ring
  accept_ring joined = (
    record_ring (some accepted) none,
    replied (some ring.ring_id) (decided accepted) (some ring.room_topic) none,
  )
  accept_ring at_capacity = decline_ring room_limit (codes "too many joined rooms")
  accept_ring join_failed = (s, threw)

  unfoldable pub defer_ring : Reason → ServeState × HandleReply
  defer_ring reason = (
    record_ring none none,
    replied (some ring.ring_id) deferred (some ring.room_topic) (some reason),
  )

abbrev pub is_ours : RingRow → RingAnswerArgs → Bool
is_ours ring ans =
    same_direction ring.direction outgoing
    && same ring.peer ans.from
    && same ring.room_topic ans.room_topic

abbrev pub already_answered : RingRow → Bool
already_answered ring = elim ring.answer [
  | none ↦ false
  | some a ↦ elim a [ decided v ↦ true | deferred ↦ false ]
]

abbrev pub refuse : Reason → HandleReply
refuse reason = replied none (decided declined) none (some reason)

abbrev pub take_answer : RingAnswerArgs → ℕ → ServeState → Option RingRow → ServeState × HandleReply
take_answer ans at s none = (s, refuse unknown_ring)
take_answer ans at s (some ring) =
    if is_ours ring ans
    then if already_answered ring then (s, acknowledged ans.ring_id true) else (
      record s { db = (ring_reply ans.ring_id (some (decided ans.answer)) ans.reason at s.db).0 },
      acknowledged ans.ring_id false,
    )
    else (s, refuse unknown_ring)

unfoldable pub handle_ring_answer : Value → Text → Text → ℕ → ServeState → ServeState × HandleReply
handle_ring_answer payload node_id caller at s = elim (parse_ring_answer_args payload) [
  | none ↦ (s, refuse (invalid (ring_answer_problems payload)))
  | some ans ↦
      if same ans.from caller
      then if same ans.to node_id
        then take_answer ans at s (get_ring ans.ring_id node_id s.db)
        else (s, refuse wrong_callee)
      else (s, refuse unverified)
]

-- The file once the room's join is awaited: `meanwhile` is what other sessions of the machine wrote.
abbrev pub after_join : List Transition → ServeState → ServeState
after_join meanwhile s = record s { db = run meanwhile s.db }

-- What follows once a ring is addressed to this node by its verified caller.
module _ (policy : ContactPolicy) (join : Text → Text → JoinOutcome) (meanwhile : List Transition)
    (now at : ℕ) where
  unfoldable pub take_ring : Text → Text → RingArgs → ServeState → ServeState × HandleReply
  unfolding decide_ring accept_ring defer_ring
  take_ring node_id caller ring s =
      if rate_limited caller now s
      then decline_ring node_id ring at s rate_limited_now (codes "rate limited")
      else let s' = record s { last_ring_at = set_time caller now s.last_ring_at } in
        if leb max_pending_per_peer (pending_summary node_id ring.from at s.db).from_peer
        then decline_ring node_id ring at s' already_pending
            (codes "too many pending from this peer")
        else decide_ring policy ring
            (accept_ring node_id ring at (after_join meanwhile s') (join ring.room_topic ring.from))
            (decline_ring node_id ring at s') (defer_ring node_id ring at s')

  abbrev pub address : Text → Text → RingArgs → ServeState → ServeState × HandleReply
  address node_id caller ring s = elim (addressee_problem ring caller node_id) [
    | some reason ↦ (s, replied (some ring.ring_id) (decided declined) none (some reason))
    | none ↦ take_ring node_id caller ring s
  ]

  abbrev pub handle_for : Text → Value → Text → ServeState → ServeState × HandleReply
  handle_for node_id payload caller s =
      if is_ring_answer payload
      then handle_ring_answer payload node_id caller at s
      else elim (parse_ring_args payload) [
        | none ↦ (s, refuse (invalid (ring_problems payload)))
        | some ring ↦ address node_id caller ring s
      ]

  -- `!nodeId`: no node id, or an empty one.
  unfoldable pub handle_ring : Value → Text → Option Text → ServeState → ServeState × HandleReply
  handle_ring payload caller none s = (s, refuse not_active)
  handle_ring payload caller (some []) s = (s, refuse not_active)
  handle_ring payload caller (some (c ∷ cs)) s =
      handle_for (c ∷ cs) payload (to_lower_case caller) s
