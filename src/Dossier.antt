-- ===== src/Dossier.antt =====
-- src/ring_agents/ring_dossier.ts: the one owner of the ring rows. Each transition is one
-- transaction, so it is one function of the file's state; it takes the clock readings and the
-- random token that the source makes, and says whether it changed a row.
pub mod Counts
pub mod Once
pub mod Kept
pub mod History
pub mod Final
pub mod Claims
pub mod Log
pub mod Received
use macula_mcp.Base.{
  ℕ, ◌+◌, ◌-◌, ◌*◌, ◌≡◌, Bool, true, false, ◌&&◌, ◌||◌, Option, none, some, List, [], ◌∷◌, ◌++◌,
  Text, same, to_lower_case, find, any, count_if, ltb, if◌then◌else◌,
}
use macula_mcp.Ring.{
  Verdict, Answer, decided, deferred, Direction, incoming, outgoing, RingRow, has_key, is_text,
  is_unanswered, is_open,
}
use macula_mcp.NodeEvents.{NodeEvent, ring_received, ring_answered, append_node_event}
use macula_mcp.Machine.{Db}

abbrev pub claim_ttl_ms : ℕ
claim_ttl_ms = 2 * 60 * 1000

pub record RingSeed : Type 0 where
  pub ring_id : Text
  pub self : Text
  pub peer : Text
  pub purpose : Text
  pub room_topic : Text
  pub sent_at : ℕ

abbrev pub new_row : RingSeed → Direction → ℕ → Option Answer → Option Text → Option ℕ → RingRow
new_row seed dir at answer reason answered_at = record {
  ring_id = seed.ring_id;
  self = some (to_lower_case seed.self);
  direction = dir;
  peer = seed.peer;
  purpose = seed.purpose;
  room_topic = seed.room_topic;
  sent_at = seed.sent_at;
  recorded_at = at;
  answer = answer;
  reason = reason;
  answered_at = answered_at;
  claim = none;
  claimed_at = none;
}

-- UPDATE … WHERE, on every row that passes the test.
abbrev pub update_where : (RingRow → Bool) → (RingRow → RingRow) → List RingRow → List RingRow
update_where p f [] = []
update_where p f (r ∷ rs) = (if p r then f r else r) ∷ update_where p f rs

-- `!row?.self`: NULL and the empty text both stop the entry.
abbrev pub attributed : Option Text → Option Text
attributed none = none
attributed (some []) = none
attributed (some (c ∷ s)) = some (c ∷ s)

abbrev pub answered_entry : Text → RingRow → Direction → Answer → Option Text → ℕ → NodeEvent
answered_entry self row dir answer reason at = record {
  seq = 0;
  self = self;
  kind = ring_answered;
  at = at;
  ring_id = some row.ring_id;
  direction = some dir;
  peer = some row.peer;
  purpose = none;
  room_topic = some row.room_topic;
  answer = some answer;
  reason = reason;
  realm = none;
  org_identity = none;
  tier = none;
}

-- logAnswered: the row is read back, and an entry is appended for the node that it belongs to.
unfoldable pub log_answered : Text → Direction → Answer → Option Text → ℕ → Db → Db
log_answered id dir answer reason at db = elim (find (has_key id dir) db.rings) [
  | none ↦ db
  | some row ↦ elim (attributed row.self) [
    | none ↦ db
    | some self ↦ record db {
      log = append_node_event (answered_entry self row dir answer reason at) db.log;
    }
  ]
]

unfoldable pub ring_placed : RingSeed → ℕ → Db → Db × Bool
ring_placed seed at db =
    if any (has_key seed.ring_id outgoing) db.rings
    then (db, false)
    else (record db { rings = db.rings ++ new_row seed outgoing at none none none ∷ [] }, true)

abbrev pub answer_of : Option Verdict → Option Answer
answer_of none = none
answer_of (some v) = some (decided v)

abbrev pub answered_when : Option Verdict → ℕ → Option ℕ
answered_when none at = none
answered_when (some v) at = some at

abbrev pub received_entry : RingSeed → Option Verdict → Option Text → ℕ → NodeEvent
received_entry seed answer reason at = record {
  seq = 0;
  self = to_lower_case seed.self;
  kind = ring_received;
  at = at;
  ring_id = some seed.ring_id;
  direction = some incoming;
  peer = some seed.peer;
  purpose = some seed.purpose;
  room_topic = some seed.room_topic;
  answer = answer_of answer;
  reason = reason;
  realm = none;
  org_identity = none;
  tier = none;
}

abbrev pub log_verdict : Text → Option Verdict → Option Text → ℕ → Db → Db
log_verdict id none reason at db = db
log_verdict id (some v) reason at db = log_answered id incoming (decided v) reason at db

unfoldable pub ring_received_in : RingSeed → Option Verdict → Option Text → ℕ → Db → Db × Bool
ring_received_in seed answer reason at db =
    if any (has_key seed.ring_id incoming) db.rings then (db, false) else (
      log_verdict seed.ring_id answer reason at (record {
        rings =
            db.rings
            ++ new_row seed incoming at (answer_of answer) reason (answered_when answer at) ∷ [];
        log = append_node_event (received_entry seed answer reason at) db.log;
      }),
      true,
    )

abbrev pub awaits_reason : Text → RingRow → Bool
awaits_reason id r = has_key id outgoing r && is_unanswered r.answer

abbrev pub awaits_reply : Text → RingRow → Bool
awaits_reply id r = has_key id outgoing r && is_open r.answer

abbrev pub set_reason : Option Text → RingRow → RingRow
set_reason reason r = record r { reason = reason; answered_at = none }

abbrev pub set_answer : Answer → Option Text → ℕ → RingRow → RingRow
set_answer a reason at r = record r { answer = some a; reason = reason; answered_at = some at }

unfoldable pub ring_reply : Text → Option Answer → Option Text → ℕ → Db → Db × Bool
ring_reply id none reason at db = (
  record db { rings = update_where (awaits_reason id) (set_reason reason) db.rings },
  ltb 0 (count_if (awaits_reason id) db.rings),
)
ring_reply id (some a) reason at db =
    if ltb 0 (count_if (awaits_reply id) db.rings)
    then (
      log_answered id outgoing a reason at
          (record db { rings = update_where (awaits_reply id) (set_answer a reason at) db.rings }),
      true,
    )
    else (db, false)

pub data Claim : Type 0 where
  claimed : RingRow → Text → Claim
  missing : Claim
  answered : Option Answer → Claim

-- claim IS NULL OR claimed_at < ?
abbrev pub is_claimable : ℕ → RingRow → Bool
is_claimable stale_before r = elim r.claim [
  | none ↦ true
  | some t ↦ elim r.claimed_at [ none ↦ false | some at ↦ ltb at stale_before ]
]

abbrev pub awaits_claim : Text → ℕ → RingRow → Bool
awaits_claim id stale_before r =
    has_key id incoming r && is_unanswered r.answer && is_claimable stale_before r

abbrev pub set_claim : Text → ℕ → RingRow → RingRow
set_claim token at r = record r { claim = some token; claimed_at = some at }

-- The row of this identity: ring_id = ? AND self = ? AND direction = 'in'.
abbrev pub is_own_incoming : Text → Text → RingRow → Bool
is_own_incoming id self r = has_key id incoming r && is_text r.self self

abbrev claim_row : RingRow → Text → ℕ → ℕ → Text → Db → Db × Claim
claim_row row id stale_before at token db =
    if ltb 0 (count_if (awaits_claim id stale_before) db.rings)
    then (
      record db {
        rings = update_where (awaits_claim id stale_before) (set_claim token at) db.rings;
      },
      claimed (record row { claim = some token }) token,
    )
    else (db, answered row.answer)

-- `started` is the clock before the transaction, `at` inside it.
unfoldable pub claim_deferred_ring : Text → Text → ℕ → ℕ → Text → Db → Db × Claim
claim_deferred_ring id self started at token db =
    elim (find (is_own_incoming id (to_lower_case self)) db.rings) [
      | none ↦ (db, missing)
      | some row ↦ elim row.answer [
        | some a ↦ (db, answered (some a))
        | none ↦ claim_row row id (started - claim_ttl_ms) at token db
      ]
    ]

abbrev pub holds_claim : Text → Text → RingRow → Bool
holds_claim id token r = has_key id incoming r && is_text r.claim token && is_unanswered r.answer

abbrev pub set_verdict : Verdict → Option Text → ℕ → RingRow → RingRow
set_verdict v reason at r = record r {
  answer = some (decided v);
  reason = reason;
  answered_at = some at;
  claim = none;
  claimed_at = none;
}

unfoldable pub answer_claimed_ring : Text → Text → Verdict → Option Text → ℕ → Db → Db × Bool
answer_claimed_ring id token v reason at db =
    if ltb 0 (count_if (holds_claim id token) db.rings)
    then (
      log_answered id incoming (decided v) reason at (record db {
        rings = update_where (holds_claim id token) (set_verdict v reason at) db.rings;
      }),
      true,
    )
    else (db, false)

abbrev pub clear_claim : RingRow → RingRow
clear_claim r = record r { claim = none; claimed_at = none }

unfoldable pub release_claim : Text → Text → Db → Db
release_claim id token db = record db {
  rings = update_where (holds_claim id token) clear_claim db.rings;
}

-- Every way the module changes the file.
pub data Transition : Type 0 where
  places : RingSeed → (at : ℕ) → Transition
  receives : RingSeed → Option Verdict → Option Text → (at : ℕ) → Transition
  hears : Text → Option Answer → Option Text → (at : ℕ) → Transition
  claims : Text → (self : Text) → (started at : ℕ) → (token : Text) → Transition
  answers : Text → (token : Text) → Verdict → Option Text → (at : ℕ) → Transition
  releases : Text → (token : Text) → Transition

unfoldable pub apply : Transition → Db → Db
apply (places seed at) db = (ring_placed seed at db).0
apply (receives seed answer reason at) db = (ring_received_in seed answer reason at db).0
apply (hears id answer reason at) db = (ring_reply id answer reason at db).0
apply (claims id self started at token) db = (claim_deferred_ring id self started at token db).0
apply (answers id token v reason at) db = (answer_claimed_ring id token v reason at db).0
apply (releases id token) db = release_claim id token db

unfoldable pub run : List Transition → Db → Db
run [] db = db
run (t ∷ ts) db = run ts (apply t db)
