-- ===== src/Dossier/Log.antt =====
-- src/ring_agents/ring_dossier.ts: the log under each transition, and what a transition reports.
use mathlib.Core.List.{append-nil, append_assoc}
use macula_mcp.Base.{
  ℕ, ◌≡◌, refl, sym, ap, ◌∙◌, Bool, true, false, Option, none, some, List, [], ◌∷◌, ◌++◌, Text,
  arith, find, any, count_if, ltb, Bool-cases, Option-cases, inl, inr, ◌⊎◌, subst, to_lower_case,
}
use macula_mcp.Ring.{Answer, Verdict, decided, Direction, incoming, outgoing, RingRow, has_key}
use macula_mcp.NodeEvents.{NodeEvent, EventLog, append_node_event}
use macula_mcp.NodeEvents.Cursor.{IsOrdered, append_node_event-IsOrdered}
use macula_mcp.Machine.{Db}
use macula_mcp.Dossier.{
  RingSeed, update_where, attributed, answered_entry, log_answered, ring_placed, received_entry,
  log_verdict, ring_received_in, awaits_reason, awaits_reply, set_reason, ring_reply,
  claim_deferred_ring, holds_claim, answer_claimed_ring, release_claim, Transition, places,
  receives, hears, claims, answers, releases, apply, run,
}

-- A log that has grown from another, each entry through the one append.
data Grows (log : EventLog) : EventLog → Type 0 where
  same_log : Grows log log
  one_more :
      {next : EventLog} (e : NodeEvent) → Grows log next → Grows log (append_node_event e next)

Grows-trans : {a b c : EventLog} → Grows a b → Grows b c → Grows a c
Grows-trans g same_log = g
Grows-trans g (one_more e h) = one_more e (Grows-trans g h)

log_answered-Grows :
    (id : Text) (dir : Direction) (a : Answer) (reason : Option Text) (at : ℕ) (db : Db)
    → Grows db.log (log_answered id dir a reason at db).log
unfolding log_answered
log_answered-Grows id dir a reason at db = elim (Option-cases (find (has_key id dir) db.rings)) [
  | inl absent ↦ rw (absent, log_answered) same_log
  | inr (row, found) ↦ elim (Option-cases (attributed row.self)) [
    | inl orphan ↦ rw (found, log_answered, orphan) same_log
    | inr (self, owner) ↦
        rw (found, log_answered, owner)
          (one_more (answered_entry self row dir a reason at) same_log)
  ]
]

log_verdict-Grows :
    (id : Text) (a : Option Verdict) (reason : Option Text) (at : ℕ) (db : Db)
    → Grows db.log (log_verdict id a reason at db).log
log_verdict-Grows id none reason at db = same_log
log_verdict-Grows id (some v) reason at db = log_answered-Grows id incoming (decided v) reason at db

claim-log :
    (id self : Text) (started at : ℕ) (token : Text) (db : Db)
    → (claim_deferred_ring id self started at token db).0.log ≡ db.log
unfolding claim_deferred_ring
claim-log id self started at token db = ground arith

apply-Grows : (t : Transition) (db : Db) → Grows db.log (apply t db).log
unfolding apply ring_placed ring_received_in ring_reply claim_deferred_ring answer_claimed_ring
    release_claim
apply-Grows (places seed at) db = elim (Bool-cases (any (has_key seed.ring_id outgoing) db.rings)) [
  | inl old ↦ rw (old, apply) same_log
  | inr new ↦ rw (new, apply) same_log
]
apply-Grows (receives seed a reason at) db =
    elim (Bool-cases (any (has_key seed.ring_id incoming) db.rings)) [
      | inl old ↦ rw (old, apply) same_log
      | inr new ↦
          rw (new, apply)
            (Grows-trans (one_more (received_entry seed a reason at) same_log)
              (log_verdict-Grows seed.ring_id a reason at _))
    ]
apply-Grows (hears id none reason at) db = same_log
apply-Grows (hears id (some a) reason at) db =
    elim (Bool-cases (ltb 0 (count_if (awaits_reply id) db.rings))) [
      | inl hit ↦ rw (hit, apply) (log_answered-Grows id outgoing a reason at _)
      | inr miss ↦ rw (miss, apply) same_log
    ]
apply-Grows (claims id self started at token) db =
    subst (Grows db.log) (sym (claim-log id self started at token db)) same_log
apply-Grows (answers id token v reason at) db =
    elim (Bool-cases (ltb 0 (count_if (holds_claim id token) db.rings))) [
      | inl hit ↦ rw (hit, apply) (log_answered-Grows id incoming (decided v) reason at _)
      | inr miss ↦ rw (miss, apply) same_log
    ]
apply-Grows (releases id token) db = same_log

Grows-IsOrdered : {a b : EventLog} → Grows a b → IsOrdered a → IsOrdered b
Grows-IsOrdered same_log o = o
Grows-IsOrdered (one_more {next} e g) o = append_node_event-IsOrdered e next (Grows-IsOrdered g o)

Grows-append :
    {a b : EventLog} → Grows a b → (more : List NodeEvent) × (b.events ≡ a.events ++ more)
unfolding append_node_event
Grows-append same_log = ([], sym (append-nil _))
Grows-append {a} (one_more {next} e g) =
    let (more, eq) = Grows-append g in
    let new : List NodeEvent = record e { seq = next.next_seq; self = to_lower_case e.self } ∷ [] in
    (more ++ new, ap (λ (es : List NodeEvent). es ++ new) eq ∙ append_assoc a.events more new)

run-Grows : (ts : List Transition) (db : Db) → Grows db.log (run ts db).log
unfolding run
run-Grows [] db = same_log
run-Grows (t ∷ ts) db = Grows-trans (apply-Grows t db) (run-Grows ts (apply t db))

-- On a log in order, any history of transitions keeps every entry of the log where it was and adds its own behind
-- them; and it keeps the log's numbers rising.
pub run-log :
    (ts : List Transition) (db : Db)
    → IsOrdered db.log
    → ((more : List NodeEvent) × ((run ts db).log.events ≡ db.log.events ++ more))
      × IsOrdered (run ts db).log
run-log ts db o = (Grows-append (run-Grows ts db), Grows-IsOrdered (run-Grows ts db) o)

update_where_none :
    (p : RingRow → Bool) (f : RingRow → RingRow) (rows : List RingRow)
    → count_if p rows ≡ 0
    → update_where p f rows ≡ rows
update_where_none p f [] h = refl
update_where_none p f (r ∷ rows) h = ground (arith, update_where_none p f rows)

placed_false :
    (seed : RingSeed) (at : ℕ) (db : Db)
    → (ring_placed seed at db).1 ≡ false
    → (ring_placed seed at db).0 ≡ db
unfolding ring_placed
placed_false seed at db h = ground arith

received_false :
    (seed : RingSeed) (a : Option Verdict) (reason : Option Text) (at : ℕ) (db : Db)
    → (ring_received_in seed a reason at db).1 ≡ false
    → (ring_received_in seed a reason at db).0 ≡ db
unfolding ring_received_in
received_false seed a reason at db h =
    elim (Bool-cases (any (has_key seed.ring_id incoming) db.rings)) [
      | inl old ↦ rw old
      | inr new ↦ ground arith
    ]

reply_false :
    (id : Text) (b : Option Answer) (reason : Option Text) (at : ℕ) (db : Db)
    → (ring_reply id b reason at db).1 ≡ false
    → (ring_reply id b reason at db).0 ≡ db
unfolding ring_reply
reply_false id none reason at db h =
    ground (arith, update_where_none (awaits_reason id) (set_reason reason) db.rings)
reply_false id (some a) reason at db h = ground arith

answer_false :
    (id token : Text) (v : Verdict) (reason : Option Text) (at : ℕ) (db : Db)
    → (answer_claimed_ring id token v reason at db).1 ≡ false
    → (answer_claimed_ring id token v reason at db).0 ≡ db
unfolding answer_claimed_ring
answer_false id token v reason at db h = ground arith

reports_cases :
    (next : Db × Bool) (db : Db) → (next.1 ≡ false → next.0 ≡ db) → (next.1 ≡ true) ⊎ (next.0 ≡ db)
reports_cases next db h = elim (Bool-cases next.1) [
  | inl changed ↦ inl changed
  | inr kept ↦ inr (h kept)
]

-- Placing, receiving, replying and answering each either report that they changed a row, or leave
-- the whole file, log included, as it was.
changed_or_unchanged :
    (db : Db) (seed : RingSeed) (a : Option Verdict) (b : Option Answer) (v : Verdict)
    (id token : Text) (reason : Option Text) (at : ℕ)
    → (((ring_placed seed at db).1 ≡ true) ⊎ ((ring_placed seed at db).0 ≡ db))
      × (((ring_received_in seed a reason at db).1 ≡ true)
          ⊎ ((ring_received_in seed a reason at db).0 ≡ db))
      × (((ring_reply id b reason at db).1 ≡ true) ⊎ ((ring_reply id b reason at db).0 ≡ db))
      × (((answer_claimed_ring id token v reason at db).1 ≡ true)
          ⊎ ((answer_claimed_ring id token v reason at db).0 ≡ db))
changed_or_unchanged db seed a b v id token reason at = (
  reports_cases (ring_placed seed at db) db (placed_false seed at db),
  reports_cases (ring_received_in seed a reason at db) db (received_false seed a reason at db),
  reports_cases (ring_reply id b reason at db) db (reply_false id b reason at db),
  reports_cases (answer_claimed_ring id token v reason at db) db
      (answer_false id token v reason at db),
)
