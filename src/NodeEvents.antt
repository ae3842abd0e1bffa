-- ===== src/NodeEvents.antt =====
-- src/node_events.ts: the append-only log of one machine, its entries scoped by node id.
pub mod Cursor
use macula_mcp.Base.{
  ℕ, suc, ◌≡◌, Bool, true, false, ◌&&◌, Option, none, some, List, [], ◌∷◌, ◌++◌, Text, same,
  to_lower_case, keep, find, take, reverse, ltb, if◌then◌else◌,
}
use macula_mcp.Ring.{Answer, Direction}

pub data EventKind : Type 0 where
  ring_received ring_answered join_confirmed : EventKind

pub record NodeEvent : Type 0 where
  pub seq : ℕ
  pub self : Text
  pub kind : EventKind
  pub at : ℕ
  pub ring_id : Option Text
  pub direction : Option Direction
  pub peer : Option Text
  pub purpose : Option Text
  pub room_topic : Option Text
  pub answer : Option Answer
  pub reason : Option Text
  pub realm : Option Text
  pub org_identity : Option Text
  pub tier : Option Text

-- The table, in the order of `seq`, and the number that AUTOINCREMENT gives next.
pub record EventLog : Type 0 where
  pub events : List NodeEvent
  pub next_seq : ℕ

-- appendNodeEvent: the log numbers the entry itself and lower-cases its node id.
unfoldable pub append_node_event : NodeEvent → EventLog → EventLog
append_node_event entry log = record {
  events = log.events ++ record entry { seq = log.next_seq; self = to_lower_case entry.self } ∷ [];
  next_seq = suc log.next_seq;
}

abbrev pub is_received : EventKind → Bool
is_received ring_received = true
is_received _ = false

abbrev pub is_answered : EventKind → Bool
is_answered ring_answered = true
is_answered _ = false

-- self = ? AND seq > ?
abbrev pub is_after : Text → ℕ → NodeEvent → Bool
is_after self n e = same e.self self && ltb n e.seq

abbrev pub highest : ℕ → List NodeEvent → ℕ
highest n [] = n
highest n (e ∷ es) = highest (if ltb n e.seq then e.seq else n) es

pub record NodeEventRead : Type 0 where
  pub events : List NodeEvent
  pub next_after_seq : ℕ

-- The rows of the two queries of readNodeEvents.
abbrev pub read_rows : Text → Option ℕ → ℕ → List NodeEvent → List NodeEvent
read_rows self none limit es = reverse (take limit (reverse (keep (λ e. same e.self self) es)))
read_rows self (some n) limit es = take limit (keep (is_after self n) es)

abbrev pub start_of : Option ℕ → ℕ
start_of none = 0
start_of (some n) = n

unfoldable pub read_node_events : EventLog → Text → Option ℕ → ℕ → NodeEventRead
read_node_events log self after limit =
    let rows = read_rows (to_lower_case self) after limit log.events in
    record { events = rows; next_after_seq = highest (start_of after) rows }

unfoldable pub first_ring_received_after : EventLog → Text → ℕ → Option NodeEvent
first_ring_received_after log self after =
    find (λ e. is_after (to_lower_case self) after e && is_received e.kind) log.events

unfoldable pub last_node_event_seq : EventLog → Text → ℕ
last_node_event_seq log self = highest 0 (keep (λ e. same e.self (to_lower_case self)) log.events)
