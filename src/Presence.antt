-- ===== src/Presence.antt =====
-- src/be_present/presence.ts: this process's presence on the mesh. Its mailbox runs one start or stop
-- at a time; a turn is cut at the awaits between which the state it shows to the outside changes. An
-- `ok` is whether the part's call of the mesh succeeds. Handles are counted: the live subscriptions
-- to hellos and goodbyes, the heartbeat's timer and the renewal's.
pub mod Roster
pub mod Heard
pub mod Balance
pub mod Goodbye
use macula_mcp.Base.{
  ℕ, suc, ◌+◌, ◌-◌, Bool, true, false, not, ◌&&◌, ◌||◌, Option, none, some, List, [], ◌∷◌, ◌++◌,
  Text, codes, ltb, if◌then◌else◌, is_some, get_or, first_some,
}
use macula_mcp.Json.{Value, text, nat, Fields, field, end, opt}

abbrev pub default_interval_seconds : ℕ
default_interval_seconds = 60

abbrev pub min_interval_seconds : ℕ
min_interval_seconds = 10

pub record StartArgs : Type 0 where
  pub operator_name : Option Text
  pub session_name : Option Text
  pub message : Option Text
  pub model : Option Text
  pub connected_via : Option Text
  pub interval_seconds : Option ℕ

pub record PresenceState : Type 0 where
  pub node_id : Text
  pub operator_name : Option Text
  pub session_name : Option Text
  pub message : Option Text
  pub model : Option Text
  pub connected_via : Option Text
  pub interval_seconds : ℕ

-- What waits in the mailbox. `auto` marks the start that ensurePresence makes.
pub data Op : Type 0 where
  start : (auto : Bool) → StartArgs → Op
  stop : Op

pub data Turn : Type 0 where
  idle : Turn
  subscribing_hello subscribing_goodbye observing : (auto : Bool) → StartArgs → Turn
  announcing reasserting : (auto : Bool) → Turn
  leaving : PresenceState → Turn

pub record Presence : Type 0 where
  pub state : Option PresenceState
  pub explicitly_left : Bool
  pub start_queued : Bool
  pub mailbox : List Op
  pub turn : Turn
  pub hello : ℕ
  pub goodbye : ℕ
  pub heartbeats : ℕ
  pub renewals : ℕ
  pub lobby : Bool
  pub ring : Bool
  pub citizen : Bool

abbrev pub max : ℕ → ℕ → ℕ
max a b = if ltb a b then b else a

abbrev pub overridden : StartArgs → PresenceState → PresenceState
overridden args s = record s {
  operator_name = first_some args.operator_name s.operator_name;
  session_name = first_some args.session_name s.session_name;
  message = first_some args.message s.message;
  model = first_some args.model s.model;
  connected_via = first_some args.connected_via s.connected_via;
}

-- The finally of ensurePresence, for the start that it made.
unfoldable pub settle : Bool → Presence → Presence
settle auto p = record p { turn = idle; start_queued = if auto then false else p.start_queued }

-- startNow and reassertPresence up to their first await.
unfoldable pub start_now : Bool → StartArgs → Presence → Presence
start_now auto args p = elim p.state [
  | some s ↦ record p {
    explicitly_left = false;
    state = some (overridden args s);
    turn = reasserting auto;
  }
  | none ↦ record p { explicitly_left = false; turn = subscribing_hello auto args }
]

-- stopNow up to its first await.
unfoldable pub stop_now : Presence → Presence
stop_now p = elim p.state [
  | none ↦ p
  | some s ↦ record p {
    state = none;
    heartbeats = p.heartbeats - 1;
    renewals = p.renewals - 1;
    turn = leaving s;
  }
]

abbrev pub present : Text → StartArgs → PresenceState
present me args = record {
  node_id = me;
  operator_name = args.operator_name;
  session_name = args.session_name;
  message = args.message;
  model = args.model;
  connected_via = args.connected_via;
  interval_seconds =
      max min_interval_seconds (get_or args.interval_seconds default_interval_seconds);
}

-- The mailbox hands over the next turn.
unfoldable pub next_turn : List Op → Presence → Presence
next_turn [] p = p
next_turn (start auto args ∷ ops) p = start_now auto args (record p { mailbox = ops })
next_turn (stop ∷ ops) p = stop_now (record p { mailbox = ops })

-- A tool says hello, says goodbye, or touches the mesh; a part of the turn ends.
pub data Event : Type 0 where
  says_hello touches : StartArgs → Event
  says_goodbye : Event
  proceeds : (ok : Bool) → Event

unfoldable pub ensure_presence : StartArgs → Presence → Presence
ensure_presence args p =
    if is_some p.state || p.explicitly_left || p.start_queued
    then p
    else record p { start_queued = true; mailbox = p.mailbox ++ start true args ∷ [] }

module _ (me : Text) where
  -- The next part of the turn.
  unfoldable pub proceed : Bool → Turn → Presence → Presence
  proceed ok idle p = next_turn p.mailbox p
  proceed true (subscribing_hello auto args) p = record p {
    hello = suc p.hello;
    turn = subscribing_goodbye auto args;
  }
  proceed false (subscribing_hello auto args) p = settle auto p
  proceed true (subscribing_goodbye auto args) p = record p {
    goodbye = suc p.goodbye;
    turn = observing auto args;
  }
  proceed false (subscribing_goodbye auto args) p = settle auto (record p { hello = p.hello - 1 })
  proceed ok (observing auto args) p =
      if ok || p.lobby
      then record p {
        lobby = true;
        state = some (present me args);
        heartbeats = suc p.heartbeats;
        turn = announcing auto;
      }
      else settle auto p
  proceed ok (announcing auto) p =
      settle auto (record p { ring = true; renewals = suc p.renewals; citizen = true })
  proceed ok (reasserting auto) p =
      if ok || p.lobby
      then settle auto (record p { lobby = true; citizen = true })
      else settle auto p
  proceed ok (leaving s) p = record p {
    ring = false;
    lobby = false;
    hello = p.hello - 1;
    goodbye = p.goodbye - 1;
    citizen = false;
    explicitly_left = true;
    turn = idle;
  }

  unfoldable pub step : Event → Presence → Presence
  step (says_hello args) p = record p { mailbox = p.mailbox ++ start false args ∷ [] }
  step says_goodbye p = record p { mailbox = p.mailbox ++ stop ∷ [] }
  step (touches args) p = ensure_presence args p
  step (proceeds ok) p = proceed ok p.turn p

  unfoldable pub run : List Event → Presence → Presence
  run [] p = p
  run (e ∷ es) p = run es (step e p)

-- The payload of a heartbeat. An empty text is left out.
abbrev named : Option Text → Option Value
named (some (c ∷ s)) = some (text (c ∷ s))
named _ = none

unfoldable pub beat : PresenceState → (at : Text) → Fields
beat s at = field (codes "node_id") (text s.node_id) (
    field (codes "citizen_did") (text s.node_id) (
      opt (codes "operator_name") (named s.operator_name) (
        opt (codes "session_name") (named s.session_name) (
          opt (codes "message") (named s.message) (
            opt (codes "model") (named s.model) (
              opt (codes "connected_via") (named s.connected_via) (
                field (codes "interval_seconds") (nat s.interval_seconds)
                  (field (codes "at") (text at) end))))))))
