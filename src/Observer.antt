-- ===== src/Observer.antt =====
-- src/converse_in_rooms/watch_lobby.ts, with src/dropped_events.ts: the observer of the lobby, its
-- taps while their subscriptions are in flight, and the losses that it records. An event is a call
-- or the end of an await; whether a subscription succeeds is the event's. A subscription is its
-- place in `subs`, and its feed ends at an event of its own, so that it hears and loses while its stop
-- is awaited or after one that fails. Other processes write losses to the same file. The write of a
-- last look throws where `writes` is false; those of a delivery and of a read succeed.
pub mod Run
pub mod Cap
pub mod Sums
pub mod Losses
pub mod Accounts
use macula_mcp.Base.{
  ℕ, zero, suc, ◌+◌, ◌-◌, ◌≡◌, Bool, true, false, not, ◌&&◌, ◌||◌, Option, none, some, List, [],
  ◌∷◌, ◌++◌, Text, same, any, keep, find, count_if, length, ltb, leb, ◌==◌, get_or, is_some,
  if◌then◌else◌,
}
use macula_mcp.Json.{Value}
use macula_mcp.Envelope.{
  Envelope, Kind, room_opened, kind_name, parse_envelope, is_room_topic, central_topic,
}
use macula_mcp.Transcript.{Transcript, Arrival, record_fact, record_loss, lost_on}

abbrev pub default_max_rooms : ℕ
default_max_rooms = 20

-- A subscription: its dropped(), what warnedAt has of it, and whether its feed goes on.
pub record Sub : Type 0 where
  pub topic : Text
  pub lost : ℕ
  pub seen : ℕ
  pub is_open : Bool

-- `id` stands for the identity of the object; `sub` is missing while the subscription is in flight.
pub record RoomTap : Type 0 where
  pub id : ℕ
  pub topic : Text
  pub is_public : Bool
  pub sub : Option ℕ

pub record ObserverState : Type 0 where
  pub central : ℕ
  pub taps : List RoomTap
  pub max_rooms : ℕ
  pub dropped_for_cap : ℕ

-- `starting` is the cap that doStart is to set, `waiting` the starts behind it, `flights` the taps
-- whose subscription is in flight, `ending` the subscriptions that stop has still to end.
pub record Observer : Type 0 where
  pub state : Option ObserverState
  pub starting : Option ℕ
  pub waiting : List (Option ℕ)
  pub flights : List (ℕ × Text)
  pub ending : List ℕ
  pub next_tap : ℕ
  pub subs : List Sub
  pub transcript : Transcript

abbrev pub get_elem? {ℓ} : {A : Type ℓ} → List A → ℕ → Option A
get_elem? [] i = none
get_elem? (x ∷ xs) zero = some x
get_elem? (x ∷ xs) (suc i) = get_elem? xs i

abbrev pub set {ℓ} : {A : Type ℓ} → List A → ℕ → A → List A
set [] i v = []
set (x ∷ xs) zero v = v ∷ xs
set (x ∷ xs) (suc i) v = x ∷ set xs i v

-- droppedEvents, with the hook that recordLossesOf sets.
abbrev pub look_at : ℕ → Sub → Observer → Observer
look_at i s o =
    if ltb s.seen s.lost
    then record o {
      subs = set o.subs i (record s { seen = s.lost });
      transcript = record_loss (record { topic = s.topic; lost = s.lost - s.seen }) o.transcript;
    }
    else o

unfoldable pub dropped_events : ℕ → Observer → Observer
dropped_events i o = elim (get_elem? o.subs i) [ none ↦ o | some s ↦ look_at i s o ]

-- The feed of a subscription ends.
unfoldable pub close_sub : ℕ → Observer → Observer
close_sub i o = elim (get_elem? o.subs i) [
  | none ↦ o
  | some s ↦ record o { subs = set o.subs i (record s { is_open = false }) }
]

-- endTap, once the subscription is there, up to its await of the stop: the last look. One
-- whose write throws marks nothing as seen, and no stop follows it.
unfoldable pub end_sub : Bool → ℕ → Observer → Observer
end_sub true i o = dropped_events i o
end_sub false i o = o

unfoldable pub add_sub : Text → Observer → Observer
add_sub topic o = record o {
  subs = o.subs ++ record { topic = topic; lost = 0; seen = 0; is_open = true } ∷ [];
}

abbrev pub max : ℕ → ℕ → ℕ
max a b = if ltb a b then b else a

abbrev pub cap_of : Option ℕ → ℕ
cap_of asked = max 1 (get_or asked default_max_rooms)

abbrev pub raise_cap : Option ℕ → ObserverState → ObserverState
raise_cap asked s = record s { max_rooms = max s.max_rooms (cap_of asked) }

unfoldable pub start : Option ℕ → Observer → Observer
start asked o = elim o.starting [
  | some cap ↦ record o { waiting = o.waiting ++ asked ∷ [] }
  | none ↦ elim o.state [
    | some s ↦ record o { state = some (raise_cap asked s) }
    | none ↦ record o { starting = some (cap_of asked) }
  ]
]

abbrev pub raise_caps : List (Option ℕ) → ObserverState → ObserverState
raise_caps [] s = s
raise_caps (asked ∷ more) s = raise_caps more (raise_cap asked s)

abbrev pub started : ℕ → ℕ → ObserverState
started central cap = record { central = central; taps = []; max_rooms = cap; dropped_for_cap = 0 }

-- The end of doStart; the starts behind it raise the cap, or throw with it.
unfoldable pub central_subscribed : Bool → Observer → Observer
central_subscribed ok o = elim o.starting [
  | none ↦ o
  | some cap ↦
      if ok
      then add_sub central_topic (record o {
        state = some (raise_caps o.waiting (started (length o.subs) cap));
        starting = none;
        waiting = [];
      })
      else record o { starting = none; waiting = [] }
]

abbrev pub has_topic : Text → RoomTap → Bool
has_topic topic tap = same topic tap.topic

abbrev pub has_id : ℕ → RoomTap → Bool
has_id id tap = tap.id == id

abbrev pub public_taps : ObserverState → ℕ
public_taps s = count_if (λ t. t.is_public) s.taps

-- How a call of tap goes on.
pub data TapStart : Type 0 where
  not_active already_tapped subscribing : TapStart

abbrev pub new_tap : Text → Bool → ObserverState → Observer → Observer
new_tap topic is_public s o = record o {
  state = some (record s {
    taps =
        s.taps ++ record { id = o.next_tap; topic = topic; is_public = is_public; sub = none } ∷ [];
  });
  flights = o.flights ++ (o.next_tap, topic) ∷ [];
  next_tap = o.next_tap + 1;
}

unfoldable pub tap : Text → Bool → Observer → Observer × TapStart
tap topic is_public o = elim o.state [
  | none ↦ (o, not_active)
  | some s ↦
      if any (has_topic topic) s.taps
      then (o, already_tapped)
      else (new_tap topic is_public s o, subscribing)
]

-- Whether tapRoom throws, by how it started and whether the subscription succeeded.
abbrev pub tap_throws : TapStart → Bool → Bool
tap_throws not_active ok = true
tap_throws already_tapped ok = false
tap_throws subscribing ok = not ok

abbrev pub announced_room : Option Envelope → Option Text
announced_room none = none
announced_room (some env) = elim env.kind [
  | room_opened ↦ if is_room_topic env.room_topic then some env.room_topic else none
  | _ ↦ none
]

abbrev pub tap_announced : Text → ObserverState → Observer → Observer
tap_announced topic s o =
    if any (has_topic topic) s.taps
    then o
    else if leb s.max_rooms (public_taps s)
    then record o { state = some (record s { dropped_for_cap = s.dropped_for_cap + 1 }) }
    else (tap topic true o).0

unfoldable pub tap_public_room_if_new : Value → Observer → Observer
tap_public_room_if_new payload o = elim o.state [
  | none ↦ o
  | some s ↦ elim (announced_room (parse_envelope payload)) [
    | none ↦ o
    | some topic ↦ tap_announced topic s o
  ]
]

abbrev pub arrived_on : Text → Value → ℕ → Option Text → Arrival
arrived_on topic payload at publisher = record {
  topic = topic;
  payload = payload;
  at = at;
  publisher = publisher;
}

-- onEvent of a subscription, and the look of connect_to_mesh.ts behind it.
abbrev pub heard_by : Text → Value → ℕ → Option Text → Observer → Observer
heard_by topic payload at publisher o =
    let o' = record o {
      transcript = record_fact (arrived_on topic payload at publisher) o.transcript;
    } in
    if same topic central_topic then tap_public_room_if_new payload o' else o'

unfoldable pub hear : ℕ → Value → ℕ → Option Text → Observer → Observer
hear i payload at publisher o = elim (get_elem? o.subs i) [
  | none ↦ o
  | some s ↦ if s.is_open then dropped_events i (heard_by s.topic payload at publisher o) else o
]
