-- ===== src/Observer/Run.antt =====
-- src/converse_in_rooms/watch_lobby.ts: the ends of subscribing, untapping and stopping, and the
-- histories of the observer.
use macula_mcp.Base.{
  ℕ, ◌+◌, Bool, true, false, not, ◌&&◌, ltb, Option, none, some, List, [], ◌∷◌, ◌++◌, Text, same,
  any, keep, find, length, ◌==◌, if◌then◌else◌,
}
use macula_mcp.Json.{Value}
use macula_mcp.Envelope.{central_topic}
use macula_mcp.Transcript.{Transcript, FeedLoss, record_loss, lost_on}
use macula_mcp.Observer.{
  Sub, RoomTap, ObserverState, Observer, get_elem?, set, dropped_events, close_sub, end_sub,
  add_sub, start, central_subscribed, has_topic, has_id, tap, hear,
}

abbrev pub is_flight : ℕ → ℕ × Text → Bool
is_flight id f = f.0 == id

abbrev pub is_attached : ℕ → Option ObserverState → Bool
is_attached id none = false
is_attached id (some s) = any (has_id id) s.taps

abbrev pub place_sub : ℕ → ℕ → List RoomTap → List RoomTap
place_sub id i [] = []
place_sub id i (t ∷ ts) = (if t.id == id then record t { sub = some i } else t) ∷ place_sub id i ts

abbrev pub change_taps : (List RoomTap → List RoomTap) → Option ObserverState → Option ObserverState
change_taps f none = none
change_taps f (some s) = some (record s { taps = f s.taps })

-- The end of the subscription of a tap. A tap that was untapped or stopped meanwhile goes on to its end,
-- and one whose subscription failed is dropped.
abbrev pub landed : ℕ → Text → Bool → Observer → Observer
landed id topic true o =
    if is_attached id o.state
    then add_sub topic (record o { state = change_taps (place_sub id (length o.subs)) o.state })
    else end_sub true (length o.subs) (add_sub topic o)
landed id topic false o = record o { state = change_taps (keep (λ t. not (t.id == id))) o.state }

unfoldable pub subscribed : ℕ → Bool → Observer → Observer
subscribed id ok o = elim (find (is_flight id) o.flights) [
  | none ↦ o
  | some f ↦ landed id f.1 ok (record o { flights = keep (λ g. not (is_flight id g)) o.flights })
]

abbrev pub end_tap : Bool → Option RoomTap → Observer → Observer
end_tap writes none o = o
end_tap writes (some t) o = elim t.sub [ none ↦ o | some i ↦ end_sub writes i o ]

abbrev pub found_tap : Text → Option ObserverState → Option RoomTap
found_tap topic none = none
found_tap topic (some s) = find (has_topic topic) s.taps

unfoldable pub untap_room : Bool → Text → Observer → Observer
untap_room writes topic o =
    end_tap writes (found_tap topic o.state)
      (record o { state = change_taps (keep (λ t. not (has_topic topic t))) o.state })

abbrev pub subs_of : List RoomTap → List ℕ
subs_of [] = []
subs_of (t ∷ ts) = elim t.sub [ none ↦ subs_of ts | some i ↦ i ∷ subs_of ts ]

pub record StopResult : Type 0 where
  pub was_active : Bool
  pub rooms_stopped : ℕ

-- stop up to its first await: the last look at central; the rooms' follow.
-- Where the look at central has something to write and throws, stop throws (none) and nothing ends.
abbrev pub is_behind : ℕ → Observer → Bool
is_behind i o = elim (get_elem? o.subs i) [ none ↦ false | some s ↦ ltb s.seen s.lost ]

unfoldable pub stop : Bool → Observer → Observer × Option StopResult
stop writes o = elim o.state [
  | none ↦ (o, some (record { was_active = false; rooms_stopped = 0 }))
  | some s ↦ if not writes && is_behind s.central o then (record o { state = none }, none) else (
    end_sub writes s.central (record o { state = none; ending = o.ending ++ subs_of s.taps }),
    some (record { was_active = true; rooms_stopped = length s.taps }),
  )
]

unfoldable pub end_next : Bool → ℕ → Observer → Observer
end_next writes i o =
    if any (λ j. j == i) o.ending
    then end_sub writes i (record o { ending = keep (λ j. not (j == i)) o.ending })
    else o

abbrev pub live_sub : Text → Option ObserverState → Option ℕ
live_sub topic none = none
live_sub topic (some s) =
    if same topic central_topic
    then some s.central
    else elim (find (has_topic topic) s.taps) [ none ↦ none | some t ↦ t.sub ]

-- dropped: the live subscription is looked at first.
unfoldable pub look_first : Text → Observer → Observer
look_first topic o = elim (live_sub topic o.state) [ none ↦ o | some i ↦ dropped_events i o ]

unfoldable pub dropped : Text → Observer → Observer × ℕ
dropped topic o = (look_first topic o, lost_on topic (look_first topic o).transcript)

pub record ObserverStatus : Type 0 where
  pub active : Bool
  pub room_topics : List Text
  pub max_rooms : ℕ
  pub dropped_for_cap : ℕ

abbrev topics_of : List RoomTap → List Text
topics_of [] = []
topics_of (t ∷ ts) = t.topic ∷ topics_of ts

unfoldable pub status : Observer → ObserverStatus
status o = elim o.state [
  | none ↦ record { active = false; room_topics = []; max_rooms = 0; dropped_for_cap = 0 }
  | some s ↦ record {
    active = true;
    room_topics = topics_of s.taps;
    max_rooms = s.max_rooms;
    dropped_for_cap = s.dropped_for_cap;
  }
]

-- The feed of an open subscription discards an event.
abbrev pub discard_at : ℕ → Sub → Observer → Observer
discard_at i s o =
    if s.is_open then record o { subs = set o.subs i (record s { lost = s.lost + 1 }) } else o

unfoldable pub discard : ℕ → Observer → Observer
discard i o = elim (get_elem? o.subs i) [ none ↦ o | some s ↦ discard_at i s o ]

pub data Event : Type 0 where
  starts : (max_rooms : Option ℕ) → Event
  central_lands : (ok : Bool) → Event
  hears : (sub : ℕ) (payload : Value) (at : ℕ) (publisher : Option Text) → Event
  taps : (topic : Text) → Event
  untaps : (writes : Bool) (topic : Text) → Event
  lands : (id : ℕ) (ok : Bool) → Event
  stops : (writes : Bool) → Event
  ends : (writes : Bool) (sub : ℕ) → Event
  reads : (topic : Text) → Event
  discards feed_ends : (sub : ℕ) → Event
  others_lose : FeedLoss → Event

unfoldable pub step : Event → Observer → Observer
step (starts asked) o = start asked o
step (central_lands ok) o = central_subscribed ok o
step (hears i payload at publisher) o = hear i payload at publisher o
step (taps topic) o = (tap topic false o).0
step (untaps writes topic) o = untap_room writes topic o
step (lands id ok) o = subscribed id ok o
step (stops writes) o = (stop writes o).0
step (ends writes i) o = end_next writes i o
step (reads topic) o = look_first topic o
step (discards i) o = discard i o
step (feed_ends i) o = close_sub i o
step (others_lose l) o = record o { transcript = record_loss l o.transcript }

unfoldable pub run : List Event → Observer → Observer
run [] o = o
run (e ∷ es) o = run es (step e o)

-- A process that has not observed yet.
abbrev pub fresh : Transcript → Observer
fresh t = record {
  state = none;
  starting = none;
  waiting = [];
  flights = [];
  ending = [];
  next_tap = 0;
  subs = [];
  transcript = t;
}
