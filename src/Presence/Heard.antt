-- ===== src/Presence/Heard.antt =====
-- src/be_present/presence.ts, heardHello and heardGoodbye on the roster. An event comes with the
-- node that the mesh verified as its publisher.
use Prim.Native.String.{String}
use macula_mcp.Base.{
  ℕ, ◌≡◌, refl, Bool, false, Option, none, some, List, [], ◌∷◌, Text, codes, same, same_iff, keep,
  find, if◌then◌else◌, arith,
}
use macula_mcp.Json.{Value, nat, num, get, as_text}
use macula_mcp.Realm.Replies.{fields_of}
use macula_mcp.Presence.Roster.{AgentRecord, Sighting, is_agent, seen, upsert_agent, remove_agent}

pub record Event : Type 0 where
  pub publisher : Text
  pub payload : Value

-- What the two subscriptions deliver, with the clock of the delivery.
pub data Delivery : Type 0 where
  hello goodbye : Event → (now : ℕ) → Delivery

-- `payload[key] === publisher`
abbrev is_text : Option Text → Text → Bool
is_text none t = false
is_text (some s) t = same s t

abbrev names_itself : Event → Bool
names_itself e = is_text (as_text (get (codes "node_id") (fields_of e.payload))) e.publisher

abbrev a_number : Option Value → Option Value
a_number (some (nat n)) = some (nat n)
a_number (some (num t)) = some (num t)
a_number _ = none

abbrev text_at : String → Event → Option Text
text_at key e = as_text (get (codes key) (fields_of e.payload))

abbrev pub sighting_of : Event → ℕ → Sighting
sighting_of e now = record {
  node_id = e.publisher;
  operator_name = text_at "operator_name" e;
  session_name = text_at "session_name" e;
  message = text_at "message" e;
  model = text_at "model" e;
  connected_via = text_at "connected_via" e;
  interval_seconds = a_number (get (codes "interval_seconds") (fields_of e.payload));
  at = now;
}

unfoldable pub heard_hello : Event → ℕ → List AgentRecord → List AgentRecord
heard_hello e now rows = if names_itself e then upsert_agent (sighting_of e now) rows else rows

unfoldable pub heard_goodbye : Event → List AgentRecord → List AgentRecord
heard_goodbye e rows = if names_itself e then remove_agent e.publisher rows else rows

abbrev pub hear : Delivery → List AgentRecord → List AgentRecord
hear (hello e now) rows = heard_hello e now rows
hear (goodbye e now) rows = heard_goodbye e rows

abbrev pub hear_all : List Delivery → List AgentRecord → List AgentRecord
hear_all [] rows = rows
hear_all (d ∷ ds) rows = hear_all ds (hear d rows)

abbrev pub publisher_of : Delivery → Text
publisher_of (hello e now) = e.publisher
publisher_of (goodbye e now) = e.publisher

-- The specification: what one agent's own deliveries make of what is known of it. A hello that
-- names its sender makes it known, as first seen when it was not known before; a goodbye that
-- names its sender makes it unknown; nothing else says anything.
abbrev first_seen : Option AgentRecord → ℕ → ℕ
first_seen none now = now
first_seen (some a) now = a.first_seen_at

abbrev pub told : Delivery → Option AgentRecord → Option AgentRecord
told (hello e now) known =
    if names_itself e then some (seen (sighting_of e now) (first_seen known now)) else known
told (goodbye e now) known = if names_itself e then none else known

abbrev pub told_all : List Delivery → Option AgentRecord → Option AgentRecord
told_all [] known = known
told_all (d ∷ ds) known = told_all ds (told d known)

pub find-upsert_agent :
    (node : Text) (rec : Sighting) (rows : List AgentRecord)
    → find (is_agent node) (upsert_agent rec rows) ≡ (
        if same rec.node_id node
        then some (seen rec (first_seen (find (is_agent node) rows) rec.at))
        else find (is_agent node) rows)
unfolding upsert_agent
find-upsert_agent node rec [] = ground arith
find-upsert_agent node rec (a ∷ rows) = ground (
  arith,
  find-upsert_agent node rec rows,
  same_iff a.node_id node,
  same_iff rec.node_id node,
  same_iff a.node_id rec.node_id,
)

pub find-remove_agent :
    (node gone : Text) (rows : List AgentRecord)
    → find (is_agent node) (remove_agent gone rows)
      ≡ (if same gone node then none else find (is_agent node) rows)
unfolding remove_agent
find-remove_agent node gone [] = ground arith
find-remove_agent node gone (a ∷ rows) = ground (
  arith,
  find-remove_agent node gone rows,
  same_iff a.node_id node,
  same_iff gone node,
  same_iff a.node_id gone,
)

abbrev pub is_by : Text → Delivery → Bool
is_by node d = same (publisher_of d) node

find-hear :
    (node : Text) (d : Delivery) (rows : List AgentRecord)
    → find (is_agent node) (hear d rows)
      ≡ (if is_by node d then told d (find (is_agent node) rows) else find (is_agent node) rows)
unfolding heard_hello heard_goodbye
find-hear node (hello e now) rows = ground (arith, find-upsert_agent node (sighting_of e now) rows)
find-hear node (goodbye e now) rows = ground (arith, find-remove_agent node e.publisher rows)

-- The roster implements a map from agents to what each agent said of itself last: whatever arrives
-- on the two topics, from whomever and in whatever order, the row of an agent is what the agent's
-- own deliveries, in their order, make of the row it had. So no publisher makes another agent
-- appear, change or vanish.
pub find-hear_all :
    (node : Text) (ds : List Delivery) (rows : List AgentRecord)
    → find (is_agent node) (hear_all ds rows)
      ≡ told_all (keep (is_by node) ds) (find (is_agent node) rows)
find-hear_all node [] rows = refl
find-hear_all node (d ∷ ds) rows =
    ground (arith, find-hear_all node ds (hear d rows), find-hear node d rows)
