-- ===== src/Presence/Roster.antt =====
-- src/be_present/roster.ts and src/resolve_node_id.ts: the agents that were heard of. A time is its
-- number of milliseconds, and an interval is the number whose text the column holds.
use macula_mcp.Base.{
  ℕ, zero, suc, ◌-◌, ◌*◌, Bool, not, Option, List, [], ◌∷◌, Text, same, keep, length, take, ltb,
  map, if◌then◌else◌, trim, to_lower_case, is_hex64,
}
use macula_mcp.Json.{Value}

pub record AgentRecord : Type 0 where
  pub node_id : Text
  pub operator_name : Option Text
  pub session_name : Option Text
  pub message : Option Text
  pub model : Option Text
  pub connected_via : Option Text
  pub interval_seconds : Option Value
  pub first_seen_at : ℕ
  pub last_seen_at : ℕ

-- The argument of upsertAgent.
pub record Sighting : Type 0 where
  pub node_id : Text
  pub operator_name : Option Text
  pub session_name : Option Text
  pub message : Option Text
  pub model : Option Text
  pub connected_via : Option Text
  pub interval_seconds : Option Value
  pub at : ℕ

abbrev pub is_agent : Text → AgentRecord → Bool
is_agent node a = same a.node_id node

-- The row with everything but its first sighting replaced.
abbrev pub seen : Sighting → ℕ → AgentRecord
seen rec first = record {
  node_id = rec.node_id;
  operator_name = rec.operator_name;
  session_name = rec.session_name;
  message = rec.message;
  model = rec.model;
  connected_via = rec.connected_via;
  interval_seconds = rec.interval_seconds;
  first_seen_at = first;
  last_seen_at = rec.at;
}

-- INSERT … ON CONFLICT(node_id) DO UPDATE
unfoldable pub upsert_agent : Sighting → List AgentRecord → List AgentRecord
upsert_agent rec [] = seen rec rec.at ∷ []
upsert_agent rec (a ∷ rows) =
    let rest = upsert_agent rec rows in
    if is_agent rec.node_id a then seen rec a.first_seen_at ∷ rows else a ∷ rest

unfoldable pub remove_agent : Text → List AgentRecord → List AgentRecord
remove_agent node rows = keep (λ a. not (is_agent node a)) rows

-- ORDER BY last_seen_at DESC
abbrev put_latest : AgentRecord → List AgentRecord → List AgentRecord
put_latest a [] = a ∷ []
put_latest a (b ∷ rows) =
    let later = b ∷ put_latest a rows in
    if ltb a.last_seen_at b.last_seen_at then later else a ∷ b ∷ rows

abbrev pub latest_first : List AgentRecord → List AgentRecord
latest_first [] = []
latest_first (a ∷ rows) = put_latest a (latest_first rows)

abbrev skip : ℕ → List AgentRecord → List AgentRecord
skip zero rows = rows
skip (suc n) [] = []
skip (suc n) (a ∷ rows) = skip n rows

pub record RosterPage : Type 0 where
  pub total : ℕ
  pub agents : List AgentRecord

-- LIMIT page_size OFFSET (max(1, page) - 1) * page_size
unfoldable pub list_agents : ℕ → ℕ → List AgentRecord → RosterPage
list_agents page page_size rows = record {
  total = length rows;
  agents = take page_size (skip ((page - 1) * page_size) (latest_first rows));
}

unfoldable pub list_all_node_ids : List AgentRecord → List Text
list_all_node_ids rows = map (λ a. a.node_id) rows

-- The rows that stay, and how many went.
unfoldable pub prune_stale : ℕ → ℕ → List AgentRecord → List AgentRecord × ℕ
prune_stale now max_age_seconds rows =
    let cutoff = now - max_age_seconds * 1000 in
    let fresh = keep (λ a. not (ltb a.last_seen_at cutoff)) rows in
    (fresh, length rows - length fresh)

abbrev pub stale_after_seconds : ℕ
stale_after_seconds = 900

pub data Resolved : Type 0 where
  by_node_id by_petname : (node_id : Text) → Resolved
  unknown_petname : (trimmed : Text) → Resolved
  ambiguous : (trimmed : Text) (candidates : List Text) → Resolved

abbrev resolved_in : Text → List Text → Resolved
resolved_in trimmed [] = unknown_petname trimmed
resolved_in trimmed (id ∷ []) = by_petname id
resolved_in trimmed ids = ambiguous trimmed ids

abbrev matching : (Text → Text) → Text → List Text → List Text
matching petname target ids = keep (λ id. same (petname id) target) ids

-- The answer, and the roster without the rows that were pruned on the way.
unfoldable pub resolve_node_id :
    (Text → Text) → ℕ → Text → List AgentRecord → Resolved × List AgentRecord
resolve_node_id petname now input rows =
    let trimmed = trim input in
    let fresh = (prune_stale now stale_after_seconds rows).0 in
    if is_hex64 trimmed then (by_node_id (to_lower_case trimmed), rows) else (
      resolved_in trimmed (matching petname (to_lower_case trimmed) (list_all_node_ids fresh)),
      fresh,
    )
