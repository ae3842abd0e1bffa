-- ===== src/Observer/Accounts.antt =====
-- src/dropped_events.ts under src/converse_in_rooms/watch_lobby.ts: the losses in the file after a
-- history of the observer.
use macula_mcp.Base.{ℕ, ◌+◌, Bool, true, false, List, [], ◌∷◌, Text, same, if◌then◌else◌}
use macula_mcp.Transcript.{Transcript}
use macula_mcp.Observer.{Observer}
use macula_mcp.Observer.Run.{Event, others_lose}

-- What an event says that another process lost.
abbrev pub others_lost : Text → Event → ℕ
others_lost topic (others_lose l) = if same l.topic topic then l.lost else 0
others_lost topic _ = 0

abbrev pub lost_by_others : Text → List Event → ℕ
lost_by_others topic [] = 0
lost_by_others topic (e ∷ es) = others_lost topic e + lost_by_others topic es

-- The events of this process.
abbrev is_own : Event → Bool
is_own (others_lose l) = false
is_own _ = true
