-- ===== src/Ring/Pending.antt =====
-- src/ring_agents/rings.ts: reading the ring rows of one identity.
use macula_mcp.Base.{
  ℕ, ◌+◌, ◌*◌, Bool, true, false, ◌&&◌, Option, none, some, List, [], ◌∷◌, Text, same,
  to_lower_case, keep, count_if, find, take, length, ltb, leb, if◌then◌else◌,
}
use macula_mcp.Ring.{
  Answer, Verdict, decided, deferred, accepted, declined, Direction, incoming, same_direction,
  RingRow, is_text, is_unanswered,
}
use macula_mcp.Machine.{Db}

abbrev pub pending_ring_ttl_ms : ℕ
pending_ring_ttl_ms = 24 * 60 * 60 * 1000

-- ring_id = ? AND self = ?
unfoldable pub get_ring : Text → Text → Db → Option RingRow
get_ring id self db = find (λ r. same r.ring_id id && is_text r.self (to_lower_case self)) db.rings

abbrev pub same_verdict : Verdict → Verdict → Bool
same_verdict accepted accepted = true
same_verdict declined declined = true
same_verdict _ _ = false

abbrev pub same_answer : Answer → Answer → Bool
same_answer (decided v) (decided w) = same_verdict v w
same_answer deferred deferred = true
same_answer _ _ = false

-- The arguments of listRings; `limit` is 50 where it is left out.
pub record ListArgs : Type 0 where
  pub self : Text
  pub direction : Option Direction
  pub pending_only : Bool
  pub answer : Option Answer
  pub limit : ℕ

abbrev pub in_direction : Option Direction → RingRow → Bool
in_direction none r = true
in_direction (some d) r = same_direction r.direction d

abbrev pub is_null : Option Text → Bool
is_null none = true
is_null (some s) = false

-- answer IS NULL AND reason IS NULL AND recorded_at > now - PENDING_RING_TTL_MS
abbrev pub is_pending : ℕ → RingRow → Bool
is_pending now r =
    is_unanswered r.answer && is_null r.reason && ltb now (r.recorded_at + pending_ring_ttl_ms)

abbrev pub passes_pending : Bool → ℕ → RingRow → Bool
passes_pending true now r = is_pending now r
passes_pending false now r = true

abbrev pub has_answer : Option Answer → RingRow → Bool
has_answer none r = true
has_answer (some a) r = elim r.answer [ none ↦ false | some b ↦ same_answer b a ]

abbrev pub passes : ListArgs → ℕ → RingRow → Bool
passes args now r =
    is_text r.self (to_lower_case args.self)
    && in_direction args.direction r
    && passes_pending args.pending_only now r
    && has_answer args.answer r

-- ORDER BY recorded_at DESC
abbrev pub put_newest : RingRow → List RingRow → List RingRow
put_newest r [] = r ∷ []
put_newest r (x ∷ xs) =
    let later = x ∷ put_newest r xs in if leb x.recorded_at r.recorded_at then r ∷ x ∷ xs else later

abbrev pub newest_first : List RingRow → List RingRow
newest_first [] = []
newest_first (r ∷ rs) = put_newest r (newest_first rs)

unfoldable pub list_rings : ListArgs → ℕ → Db → List RingRow
list_rings args now db = take args.limit (newest_first (keep (passes args now) db.rings))

unfoldable pub pending_incoming : Text → ℕ → Db → List RingRow
unfolding list_rings
pending_incoming self now db =
    list_rings
      (record {
        self = self;
        direction = some incoming;
        pending_only = true;
        answer = none;
        limit = 100;
      })
      now db

abbrev pub is_from : Text → RingRow → Bool
is_from peer r = same (to_lower_case r.peer) (to_lower_case peer)

pub record PendingSummary : Type 0 where
  pub count : ℕ
  pub from_peer : ℕ

unfoldable pub pending_summary : Text → Text → ℕ → Db → PendingSummary
unfolding pending_incoming
pending_summary self peer now db =
    let rows = pending_incoming self now db in
    record { count = length rows; from_peer = count_if (is_from peer) rows }
