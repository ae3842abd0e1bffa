-- ===== src/Ring.antt =====
-- src/ring_agents/rings.ts: what a ring is, and the row that records one. Times are milliseconds;
-- the source writes them as ISO texts of one width, whose order is the order of the times.
pub mod Wire
pub mod Pending
use macula_mcp.Base.{
  ℕ, ◌≡◌, Bool, true, false, ◌&&◌, Option, none, some, Text, same, arith, same_iff,
}

-- ANSWER: accepted 1 and declined 2 are decided, deferred is 3.
pub data Verdict : Type 0 where
  accepted declined : Verdict

pub data Answer : Type 0 where
  decided : Verdict → Answer
  deferred : Answer

-- "in" and "out".
pub data Direction : Type 0 where
  incoming outgoing : Direction

abbrev pub same_direction : Direction → Direction → Bool
same_direction incoming incoming = true
same_direction outgoing outgoing = true
same_direction _ _ = false

-- A row of the table: RingRecord with its claimed_at. A column that is NULL is `none`.
pub record RingRow : Type 0 where
  pub ring_id : Text
  pub self : Option Text
  pub direction : Direction
  pub peer : Text
  pub purpose : Text
  pub room_topic : Text
  pub sent_at : ℕ
  pub recorded_at : ℕ
  pub answer : Option Answer
  pub reason : Option Text
  pub answered_at : Option ℕ
  pub claim : Option Text
  pub claimed_at : Option ℕ

-- ring_id = ? AND direction = ?, the primary key.
abbrev pub has_key : Text → Direction → RingRow → Bool
has_key id dir r = same r.ring_id id && same_direction r.direction dir

-- A value of a column against a text: false on NULL.
abbrev pub is_text : Option Text → Text → Bool
is_text none t = false
is_text (some s) t = same s t

-- answer IS NULL
abbrev pub is_unanswered : Option Answer → Bool
is_unanswered none = true
is_unanswered (some a) = false

-- answer IS NULL OR answer = 3
abbrev pub is_open : Option Answer → Bool
is_open none = true
is_open (some deferred) = true
is_open (some (decided v)) = false

-- An answer that is final.
abbrev pub is_decided : Option Answer → Bool
is_decided (some (decided v)) = true
is_decided _ = false

-- Two keys that one row has are one key.
pub has_key_unique :
    (i j : Text) (d e : Direction) (r : RingRow)
    → has_key i d r ≡ true
    → has_key j e r ≡ true
    → (i ≡ j) × (d ≡ e)
has_key_unique i j d e r p q = ground (arith, same_iff r.ring_id i, same_iff r.ring_id j)
