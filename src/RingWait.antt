-- ===== src/RingWait.antt =====
-- src/ring_agents/rings.ts, waitRing: what the file holds at each poll before the deadline is a list;
-- the other sessions write between two polls.
use macula_mcp.Base.{
  find-passes, ℕ, ◌≡◌, ◌<◌, refl, Bool, true, false, Option, none, some, List, [], ◌∷◌, Text,
  get_or, to_lower_case, arith, any, is_some, ◌⊎◌, inl, inr, Option-cases, ◌&&◌, not, same,
}
use macula_mcp.Ring.{RingRow}
use macula_mcp.Ring.Pending.{get_ring}
use macula_mcp.NodeEvents.{
  NodeEvent, first_ring_received_after, last_node_event_seq, is_received, is_after,
}
use macula_mcp.Machine.{Db}

pub record WaitRingResult : Type 0 where
  pub ring : Option RingRow
  pub event : Option NodeEvent
  pub next_after_seq : ℕ
  pub timed_out : Bool

abbrev pub ring_of_event : NodeEvent → Text → Db → Option RingRow
ring_of_event e self db = elim e.ring_id [ none ↦ none | some id ↦ get_ring id self db ]

-- The loop, from the cursor `after`.
unfoldable pub poll_rings : Text → ℕ → List Db → WaitRingResult
poll_rings self after [] = record {
  ring = none;
  event = none;
  next_after_seq = after;
  timed_out = true;
}
poll_rings self after (db ∷ polls) =
    let later = poll_rings self after polls in
    elim (first_ring_received_after db.log self after) [
      | none ↦ later
      | some e ↦ record {
        ring = ring_of_event e self db;
        event = some e;
        next_after_seq = e.seq;
        timed_out = false;
      }
    ]

-- `now` is the file when the wait begins.
unfoldable pub wait_ring : Text → Option ℕ → Db → List Db → WaitRingResult
wait_ring self after_seq now polls =
    poll_rings self (get_or after_seq (last_node_event_seq now.log self)) polls

-- Whether a poll finds a ring of this node behind the cursor.
abbrev pub finds : Text → ℕ → Db → Bool
finds self after db = is_some (first_ring_received_after db.log self after)

-- The result names no entry and keeps the cursor, or names a ring received by this node behind the
-- cursor and moves the cursor to it.
abbrev pub IsNext : Text → ℕ → WaitRingResult → Type 0
IsNext self after r =
    ((r.event ≡ none) × (r.next_after_seq ≡ after))
    ⊎ ((e : NodeEvent) × (r.event ≡ some e)
        × (is_received e.kind ≡ true)
        × (same e.self (to_lower_case self) ≡ true)
        × (after < e.seq)
        × (r.next_after_seq ≡ e.seq))

poll_rings_lem :
    (self : Text) (after : ℕ) (polls : List Db)
    → ((poll_rings self after polls).timed_out ≡ not (any (finds self after) polls))
      × IsNext self after (poll_rings self after polls)
unfolding poll_rings first_ring_received_after
poll_rings_lem self after [] = (refl, inl (refl, refl))
poll_rings_lem self after (db ∷ polls) =
    elim (Option-cases (first_ring_received_after db.log self after)) [
      | inl nothing ↦ rw (nothing, poll_rings) (poll_rings_lem self after polls)
      | inr (e, found) ↦
          let passed =
            find-passes (λ x. is_after (to_lower_case self) after x && is_received x.kind)
              db.log.events e found in
          rw (found, poll_rings)
            (refl, inr (e, refl, ground arith, ground arith, ground arith, refl))
    ]

-- Waiting behind a cursor times out only when no poll before the deadline finds a ring received by
-- this node behind the cursor, and then keeps the cursor; otherwise it gives such a ring and moves
-- the cursor to it.
wait_ring_lem :
    (self : Text) (after : ℕ) (now : Db) (polls : List Db)
    → ((wait_ring self (some after) now polls).timed_out ≡ not (any (finds self after) polls))
      × IsNext self after (wait_ring self (some after) now polls)
unfolding wait_ring
wait_ring_lem self after now polls = poll_rings_lem self after polls
