-- ===== src/Dossier/Received.antt =====
-- src/ring_agents/ring_dossier.ts: the row of a ring that ringReceived was called for.
use macula_mcp.Base.{
  ℕ, ◌≡◌, refl, Bool, true, Option, none, some, List, [], ◌∷◌, ◌++◌, Text, arith, same_iff, find,
  any, Bool-cases, inl, inr,
}
use macula_mcp.Ring.{Verdict, incoming, RingRow, has_key}
use macula_mcp.NodeEvents.{append_node_event}
use macula_mcp.Machine.{Db}
use macula_mcp.Dossier.{
  RingSeed, new_row, log_answered, log_verdict, ring_received_in, received_entry, answer_of,
  answered_when,
}

-- A row that is there stands; a ring that is new gets the row with its answer.
abbrev pub first_row : RingRow → Option RingRow → Option RingRow
first_row new none = some new
first_row new (some r) = some r

rings-log_verdict :
    (id : Text) (v : Option Verdict) (reason : Option Text) (at : ℕ) (db : Db)
    → (log_verdict id v reason at db).rings ≡ db.rings
unfolding log_answered
rings-log_verdict id none reason at db = refl
rings-log_verdict id (some v) reason at db = ground arith

find-snoc :
    (p : RingRow → Bool) (rs : List RingRow) (r : RingRow)
    → p r ≡ true
    → find p (rs ++ r ∷ []) ≡ first_row r (find p rs)
find-snoc p [] r h = ground arith
find-snoc p (q ∷ qs) r h = ground (arith, find-snoc p qs r)

find-first_row :
    (p : RingRow → Bool) (rs : List RingRow) (r : RingRow)
    → any p rs ≡ true
    → find p rs ≡ first_row r (find p rs)
find-first_row p [] r h = cc
find-first_row p (q ∷ qs) r h = ground (arith, find-first_row p qs r)

pub find-ring_received_in :
    (seed : RingSeed) (v : Option Verdict) (reason : Option Text) (at : ℕ) (db : Db)
    → find (has_key seed.ring_id incoming) (ring_received_in seed v reason at db).0.rings
      ≡ first_row
          (new_row seed incoming at (answer_of v) reason (answered_when v at))
          (find (has_key seed.ring_id incoming) db.rings)
unfolding ring_received_in
find-ring_received_in seed v reason at db =
    let row = new_row seed incoming at (answer_of v) reason (answered_when v at) in
    elim (Bool-cases (any (has_key seed.ring_id incoming) db.rings)) [
      | inl old ↦
          rw (old, ring_received_in)
            (find-first_row (has_key seed.ring_id incoming) db.rings row old)
      | inr new ↦
          rw
            (
              new,
              ring_received_in,
              rings-log_verdict seed.ring_id v reason at (record {
                rings = db.rings ++ row ∷ [];
                log = append_node_event (received_entry seed v reason at) db.log;
              }),
            )
            (find-snoc (has_key seed.ring_id incoming) db.rings row
              (ground (arith, same_iff seed.ring_id seed.ring_id)))
    ]
