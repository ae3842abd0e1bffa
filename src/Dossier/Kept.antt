-- ===== src/Dossier/Kept.antt =====
-- src/ring_agents/ring_dossier.ts: consistency under ringPlaced and ringReceived.
use macula_mcp.Base.{
  ℕ, ◌+◌, ◌≤◌, ◌<◌, ◌≡◌, ◌≢◌, refl, ◌&&◌, Option, none, some, List, [], ◌∷◌, ◌++◌, Text, same,
  same_refl, arith, count_if, count_if-append, bit, any, All, All-append, same_iff, Bool-cases, inl,
  inr, to_lower_case,
}
use macula_mcp.Ring.{
  Answer, Verdict, decided, Direction, incoming, outgoing, same_direction, RingRow, has_key,
  is_decided,
}
use macula_mcp.NodeEvents.{EventLog, append_node_event}
use macula_mcp.Machine.{Db}
use macula_mcp.Dossier.Counts.{rows_of, is_decided_row, decided_rows, IsOwned, any-eq-false}
use macula_mcp.Dossier.Once.{
  is_decision, decisions-append, IsConsistent, log_answered_lem, rings-log_answered,
}
use macula_mcp.Dossier.{
  RingSeed, new_row, attributed, log_answered, ring_placed, answer_of, answered_when,
  received_entry, log_verdict, ring_received_in,
}

attributed-to_lower_case : (s : Text) → s ≢ [] → attributed (some (to_lower_case s)) ≢ none
unfolding to_lower_case
attributed-to_lower_case [] h = absurd (h refl)
attributed-to_lower_case (c ∷ s) h = ground arith

-- A new row under a key that no row has.
module _ (seed : RingSeed) (dir : Direction) (at : ℕ) (answer : Option Answer)
    (reason : Option Text) (answered_at : Option ℕ) (rows : List RingRow)
    (fresh : rows_of seed.ring_id dir rows ≡ 0) where
  abbrev added : List RingRow
  added = rows ++ new_row seed dir at answer reason answered_at ∷ []

  added_unique :
      ((id : Text) (d : Direction) → rows_of id d rows ≤ 1)
      → (id : Text) (d : Direction) → rows_of id d added ≤ 1
  added_unique u id d = ground (
    arith,
    count_if-append (has_key id d) rows (new_row seed dir at answer reason answered_at ∷ []),
    u id d,
    fresh,
    same_iff seed.ring_id id,
  )

  added_decided :
      (id : Text) (d : Direction)
      → decided_rows id d added
        ≡ decided_rows id d rows
          + bit (same seed.ring_id id && same_direction dir d && is_decided answer)
  added_decided id d = ground (
    arith,
    count_if-append (is_decided_row id d) rows (new_row seed dir at answer reason answered_at ∷ []),
  )

  added-IsOwned : seed.self ≢ [] → All IsOwned rows → All IsOwned added
  added-IsOwned named own =
      All-append IsOwned rows _ own (attributed-to_lower_case seed.self named, tt)

pub ring_placed-IsConsistent :
    (seed : RingSeed) (at : ℕ) (db : Db)
    → seed.self ≢ []
    → IsConsistent db
    → IsConsistent (ring_placed seed at db).0
unfolding ring_placed
ring_placed-IsConsistent seed at db named c =
    elim (Bool-cases (any (has_key seed.ring_id outgoing) db.rings)) [
      | inl old ↦ rw old c
      | inr new ↦ rw new (placed (any-eq-false _ db.rings new))
    ]
  where
    placed :
        rows_of seed.ring_id outgoing db.rings ≡ 0
        → IsConsistent
            (record db { rings = db.rings ++ new_row seed outgoing at none none none ∷ [] })
    placed fresh = record {
      unique = added_unique seed outgoing at none none none db.rings fresh c.unique;
      owned = added-IsOwned seed outgoing at none none none db.rings fresh named c.owned;
      logged = λ id d.
          ground (
            arith,
            c.logged id d,
            added_decided seed outgoing at none none none db.rings fresh id d,
          );
    }

-- The entry for a ring that arrives is no decision by itself.
received_log :
    (seed : RingSeed) (answer : Option Verdict) (reason : Option Text) (at : ℕ) (log : EventLog)
    (id : Text) (d : Direction)
    → count_if
        (is_decision id d)
        (append_node_event (received_entry seed answer reason at) log).events
      ≡ count_if (is_decision id d) log.events
received_log seed answer reason at log id d =
    omega (arith, decisions-append id d (received_entry seed answer reason at) log)

module _ (seed : RingSeed) (reason : Option Text) (at : ℕ) (db : Db) (named : seed.self ≢ [])
    (fresh : rows_of seed.ring_id incoming db.rings ≡ 0) (c : IsConsistent db) where
  abbrev received : Option Verdict → Db
  received answer = record {
    rings =
        added seed incoming at (answer_of answer) reason (answered_when answer at) db.rings fresh;
    log = append_node_event (received_entry seed answer reason at) db.log;
  }

  deferred-IsConsistent : IsConsistent (received none)
  deferred-IsConsistent = record {
    unique = added_unique seed incoming at none reason none db.rings fresh c.unique;
    owned = added-IsOwned seed incoming at none reason none db.rings fresh named c.owned;
    logged = λ id d. ground (
      arith,
      c.logged id d,
      received_log seed none reason at db.log id d,
      added_decided seed incoming at none reason none db.rings fresh id d,
    );
  }

  settled-IsConsistent :
      (v : Verdict)
      → IsConsistent (log_answered seed.ring_id incoming (decided v) reason at (received (some v)))
  settled-IsConsistent v = record {
    unique = λ id d.
        rw (rings-log_answered seed.ring_id incoming (decided v) reason at (received (some v))) (
          added_unique seed incoming at (some (decided v)) reason (some at) db.rings fresh c.unique
            id d);
    owned =
        rw (rings-log_answered seed.ring_id incoming (decided v) reason at (received (some v))) own;
    logged = λ id d.
        rw (rings-log_answered seed.ring_id incoming (decided v) reason at (received (some v))) (
          ground (
            arith,
            c.logged id d,
            received_log seed (some v) reason at db.log id d,
            log_answered_lem seed.ring_id incoming (decided v) reason at (received (some v)) own
                there id d,
            added_decided seed incoming at (some (decided v)) reason (some at) db.rings fresh id d,
          ));
  }
    where
      own : All IsOwned (received (some v)).rings
      own =
          added-IsOwned seed incoming at (some (decided v)) reason (some at) db.rings fresh named
            c.owned

      there : 0 < rows_of seed.ring_id incoming (received (some v)).rings
      there = ground (
        arith,
        count_if-append (has_key seed.ring_id incoming) db.rings
            (new_row seed incoming at (some (decided v)) reason (some at) ∷ []),
        same_refl seed.ring_id,
      )

  received-IsConsistent :
      (answer : Option Verdict)
      → IsConsistent (log_verdict seed.ring_id answer reason at (received answer))
  received-IsConsistent none = deferred-IsConsistent
  received-IsConsistent (some v) = settled-IsConsistent v

pub ring_received_in-IsConsistent :
    (seed : RingSeed) (answer : Option Verdict) (reason : Option Text) (at : ℕ) (db : Db)
    → seed.self ≢ []
    → IsConsistent db
    → IsConsistent (ring_received_in seed answer reason at db).0
unfolding ring_received_in
ring_received_in-IsConsistent seed answer reason at db named c =
    elim (Bool-cases (any (has_key seed.ring_id incoming) db.rings)) [
      | inl old ↦ rw old c
      | inr new ↦
          rw new
            (received-IsConsistent seed reason at db named (any-eq-false _ db.rings new) c answer)
    ]
