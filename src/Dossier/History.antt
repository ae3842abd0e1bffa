-- ===== src/Dossier/History.antt =====
-- src/ring_agents/ring_dossier.ts: consistency under each transition and each history.
use macula_mcp.Base.{
  ℕ, ◌≤◌, ◌≡◌, refl, Option, none, some, List, [], ◌∷◌, Text, ◌∙◌, ◌-◌, arith, count_if, bit, find,
  All, ltb, Bool-cases, inl, inr, ltb→lt,
}
use macula_mcp.Ring.{
  Answer, Verdict, decided, Direction, incoming, outgoing, RingRow, has_key, is_decided,
}
use macula_mcp.Machine.{Db, empty_db}
use macula_mcp.Dossier.Counts.{rows_of, decided_rows}
use macula_mcp.Dossier.Once.{
  decisions, IsConsistent, IsNamed, update_where-IsConsistent, answer-IsConsistent,
  set_reason-IsKeeping, set_claim-IsKeeping, clear_claim-IsKeeping, set_answer-IsKeeping,
  set_verdict-IsKeeping,
}
use macula_mcp.Dossier.{
  awaits_reason, awaits_reply, set_reason, set_answer, ring_reply, claim_deferred_ring,
  awaits_claim, set_claim, holds_claim, set_verdict, claim_ttl_ms, answer_claimed_ring, clear_claim,
  release_claim, Transition, places, receives, hears, claims, answers, releases, apply, run,
}
use macula_mcp.Dossier.Kept.{ring_placed-IsConsistent, ring_received_in-IsConsistent}

ring_reply-IsConsistent :
    (id : Text) (answer : Option Answer) (reason : Option Text) (at : ℕ) (db : Db)
    → IsConsistent db
    → IsConsistent (ring_reply id answer reason at db).0
unfolding ring_reply
ring_reply-IsConsistent id none reason at db c =
    update_where-IsConsistent db (awaits_reason id) (set_reason reason)
      (set_reason-IsKeeping reason) (λ r. refl) c
ring_reply-IsConsistent id (some a) reason at db c =
    elim (Bool-cases (ltb 0 (count_if (awaits_reply id) db.rings))) [
      | inl hit ↦ rw hit (
          answer-IsConsistent db (awaits_reply id) (set_answer a reason at) id outgoing a reason at
            (set_answer-IsKeeping a reason at) (λ r h. ground arith) (λ r h. ground arith)
            (λ r. refl) (ltb→lt _ _ hit) c)
      | inr miss ↦ rw miss c
    ]

pub claim_deferred_ring-IsConsistent :
    (id self : Text) (started at : ℕ) (token : Text) (db : Db)
    → IsConsistent db
    → IsConsistent (claim_deferred_ring id self started at token db).0
unfolding claim_deferred_ring
claim_deferred_ring-IsConsistent id self started at token db c = ground (
  arith,
  update_where-IsConsistent db (awaits_claim id (started - claim_ttl_ms)) (set_claim token at)
      (set_claim-IsKeeping token at) (λ r. refl) c,
)

answer_claimed_ring-IsConsistent :
    (id token : Text) (v : Verdict) (reason : Option Text) (at : ℕ) (db : Db)
    → IsConsistent db
    → IsConsistent (answer_claimed_ring id token v reason at db).0
unfolding answer_claimed_ring
answer_claimed_ring-IsConsistent id token v reason at db c =
    elim (Bool-cases (ltb 0 (count_if (holds_claim id token) db.rings))) [
      | inl hit ↦ rw hit (
          answer-IsConsistent db (holds_claim id token) (set_verdict v reason at) id incoming
            (decided v) reason at (set_verdict-IsKeeping v reason at) (λ r h. ground arith)
            (λ r h. ground arith) (λ r. refl) (ltb→lt _ _ hit) c)
      | inr miss ↦ rw miss c
    ]

pub apply-IsConsistent :
    (t : Transition) (db : Db) → IsNamed t → IsConsistent db → IsConsistent (apply t db)
unfolding apply release_claim
apply-IsConsistent (places seed at) db named c = ring_placed-IsConsistent seed at db named c
apply-IsConsistent (receives seed answer reason at) db named c =
    ring_received_in-IsConsistent seed answer reason at db named c
apply-IsConsistent (hears id answer reason at) db named c =
    ring_reply-IsConsistent id answer reason at db c
apply-IsConsistent (claims id self started at token) db named c =
    claim_deferred_ring-IsConsistent id self started at token db c
apply-IsConsistent (answers id token v reason at) db named c =
    answer_claimed_ring-IsConsistent id token v reason at db c
apply-IsConsistent (releases id token) db named c =
    update_where-IsConsistent db (holds_claim id token) clear_claim clear_claim-IsKeeping
      (λ r. refl) c

pub run-IsConsistent :
    (ts : List Transition) (db : Db) → All IsNamed ts → IsConsistent db → IsConsistent (run ts db)
unfolding run
run-IsConsistent [] db named c = c
run-IsConsistent (t ∷ ts) db named c =
    run-IsConsistent ts (apply t db) named.1 (apply-IsConsistent t db named.0 c)

pub empty_db-IsConsistent : IsConsistent empty_db
empty_db-IsConsistent = record {
  unique = λ id dir. omega arith;
  owned = tt;
  logged = λ id dir. refl;
}

-- The answer that the row of a ring holds.
abbrev pub answer_in_rows : Text → Direction → List RingRow → Option Answer
answer_in_rows id dir rows = elim (find (has_key id dir) rows) [ none ↦ none | some r ↦ r.answer ]

abbrev pub answer_in : Text → Direction → Db → Option Answer
answer_in id dir db = answer_in_rows id dir db.rings

decided_rows-le :
    (id : Text) (dir : Direction) (rows : List RingRow)
    → decided_rows id dir rows ≤ rows_of id dir rows
decided_rows-le id dir [] = omega arith
decided_rows-le id dir (r ∷ rows) = ground (arith, decided_rows-le id dir rows)

decided_rows-eq :
    (id : Text) (dir : Direction) (rows : List RingRow)
    → rows_of id dir rows ≤ 1
    → decided_rows id dir rows ≡ bit (is_decided (answer_in_rows id dir rows))
decided_rows-eq id dir [] h = refl
decided_rows-eq id dir (r ∷ rows) h =
    ground (arith, decided_rows-eq id dir rows, decided_rows-le id dir rows)

-- After any history of transitions for named nodes on a new file, the log holds exactly one
-- `ring_answered` entry with a final answer for each ring and direction whose row holds a final
-- answer, and none for any other.
pub decisions-run :
    (ts : List Transition) (id : Text) (dir : Direction)
    → All IsNamed ts
    → decisions id dir (run ts empty_db) ≡ bit (is_decided (answer_in id dir (run ts empty_db)))
decisions-run ts id dir named =
    let c = run-IsConsistent ts empty_db named empty_db-IsConsistent in
    c.logged id dir ∙ decided_rows-eq id dir (run ts empty_db).rings (c.unique id dir)
