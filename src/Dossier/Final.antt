-- ===== src/Dossier/Final.antt =====
-- src/ring_agents/ring_dossier.ts: the row of a decided ring under each transition.
use macula_mcp.Base.{
  ℕ, ◌≡◌, Bool, true, false, Option, none, some, List, [], ◌∷◌, ◌++◌, Text, arith, any, count_if,
  ltb, Bool-cases, inl, inr, ◌-◌,
}
use macula_mcp.Ring.{Verdict, decided, Direction, incoming, outgoing, RingRow, has_key, is_decided}
use macula_mcp.Machine.{Db}
use macula_mcp.Dossier.Counts.{IsKeeping}
use macula_mcp.Dossier.Once.{
  rings-log_answered, set_reason-IsKeeping, set_claim-IsKeeping, clear_claim-IsKeeping,
  set_answer-IsKeeping, set_verdict-IsKeeping,
}
use macula_mcp.Dossier.History.{answer_in_rows, answer_in}
use macula_mcp.Dossier.{
  new_row, update_where, ring_placed, log_verdict, ring_received_in, awaits_reason, awaits_reply,
  set_reason, set_answer, ring_reply, claim_deferred_ring, awaits_claim, set_claim, holds_claim,
  set_verdict, answer_claimed_ring, clear_claim, release_claim, Transition, places, receives, hears,
  claims, answers, releases, apply, run, claim_ttl_ms,
}

module _ (id : Text) (dir : Direction) (v : Verdict) where
  abbrev Stands : List RingRow → Type 0
  Stands rows = answer_in_rows id dir rows ≡ some (decided v)

  Stands-append : (rows more : List RingRow) → Stands rows → Stands (rows ++ more)
  Stands-append [] more h = cc
  Stands-append (r ∷ rows) more h = ground (arith, Stands-append rows more)

  Stands-update_where :
      (p : RingRow → Bool) (f : RingRow → RingRow)
      → IsKeeping f
      → ((r : RingRow) → p r ≡ true → is_decided r.answer ≡ false)
      → (rows : List RingRow) → Stands rows
      → Stands (update_where p f rows)
  Stands-update_where p f k undecided [] h = h
  Stands-update_where p f k undecided (r ∷ rows) h =
      ground
        (arith, k.ring_id r, k.direction r, undecided r, Stands-update_where p f k undecided rows)

  Stands-log_verdict :
      (i : Text) (a : Option Verdict) (reason : Option Text) (at : ℕ) (db : Db)
      → Stands db.rings
      → Stands (log_verdict i a reason at db).rings
  Stands-log_verdict i none reason at db h = h
  Stands-log_verdict i (some a) reason at db h =
      rw (rings-log_answered i _ (decided a) reason at db) h

  Stands-apply : (t : Transition) (db : Db) → Stands db.rings → Stands (apply t db).rings
  unfolding apply ring_placed ring_received_in ring_reply claim_deferred_ring answer_claimed_ring
      release_claim
  Stands-apply (places seed at) db h =
      ground (arith, Stands-append db.rings (new_row seed outgoing at none none none ∷ []))
  Stands-apply (receives seed a reason at) db h =
      elim (Bool-cases (any (has_key seed.ring_id incoming) db.rings)) [
        | inl old ↦ rw (old, apply) h
        | inr new ↦
            rw (new, apply)
              (Stands-log_verdict seed.ring_id a reason at _ (Stands-append db.rings _ h))
      ]
  Stands-apply (hears i none reason at) db h =
      Stands-update_where (awaits_reason i) (set_reason reason) (set_reason-IsKeeping reason)
        (λ r p. ground arith) db.rings h
  Stands-apply (hears i (some a) reason at) db h =
      elim (Bool-cases (ltb 0 (count_if (awaits_reply i) db.rings))) [
        | inl hit ↦
            rw (hit, apply, rings-log_answered i outgoing a reason at _)
              (Stands-update_where (awaits_reply i) (set_answer a reason at)
                (set_answer-IsKeeping a reason at) (λ r p. ground arith) db.rings h)
        | inr miss ↦ rw (miss, apply) h
      ]
  Stands-apply (claims i self started at token) db h = ground (
    arith,
    Stands-update_where (awaits_claim i (started - claim_ttl_ms)) (set_claim token at)
        (set_claim-IsKeeping token at) (λ r p. ground arith) db.rings h,
  )
  Stands-apply (answers i token w reason at) db h =
      elim (Bool-cases (ltb 0 (count_if (holds_claim i token) db.rings))) [
        | inl hit ↦
            rw (hit, apply, rings-log_answered i incoming (decided w) reason at _)
              (Stands-update_where (holds_claim i token) (set_verdict w reason at)
                (set_verdict-IsKeeping w reason at) (λ r p. ground arith) db.rings h)
        | inr miss ↦ rw (miss, apply) h
      ]
  Stands-apply (releases i token) db h =
      Stands-update_where (holds_claim i token) clear_claim clear_claim-IsKeeping
        (λ r p. ground arith) db.rings h

-- Once the row of a ring holds a final answer, it holds that answer after any further history of
-- placing, receiving, replying, claiming, answering and releasing.
pub answer_in-run :
    (ts : List Transition) (db : Db) (id : Text) (dir : Direction) (v : Verdict)
    → answer_in id dir db ≡ some (decided v)
    → answer_in id dir (run ts db) ≡ some (decided v)
unfolding run
answer_in-run [] db id dir v h = h
answer_in-run (t ∷ ts) db id dir v h =
    answer_in-run ts (apply t db) id dir v (Stands-apply id dir v t db h)
