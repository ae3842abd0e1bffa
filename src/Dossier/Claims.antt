-- ===== src/Dossier/Claims.antt =====
-- src/ring_agents/ring_dossier.ts: claimDeferredRing and answerClaimedRing against rival claims.
use macula_mcp.Base.{
  ℕ, ◌+◌, ◌-◌, ◌≤◌, ◌<◌, ◌≡◌, ◌≢◌, refl, Bool, true, false, Option, none, some, List, [], ◌∷◌, Text,
  same_iff, same_refl, arith, count_if, Bool-cases, inl, inr, All, subst,
}
use macula_mcp.Ring.{Verdict, incoming, RingRow, has_key}
use macula_mcp.Machine.{Db}
use macula_mcp.Dossier.Counts.{rows_of, rows_of-update_where, count_if-le-rows_of}
use macula_mcp.Dossier.Once.{IsConsistent, set_claim-IsKeeping}
use macula_mcp.Dossier.{
  update_where, Claim, claimed, claim_deferred_ring, awaits_claim, set_claim, holds_claim,
  answer_claimed_ring, claim_ttl_ms,
}

-- Every row of the ring is unanswered and held under the token since `at`.
abbrev IsHeld : Text → Text → ℕ → RingRow → Type 0
IsHeld id token at r =
    has_key id incoming r ≡ true
    → (r.claim ≡ some token) × (r.claimed_at ≡ some at) × (r.answer ≡ none)

module _ (id token : Text) (at : ℕ) where
  none-IsHeld : (rows : List RingRow) → rows_of id incoming rows ≡ 0 → All (IsHeld id token at) rows
  none-IsHeld [] h = tt
  none-IsHeld (r ∷ rows) h = ((λ k. ground arith), none-IsHeld rows (ground arith))

  none_set :
      (stale : ℕ) (rows : List RingRow)
      → rows_of id incoming rows ≡ 0
      → All (IsHeld id token at) (update_where (awaits_claim id stale) (set_claim token at) rows)
  none_set stale rows h = none-IsHeld _ (
      rw
        (rows_of-update_where (awaits_claim id stale) (set_claim token at)
          (set_claim-IsKeeping token at) id incoming rows)
        h)

  -- Claiming the one row of a ring holds it.
  set_claim-IsHeld :
      (stale : ℕ) (rows : List RingRow)
      → rows_of id incoming rows ≤ 1
      → 0 < count_if (awaits_claim id stale) rows
      → All (IsHeld id token at) (update_where (awaits_claim id stale) (set_claim token at) rows)
  set_claim-IsHeld stale [] u h = tt
  set_claim-IsHeld stale (r ∷ rows) u h = elim (Bool-cases (awaits_claim id stale r)) [
    | inl hit ↦ (ground arith, none_set stale rows (ground arith))
    | inr miss ↦ (
      ground (
        arith,
        count_if-le-rows_of (awaits_claim id stale) id incoming (λ x p. ground arith) rows,
      ),
      set_claim-IsHeld stale rows (ground arith) (ground arith),
    )
  ]

  held_not_claimable :
      (stale : ℕ) (rows : List RingRow)
      → All (IsHeld id token at) rows
      → stale ≤ at
      → count_if (awaits_claim id stale) rows ≡ 0
  held_not_claimable stale [] a h = refl
  held_not_claimable stale (r ∷ rows) a h = ground (arith, a.0, held_not_claimable stale rows a.1 h)

  held_by_one :
      (other : Text) (rows : List RingRow)
      → All (IsHeld id token at) rows
      → other ≢ token
      → count_if (holds_claim id other) rows ≡ 0
  held_by_one other [] a h = refl
  held_by_one other (r ∷ rows) a h =
      ground (arith, a.0, same_iff token other, held_by_one other rows a.1 h)

  held_by_token :
      (rows : List RingRow)
      → All (IsHeld id token at) rows
      → count_if (holds_claim id token) rows ≡ rows_of id incoming rows
  held_by_token [] a = refl
  held_by_token (r ∷ rows) a = ground (arith, a.0, same_refl token, held_by_token rows a.1)

abbrev pub is_claimed : Claim → Bool
is_claimed (claimed row token) = true
is_claimed _ = false

-- While every row of the ring is held.
module _ (id token : Text) (at : ℕ) (db : Db) (held : All (IsHeld id token at) db.rings) where
  held_refuses_claim :
      (rival other : Text) (later now : ℕ)
      → later ≤ at + claim_ttl_ms
      → ((claim_deferred_ring id rival later now other db).0 ≡ db)
        × (is_claimed (claim_deferred_ring id rival later now other db).1 ≡ false)
  unfolding claim_deferred_ring
  held_refuses_claim rival other later now h =
      ground
        (arith, held_not_claimable id token at (later - claim_ttl_ms) db.rings held (omega arith))

  held_refuses_answer :
      (other : Text) (v : Verdict) (reason : Option Text) (now : ℕ)
      → other ≢ token
      → answer_claimed_ring id other v reason now db ≡ (db, false)
  unfolding answer_claimed_ring
  held_refuses_answer other v reason now h =
      ground (arith, held_by_one id token at other db.rings held h)

  held_answers :
      (v : Verdict) (reason : Option Text) (now : ℕ)
      → 0 < rows_of id incoming db.rings
      → (answer_claimed_ring id token v reason now db).1 ≡ true
  unfolding answer_claimed_ring
  held_answers v reason now h = ground (arith, held_by_token id token at db.rings held)

-- What a successful claim did to the file.
claim_shape :
    (id self token : Text) (started at : ℕ) (db db' : Db) (row : RingRow)
    → claim_deferred_ring id self started at token db ≡ (db', claimed row token)
    → (0 < count_if (awaits_claim id (started - claim_ttl_ms)) db.rings)
      × (update_where (awaits_claim id (started - claim_ttl_ms)) (set_claim token at) db.rings
          ≡ db'.rings)
unfolding claim_deferred_ring
claim_shape id self token started at db db' row e = ground arith

claim-IsHeld :
    (id self token : Text) (started at : ℕ) (db db' : Db) (row : RingRow)
    → IsConsistent db
    → claim_deferred_ring id self started at token db ≡ (db', claimed row token)
    → All (IsHeld id token at) db'.rings × (0 < rows_of id incoming db'.rings)
claim-IsHeld id self token started at db db' row c e =
    let stale : ℕ = started - claim_ttl_ms in
    let (some_row, after) = claim_shape id self token started at db db' row e in
    let there : 0
        < rows_of id incoming (update_where (awaits_claim id stale) (set_claim token at) db.rings) =
      rw
        (rows_of-update_where (awaits_claim id stale) (set_claim token at)
          (set_claim-IsKeeping token at) id incoming db.rings)
        (omega (
          arith,
          some_row,
          count_if-le-rows_of (awaits_claim id stale) id incoming (λ x p. ground arith) db.rings,
        )) in
    (
      subst (All (IsHeld id token at)) after
          (set_claim-IsHeld id token at stale db.rings (c.unique id incoming) some_row),
      subst (λ rows. 0 < rows_of id incoming rows) after there,
    )

-- On a consistent file, after a claim has been granted: for as long as the claim is at most
-- CLAIM_TTL_MS old no other claim of the ring is granted, by any identity, and the file stays as
-- it is; an answer under another token changes nothing; and an answer under the claim's token is
-- recorded.
pub claim_lease :
    (id self token : Text) (started at : ℕ) (db db' : Db) (row : RingRow) (rival other : Text)
    (later now : ℕ) (v : Verdict) (reason : Option Text)
    → IsConsistent db
    → claim_deferred_ring id self started at token db ≡ (db', claimed row token)
    → later ≤ at + claim_ttl_ms
    → other ≢ token
    → ((claim_deferred_ring id rival later now other db').0 ≡ db')
      × (is_claimed (claim_deferred_ring id rival later now other db').1 ≡ false)
      × (answer_claimed_ring id other v reason now db' ≡ (db', false))
      × ((answer_claimed_ring id token v reason now db').1 ≡ true)
claim_lease id self token started at db db' row rival other later now v reason c e young differs =
    let (held, there) = claim-IsHeld id self token started at db db' row c e in
    let (unchanged, refused) =
      held_refuses_claim id token at db' held rival other later now young in
    (
      unchanged,
      refused,
      held_refuses_answer id token at db' held other v reason now differs,
      held_answers id token at db' held v reason now there,
    )
