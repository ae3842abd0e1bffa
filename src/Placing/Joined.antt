-- ===== src/Placing/Joined.antt =====
-- src/ring_agents/mesh_ring.ts: what a join wait saw.
use macula_mcp.Base.{
  ℕ, zero, suc, ◌≡◌, Bool, true, ◌&&◌, List, [], ◌∷◌, Text, any, same, ltb, take, keep, arith,
  Bool-cases, inl, inr,
}
use macula_mcp.RoomWait.{Fact, facts_after, facts_limit, last_id}
use macula_mcp.Placing.{says_join, wait_for_join}

abbrev pub is_join_in : Text → Text → Fact → Bool
is_join_in topic who f = same f.topic topic && says_join who f

any-take : (p : Fact → Bool) (n : ℕ) (fs : List Fact) → any p (take n fs) ≡ true → any p fs ≡ true
any-take p zero fs h = cc
any-take p (suc n) [] h = h
any-take p (suc n) (f ∷ fs) h = ground (arith, any-take p n fs)

any-keep :
    (topic who : Text) (after : ℕ) (fs : List Fact)
    → any (says_join who) (keep (λ f. same f.topic topic && ltb after f.id) fs) ≡ true
    → any (is_join_in topic who) fs ≡ true
any-keep topic who after [] h = h
any-keep topic who after (f ∷ fs) h = ground (arith, any-keep topic who after fs)

any-facts_after :
    (topic who : Text) (after : ℕ) (fs : List Fact)
    → any (says_join who) (facts_after topic after fs) ≡ true
    → any (is_join_in topic who) fs ≡ true
unfolding facts_after
any-facts_after topic who after fs h =
    any-keep topic who after fs
      (any-take (says_join who) facts_limit (keep (λ f. same f.topic topic && ltb after f.id) fs) h)

-- A join wait that reports a join has found, in the transcript at one of its polls, a fact of the
-- room that parses as a participant_joined from the callee.
pub wait_for_join_lem :
    (topic who : Text) (after : ℕ) (polls : List (List Fact))
    → wait_for_join topic who after polls ≡ true
    → any (any (is_join_in topic who)) polls ≡ true
unfolding wait_for_join
wait_for_join_lem topic who after [] h = h
wait_for_join_lem topic who after (facts ∷ polls) h =
    elim (Bool-cases (any (says_join who) (facts_after topic after facts))) [
      | inl seen ↦ ground (arith, any-facts_after topic who after facts seen)
      | inr unseen ↦
          ground (
            arith,
            wait_for_join_lem topic who (last_id after (facts_after topic after facts)) polls,
          )
    ]
