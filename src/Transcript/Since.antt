-- ===== src/Transcript/Since.antt =====
-- src/converse_in_rooms/lobby_transcript.ts: what a reader that starts at the last row of a topic
-- is given later.
use macula_mcp.Base.{
  all-keep, all-snoc, ℕ, ◌+◌, ◌≤◌, ◌≡◌, refl, Bool, true, not, ◌&&◌, ◌||◌, List, [], ◌∷◌, map, Text,
  same, all, any, keep, take, leb, ltb, arith, Bool-cases, inl, inr,
}
use macula_mcp.RoomWait.{facts_limit, facts_after, last_fact_id}
use macula_mcp.Transcript.{
  ObservedFact, Transcript, Arrival, message_id_of, is_message, fact_of, record_fact, record_loss,
  prune_old, as_fact, Write, records, loses, prunes, apply_write, write_all,
}
use macula_mcp.Transcript.Once.{is_sound}

last_fact_id-le :
    (topic : Text) (fs : List ObservedFact) (last : ℕ)
    → all (λ f. leb f.id last) fs ≡ true
    → last_fact_id topic (map as_fact fs) ≤ last
unfolding last_fact_id
last_fact_id-le topic [] last h = omega arith
last_fact_id-le topic (f ∷ fs) last h = ground (arith, last_fact_id-le topic fs last)

-- Read by the cursor, or written after row `last`.
abbrev is_read_or_new : Text → ℕ → ℕ → ObservedFact → Bool
is_read_or_new topic cursor last f = not (same f.topic topic) || (leb f.id cursor || ltb last f.id)

module _ (topic : Text) (last : ℕ) where
  read_by_then :
      (fs : List ObservedFact) (cursor : ℕ)
      → last_fact_id topic (map as_fact fs) ≤ cursor
      → all (is_read_or_new topic cursor last) fs ≡ true
  unfolding last_fact_id
  read_by_then [] cursor h = refl
  read_by_then (f ∷ fs) cursor h = elim (Bool-cases (same f.topic topic)) [
    | inl on ↦ ground (arith, read_by_then fs cursor)
    | inr off ↦ ground (arith, read_by_then fs cursor)
  ]

  module _ (cursor : ℕ) where
    abbrev IsSplit : Transcript → Type 0
    IsSplit t = (all (is_read_or_new topic cursor last) t.facts ≡ true) × (last ≤ t.last_id)

    record_fact-IsSplit : (a : Arrival) (t : Transcript) → IsSplit t → IsSplit (record_fact a t)
    unfolding record_fact fact_of
    record_fact-IsSplit a t (h, le) =
        elim (Bool-cases (any (is_message a.topic (message_id_of a.payload)) t.facts)) [
          | inl there ↦ rw there (h, le)
          | inr new ↦ rw new (
            ground (
              arith,
              all-snoc (is_read_or_new topic cursor last) t.facts (fact_of a (t.last_id + 1)),
            ),
            omega arith,
          )
        ]

    apply_write-IsSplit : (w : Write) (t : Transcript) → IsSplit t → IsSplit (apply_write w t)
    unfolding apply_write record_loss prune_old
    apply_write-IsSplit (records a) t h = record_fact-IsSplit a t h
    apply_write-IsSplit (loses l) t h = h
    apply_write-IsSplit (prunes cutoff) t (h, le) = (
      all-keep (is_read_or_new topic cursor last) (λ f. not (ltb f.observed_at cutoff)) t.facts h,
      le,
    )

    write_all-IsSplit : (ws : List Write) (t : Transcript) → IsSplit t → IsSplit (write_all ws t)
    unfolding write_all
    write_all-IsSplit [] t h = h
    write_all-IsSplit (w ∷ ws) t h =
        write_all-IsSplit ws (apply_write w t) (apply_write-IsSplit w t h)

    unread-is_new :
        (fs : List ObservedFact)
        → cursor ≤ last
        → all (is_read_or_new topic cursor last) fs ≡ true
        → keep (λ f. same f.topic topic && ltb cursor f.id) (map as_fact fs)
          ≡ map as_fact (keep (λ f. same f.topic topic && ltb last f.id) fs)
    unread-is_new [] le h = refl
    unread-is_new (f ∷ fs) le h = ground (arith, unread-is_new fs le)

-- A read from the last row of a topic gives, once each, in their order and up to the limit, exactly
-- the rows of that topic that any process has recorded since and that are not pruned, whatever is
-- recorded, lost and pruned in between.
pub facts_after-since :
    (topic : Text) (ws : List Write) (t : Transcript)
    → is_sound t ≡ true
    → facts_after topic
        (last_fact_id topic (map as_fact t.facts))
        (map as_fact (write_all ws t).facts)
      ≡ take facts_limit (
          map as_fact (keep (λ f. same f.topic topic && ltb t.last_id f.id) (write_all ws t).facts))
unfolding facts_after
facts_after-since topic ws t sound =
    let cursor = last_fact_id topic (map as_fact t.facts) in
    let bounded : all (λ f. leb f.id t.last_id) t.facts ≡ true = ground arith in
    let known = read_by_then topic t.last_id t.facts cursor (omega arith) in
    let split = write_all-IsSplit topic t.last_id cursor ws t (known, omega arith) in
    rw
      (unread-is_new topic t.last_id cursor (write_all ws t).facts
        (last_fact_id-le topic t.facts t.last_id bounded) split.0)
      refl
