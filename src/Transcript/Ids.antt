-- ===== src/Transcript/Ids.antt =====
-- src/converse_in_rooms/lobby_transcript.ts: which rows an id may come to name.
use macula_mcp.Base.{
  ℕ, ◌+◌, ◌≤◌, ◌≡◌, Bool, true, false, not, List, [], ◌∷◌, ◌++◌, any, keep, leb, ltb, arith,
  Bool-cases, inl, inr,
}
use macula_mcp.Transcript.{
  ObservedFact, Transcript, Arrival, message_id_of, is_message, fact_of, record_fact, record_loss,
  prune_old, Write, records, loses, prunes, apply_write, write_all,
}
use macula_mcp.Transcript.Once.{is_sound, apply_write-is_sound}

-- Rows of a list, in their order, as others are taken out.
pub data Survive : List ObservedFact → List ObservedFact → Type 0 where
  none_left : Survive [] []
  stays : {fs gs : List ObservedFact} (f : ObservedFact) → Survive fs gs → Survive (f ∷ fs) (f ∷ gs)
  goes : {fs gs : List ObservedFact} (f : ObservedFact) → Survive fs gs → Survive fs (f ∷ gs)

Survive-trans : {a b c : List ObservedFact} → Survive a b → Survive b c → Survive a c
Survive-trans g none_left = g
Survive-trans g (goes f h) = goes f (Survive-trans g h)
Survive-trans (stays f g) (stays _ h) = stays f (Survive-trans g h)
Survive-trans (goes f g) (stays _ h) = goes f (Survive-trans g h)

keep-Survive :
    (p q : ObservedFact → Bool) (fs : List ObservedFact) → Survive (keep p (keep q fs)) (keep p fs)
keep-Survive p q [] = none_left
keep-Survive p q (f ∷ fs) = elim (Bool-cases (q f)) [
  | inl stay ↦ elim (Bool-cases (p f)) [
    | inl old ↦ rw (stay, old) (stays f (keep-Survive p q fs))
    | inr new ↦ rw (stay, new) (keep-Survive p q fs)
  ]
  | inr go ↦ elim (Bool-cases (p f)) [
    | inl old ↦ rw (go, old) (goes f (keep-Survive p q fs))
    | inr new ↦ rw (go, new) (keep-Survive p q fs)
  ]
]

Survive-refl : (fs : List ObservedFact) → Survive fs fs
Survive-refl [] = none_left
Survive-refl (f ∷ fs) = stays f (Survive-refl fs)

Survive-keep : (p : ObservedFact → Bool) (fs : List ObservedFact) → Survive (keep p fs) fs
Survive-keep p [] = none_left
Survive-keep p (f ∷ fs) = elim (Bool-cases (p f)) [
  | inl old ↦ rw old (stays f (Survive-keep p fs))
  | inr new ↦ rw new (goes f (Survive-keep p fs))
]

keep-snoc :
    (p : ObservedFact → Bool) (fs : List ObservedFact) (f : ObservedFact)
    → p f ≡ false
    → keep p (fs ++ f ∷ []) ≡ keep p fs
keep-snoc p [] f h = ground arith
keep-snoc p (g ∷ gs) f h = ground (arith, keep-snoc p gs f)

abbrev pub is_up_to : ℕ → ObservedFact → Bool
is_up_to last f = leb f.id last

module _ (last : ℕ) where
  record_fact-Survive :
      (a : Arrival) (t : Transcript)
      → last ≤ t.last_id
      → Survive (keep (is_up_to last) (record_fact a t).facts) (keep (is_up_to last) t.facts)
  unfolding record_fact fact_of
  record_fact-Survive a t le =
      elim (Bool-cases (any (is_message a.topic (message_id_of a.payload)) t.facts)) [
        | inl there ↦ rw there (Survive-refl (keep (is_up_to last) t.facts))
        | inr new ↦
            rw
              (
                new,
                keep-snoc (is_up_to last) t.facts (fact_of a (t.last_id + 1)) (ground (arith, le)),
              )
              (Survive-refl (keep (is_up_to last) t.facts))
      ]

  apply_write-Survive :
      (w : Write) (t : Transcript)
      → last ≤ t.last_id
      → Survive (keep (is_up_to last) (apply_write w t).facts) (keep (is_up_to last) t.facts)
  unfolding apply_write record_loss prune_old
  apply_write-Survive (records a) t le = record_fact-Survive a t le
  apply_write-Survive (loses l) t le = Survive-refl (keep (is_up_to last) t.facts)
  apply_write-Survive (prunes cutoff) t le =
      keep-Survive (is_up_to last) (λ f. not (ltb f.observed_at cutoff)) t.facts

  apply_write-last_id :
      (w : Write) (t : Transcript) → last ≤ t.last_id → last ≤ (apply_write w t).last_id
  unfolding apply_write record_loss prune_old record_fact
  apply_write-last_id (records a) t le = ground (arith, le)
  apply_write-last_id (loses l) t le = le
  apply_write-last_id (prunes cutoff) t le = le

  write_all-Survive :
      (ws : List Write) (t : Transcript)
      → last ≤ t.last_id
      → Survive (keep (is_up_to last) (write_all ws t).facts) (keep (is_up_to last) t.facts)
  unfolding write_all
  write_all-Survive [] t le = Survive-refl (keep (is_up_to last) t.facts)
  write_all-Survive (w ∷ ws) t le =
      Survive-trans (write_all-Survive ws (apply_write w t) (apply_write-last_id w t le))
        (apply_write-Survive w t le)

sound_after :
    (ws : List Write) (t : Transcript) → is_sound t ≡ true → is_sound (write_all ws t) ≡ true
unfolding write_all
sound_after [] t h = h
sound_after (w ∷ ws) t h = sound_after ws (apply_write w t) (apply_write-is_sound w t h)

-- However many processes record what they hear, and whatever is pruned in between, a message
-- stands at most once under its topic, and ids rise in the order of arrival. No id is given again:
-- of the rows that are there later, those whose id is at most the last id given now are rows that
-- are there now, in their order.
pub write_all-is_sound :
    (ws : List Write) (t : Transcript)
    → is_sound t ≡ true
    → (is_sound (write_all ws t) ≡ true)
      × Survive (keep (is_up_to t.last_id) (write_all ws t).facts) t.facts
write_all-is_sound ws t h = (
  sound_after ws t h,
  Survive-trans (write_all-Survive t.last_id ws t (omega arith))
      (Survive-keep (is_up_to t.last_id) t.facts),
)
