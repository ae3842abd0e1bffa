-- ===== src/Transcript/Once.antt =====
-- src/converse_in_rooms/lobby_transcript.ts: how often a message stands in the file.
use macula_mcp.Base.{
  any-snoc, all-snoc, all-keep, ℕ, ◌+◌, ◌≡◌, refl, Bool, true, false, not, ◌&&◌, Option, none, some,
  List, [], ◌∷◌, ◌++◌, map, Text, same_iff, any, all, keep, leb, ltb, arith, if◌then◌else◌,
  Bool-cases, inl, inr, ◌⊎◌,
}
use macula_mcp.Transcript.{
  ObservedFact, Transcript, Arrival, message_id_of, is_message, fact_of, record_fact, record_loss,
  prune_old, backfilled, is_copy, first_rows, keep_one_row_per_message, Write, records, loses,
  prunes, apply_write,
}

abbrev pub is_copy_of : ObservedFact → ObservedFact → Bool
is_copy_of f g = is_message f.topic f.message_id g

-- No row is a copy of another, and ids rise up to `last`.
abbrev pub is_once : List ObservedFact → Bool
is_once [] = true
is_once (f ∷ fs) = not (any (is_copy_of f) fs) && is_once fs

abbrev pub is_rising : List ObservedFact → Bool
is_rising [] = true
is_rising (f ∷ fs) = all (λ g. ltb f.id g.id) fs && is_rising fs

abbrev pub is_sound : Transcript → Bool
is_sound t = is_once t.facts && (is_rising t.facts && all (λ f. leb f.id t.last_id) t.facts)

is_copy_of_comm : (f g : ObservedFact) → is_copy_of f g ≡ is_copy_of g f
is_copy_of_comm f g = copies f.message_id g.message_id
  where
    copies :
        (m n : Option Text)
        → is_message f.topic m (record g { message_id = n })
          ≡ is_message g.topic n (record f { message_id = m })
    copies none none = refl
    copies none (some n) = refl
    copies (some m) none = refl
    copies (some m) (some n) =
        ground
          (arith, same_iff n m, same_iff m n, same_iff f.topic g.topic, same_iff g.topic f.topic)

pub is_once-snoc :
    (xs : List ObservedFact) (x : ObservedFact)
    → is_once (xs ++ x ∷ []) ≡ is_once xs && not (any (is_copy_of x) xs)
is_once-snoc [] x = refl
is_once-snoc (y ∷ ys) x =
    ground (arith, is_once-snoc ys x, any-snoc (is_copy_of y) ys x, is_copy_of_comm x y)

is_rising-snoc :
    (xs : List ObservedFact) (x : ObservedFact) (last : ℕ)
    → is_rising xs ≡ true
    → all (λ f. leb f.id last) xs ≡ true
    → ltb last x.id ≡ true
    → is_rising (xs ++ x ∷ []) ≡ true
is_rising-snoc [] x last r b h = refl
is_rising-snoc (y ∷ ys) x last r b h =
    ground (arith, is_rising-snoc ys x last, all-snoc (λ g. ltb y.id g.id) ys x)

all_mono :
    (p q : ObservedFact → Bool) (xs : List ObservedFact)
    → ((x : ObservedFact) → p x ≡ true → q x ≡ true)
    → all p xs ≡ true
    → all q xs ≡ true
all_mono p q [] imp h = refl
all_mono p q (x ∷ xs) imp h = ground (arith, imp x, all_mono p q xs imp)

any-keep-none :
    (p q : ObservedFact → Bool) (xs : List ObservedFact)
    → any p xs ≡ false
    → any p (keep q xs) ≡ false
any-keep-none p q [] h = refl
any-keep-none p q (x ∷ xs) h = ground (arith, any-keep-none p q xs)

is_once-keep :
    (q : ObservedFact → Bool) (xs : List ObservedFact)
    → is_once xs ≡ true
    → is_once (keep q xs) ≡ true
is_once-keep q [] h = refl
is_once-keep q (x ∷ xs) h = ground (arith, is_once-keep q xs, any-keep-none (is_copy_of x) q xs)

is_rising-keep :
    (q : ObservedFact → Bool) (xs : List ObservedFact)
    → is_rising xs ≡ true
    → is_rising (keep q xs) ≡ true
is_rising-keep q [] h = refl
is_rising-keep q (x ∷ xs) h =
    ground (arith, is_rising-keep q xs, all-keep (λ g. ltb x.id g.id) q xs)

-- A row that is written is a copy of no row and has the highest id.
record_fact-is_sound :
    (a : Arrival) (t : Transcript) → is_sound t ≡ true → is_sound (record_fact a t) ≡ true
unfolding record_fact fact_of
record_fact-is_sound a t h =
    let row = fact_of a (t.last_id + 1) in
    ground (
      arith,
      is_once-snoc t.facts row,
      is_rising-snoc t.facts row t.last_id,
      all-snoc (λ f. leb f.id (t.last_id + 1)) t.facts row,
      all_mono (λ f. leb f.id t.last_id) (λ f. leb f.id (t.last_id + 1)) t.facts
          (λ f b. ground arith),
    )

prune_old-is_sound :
    (cutoff : ℕ) (t : Transcript) → is_sound t ≡ true → is_sound (prune_old cutoff t) ≡ true
unfolding prune_old
prune_old-is_sound cutoff t h = ground (
  arith,
  is_once-keep (λ f. not (ltb f.observed_at cutoff)) t.facts,
  is_rising-keep (λ f. not (ltb f.observed_at cutoff)) t.facts,
  all-keep (λ f. leb f.id t.last_id) (λ f. not (ltb f.observed_at cutoff)) t.facts,
)

pub apply_write-is_sound :
    (w : Write) (t : Transcript) → is_sound t ≡ true → is_sound (apply_write w t) ≡ true
unfolding apply_write record_loss
apply_write-is_sound (records a) t h = record_fact-is_sound a t h
apply_write-is_sound (loses l) t h = h
apply_write-is_sound (prunes cutoff) t h = prune_old-is_sound cutoff t h

-- An arrival without a message id, and one of a message that is not there, is recorded last; a
-- message that is there changes nothing, so the first row of a message wins.
pub record_fact-recorded :
    (a : Arrival) (t : Transcript)
    → (any (is_message a.topic (message_id_of a.payload)) t.facts ≡ true) × (record_fact a t ≡ t)
      ⊎ (any (is_message a.topic (message_id_of a.payload)) t.facts ≡ false)
        × ((record_fact a t).facts ≡ t.facts ++ fact_of a (t.last_id + 1) ∷ [])
unfolding record_fact
record_fact-recorded a t =
    elim (Bool-cases (any (is_message a.topic (message_id_of a.payload)) t.facts)) [
      | inl there ↦ inl (there, rw there refl)
      | inr new ↦ inr (new, rw new refl)
    ]

first_rows-is_once :
    (kept fs : List ObservedFact) → is_once kept ≡ true → is_once (first_rows kept fs) ≡ true
unfolding first_rows
first_rows-is_once kept [] h = h
first_rows-is_once kept (f ∷ fs) h =
    first_rows-is_once (if is_copy kept f then kept else kept ++ f ∷ []) fs
      (ground (arith, is_once-snoc kept f))

-- The migration leaves one row of each message, as the unique index that follows it wants.
keep_one_row_per_message-is_once :
    (t : Transcript) → is_once (keep_one_row_per_message t).facts ≡ true
unfolding keep_one_row_per_message
keep_one_row_per_message-is_once t = first_rows-is_once [] (map backfilled t.facts) refl
