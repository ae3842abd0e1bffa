-- ===== src/Threads/Walk.antt =====
-- src/envelope.ts: the walk of threadEnvelopes to a message's root.
use macula_mcp.Base.{
  ℕ, ◌+◌, ◌≡◌, ◌∙◌, ◌≤◌, ◌<◌, refl, Bool, false, not, none, some, List, [], ◌∷◌, Text, same,
  same_refl, any, length, suc, zero, arith, count_if, All, ap₂, Option-cases, inl, inr, ◌⊎◌,
}
use macula_mcp.Envelope.{Envelope}
use macula_mcp.Threads.{
  Row, ParsedRow, ObservedEnvelope, parse_rows, by_id, Turn, stops, goes_on, turn, resolve,
  observed, thread_row, thread_rows, thread_envelopes,
}

-- A message of the page that the walk has not seen.
abbrev is_unseen : List Text → ParsedRow → Bool
is_unseen seen p = not (any (same p.env.message_id) seen)

abbrev unseen : List Text → List ParsedRow → ℕ
unseen seen page = count_if (is_unseen seen) page

unseen-le :
    (id : Text) (seen : List Text) (page : List ParsedRow)
    → unseen (id ∷ seen) page ≤ unseen seen page
unseen-le id seen [] = omega arith
unseen-le id seen (p ∷ ps) = ground (arith, unseen-le id seen ps)

-- A turn that goes on has found a message that was not seen.
unseen-by_id :
    (target : Text) (e : Envelope) (seen : List Text) (page : List ParsedRow)
    → by_id target page ≡ some e
    → any (same e.message_id) seen ≡ false
    → unseen (e.message_id ∷ seen) page < unseen seen page
unfolding by_id
unseen-by_id target e seen [] h new = cc
unseen-by_id target e seen (p ∷ ps) h new = elim (Option-cases (by_id target ps)) [
  | inr (later, found) ↦
      ground (arith, found, unseen-by_id target e seen ps, unseen-le e.message_id seen ps)
  | inl none_later ↦
      ground (arith, none_later, unseen-le e.message_id seen ps, same_refl e.message_id)
]

Turn-cases : (t : Turn) → ((r : Text) × (t ≡ stops r)) ⊎ ((e : Envelope) × (t ≡ goes_on e))
Turn-cases (stops r) = inl (r, refl)
Turn-cases (goes_on e) = inr (e, refl)

turn-goes_on :
    (page : List ParsedRow) (seen : List Text) (target : Text) (e : Envelope)
    → turn page seen target ≡ goes_on e
    → (by_id target page ≡ some e) × (any (same e.message_id) seen ≡ false)
turn-goes_on page seen target e h = ground arith

module _ (fuel : ℕ) (page : List ParsedRow) (cur : Envelope) (seen : List Text) (depth : ℕ) where
  resolve_root :
      cur.in_reply_to ≡ none → resolve (suc fuel) page cur seen depth ≡ some (cur.message_id, depth)
  unfolding resolve
  resolve_root h = ground (arith, h)

  resolve_stops :
      (target r : Text)
      → cur.in_reply_to ≡ some target
      → turn page seen target ≡ stops r
      → resolve (suc fuel) page cur seen depth ≡ some (r, suc depth)
  unfolding resolve
  resolve_stops target r h t = ground (arith, h, t)

  resolve_goes_on :
      (target : Text) (parent : Envelope)
      → cur.in_reply_to ≡ some target
      → turn page seen target ≡ goes_on parent
      → resolve (suc fuel) page cur seen depth
        ≡ resolve fuel page parent (parent.message_id ∷ seen) (suc depth)
  unfolding resolve
  resolve_goes_on target parent h t = ground (arith, h, t)

-- Enough fuel: more than there are messages that the walk has not seen.
resolve-ends :
    (fuel : ℕ) (page : List ParsedRow) (cur : Envelope) (seen : List Text) (depth : ℕ)
    → unseen seen page < fuel
    → (root : Text) × (d : ℕ) × (resolve fuel page cur seen depth ≡ some (root, d))
      × (d ≤ depth + unseen seen page + 1)
resolve-ends zero page cur seen depth h = absurd (omega arith)
resolve-ends (suc fuel) page cur seen depth h = elim (Option-cases cur.in_reply_to) [
  | inl root ↦ (cur.message_id, depth, resolve_root fuel page cur seen depth root, omega arith)
  | inr (target, reply) ↦ elim (Turn-cases (turn page seen target)) [
    | inl (r, e) ↦
        (r, suc depth, resolve_stops fuel page cur seen depth target r reply e, omega arith)
    | inr (parent, e) ↦
        let (found, new) = turn-goes_on page seen target parent e in
        let fewer = unseen-by_id target parent seen page found new in
        let (r, d, ends, short) =
          resolve-ends fuel page parent (parent.message_id ∷ seen) (suc depth)
            (omega (arith, h, fewer)) in
        (
          r,
          d,
          resolve_goes_on fuel page cur seen depth target parent reply e ∙ ends,
          omega (arith, short, fewer),
        )
  ]
]

count_if-le-length : (p : ParsedRow → Bool) (page : List ParsedRow) → count_if p page ≤ length page
count_if-le-length p [] = omega arith
count_if-le-length p (x ∷ xs) = ground (arith, count_if-le-length p xs)

thread_row_found :
    (page : List ParsedRow) (p : ParsedRow) (f : Text × ℕ)
    → resolve (suc (length page)) page p.env (p.env.message_id ∷ []) 0 ≡ some f
    → thread_row page p ≡ some (observed p f)
thread_row_found page p f h = ground (arith, h)

thread_rows_cons :
    (page : List ParsedRow) (p : ParsedRow) (ps : List ParsedRow) (m : ObservedEnvelope)
    (ms : List ObservedEnvelope)
    → thread_row page p ≡ some m
    → thread_rows page ps ≡ some ms
    → thread_rows page (p ∷ ps) ≡ some (m ∷ ms)
unfolding thread_rows
thread_rows_cons page p ps m ms one rest = ground (arith, one, rest)

thread_row-ends :
    (page : List ParsedRow) (p : ParsedRow)
    → (m : ObservedEnvelope) × (thread_row page p ≡ some m)
      × (m.envelope ≡ p.env)
      × (m.depth ≤ length page + 1)
thread_row-ends page p =
    let few = count_if-le-length (is_unseen (p.env.message_id ∷ [])) page in
    let (root, d, ends, short) =
      resolve-ends (suc (length page)) page p.env (p.env.message_id ∷ []) 0 (omega (arith, few)) in
    (observed p (root, d), thread_row_found page p (root, d) ends, refl, omega (arith, short, few))

-- The envelopes of rows, in their order.
abbrev pub envelopes_of : List ParsedRow → List Envelope
envelopes_of [] = []
envelopes_of (p ∷ ps) = p.env ∷ envelopes_of ps

abbrev pub threaded : List ObservedEnvelope → List Envelope
threaded [] = []
threaded (m ∷ ms) = m.envelope ∷ threaded ms

abbrev pub IsShallow : ℕ → ObservedEnvelope → Type 0
IsShallow n m = m.depth ≤ n

thread_rows-ends :
    (page rows : List ParsedRow)
    → (ms : List ObservedEnvelope) × (thread_rows page rows ≡ some ms)
      × (threaded ms ≡ envelopes_of rows)
      × All (IsShallow (length page + 1)) ms
unfolding thread_rows
thread_rows-ends page [] = ([], refl, refl, tt)
thread_rows-ends page (p ∷ ps) =
    let (m, one, same_env, shallow) = thread_row-ends page p in
    let (ms, rest, same_rest, all_shallow) = thread_rows-ends page ps in
    (
      m ∷ ms,
      thread_rows_cons page p ps m ms one rest,
      ap₂ (λ x y. x ∷ y) same_env same_rest,
      (shallow, all_shallow),
    )

parse_rows-counts :
    (rows : List Row) → length (parse_rows rows).0 + (parse_rows rows).1 ≡ length rows
unfolding parse_rows
parse_rows-counts [] = refl
parse_rows-counts (row ∷ rows) = ground (arith, parse_rows-counts rows)

-- Threading ends on every page, cycles of replies included. Its messages are the envelopes of the
-- page, each once and in the order of their arrival; no depth is above one more than their number;
-- and every row of the page is a message or counted as unparsed.
pub thread_envelopes-ends :
    (rows : List Row)
    → (ms : List ObservedEnvelope) × ((thread_envelopes rows).0 ≡ some ms)
      × (threaded ms ≡ envelopes_of (parse_rows rows).0)
      × All (IsShallow (length (parse_rows rows).0 + 1)) ms
      × (length ms + (thread_envelopes rows).1 ≡ length rows)
unfolding thread_envelopes
thread_envelopes-ends rows =
    let page = (parse_rows rows).0 in
    let (ms, ends, same_all, shallow) = thread_rows-ends page page in
    (
      ms,
      ends,
      same_all,
      shallow,
      omega (arith, length_threaded ms page same_all, parse_rows-counts rows),
    )
  where
    length_threaded :
        (ms : List ObservedEnvelope) (ps : List ParsedRow)
        → threaded ms ≡ envelopes_of ps
        → length ms ≡ length ps
    length_threaded [] [] h = refl
    length_threaded [] (p ∷ ps) h = cc
    length_threaded (m ∷ ms) [] h = cc
    length_threaded (m ∷ ms) (p ∷ ps) h = ground (arith, length_threaded ms ps)
