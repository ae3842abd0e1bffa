-- ===== src/NodeEvents/Cursor.antt =====
-- src/node_events.ts: the numbers of the entries, and reading the log in pages.
use macula_mcp.Base.{
  ℕ, zero, suc, ◌≤◌, ◌<◌, ◌≡◌, refl, some, List, [], ◌∷◌, ◌++◌, Text, to_lower_case, keep, take,
  arith, Bool-cases, inl, inr, length, length-take-le,
}
use macula_mcp.NodeEvents.{
  NodeEvent, EventLog, append_node_event, is_after, highest, read_node_events,
}

-- The numbers rise along the list, from above `lo`.
abbrev pub IsRising : ℕ → List NodeEvent → Type 0
IsRising lo [] = Unit {0}
IsRising lo (e ∷ es) = (lo < e.seq) × IsRising e.seq es

abbrev pub Below : ℕ → List NodeEvent → Type 0
Below hi [] = Unit {0}
Below hi (e ∷ es) = (e.seq < hi) × Below hi es

pub record IsOrdered (log : EventLog) : Type 0 where
  pub rising : IsRising 0 log.events
  pub below : Below log.next_seq log.events
  pub positive : 0 < log.next_seq

IsRising-append :
    (lo : ℕ) (es : List NodeEvent) (e : NodeEvent)
    → lo < e.seq
    → IsRising lo es
    → Below e.seq es
    → IsRising lo (es ++ e ∷ [])
IsRising-append lo [] e h r b = (h, tt)
IsRising-append lo (x ∷ es) e h r b = (r.0, IsRising-append x.seq es e b.0 r.1 b.1)

Below-append :
    (hi : ℕ) (es : List NodeEvent) (e : NodeEvent)
    → Below hi es
    → e.seq ≡ hi
    → Below (suc hi) (es ++ e ∷ [])
Below-append hi [] e b h = (omega arith, tt)
Below-append hi (x ∷ es) e b h = (omega arith, Below-append hi es e b.1 h)

-- Each appended entry gets a number above every entry's before it.
pub append_node_event-IsOrdered :
    (entry : NodeEvent) (log : EventLog) → IsOrdered log → IsOrdered (append_node_event entry log)
unfolding append_node_event
append_node_event-IsOrdered entry log o = record {
  rising = IsRising-append 0 log.events _ o.positive o.rising o.below;
  below = Below-append log.next_seq log.events _ o.below refl;
  positive = omega arith;
}

le-highest : (n : ℕ) (es : List NodeEvent) → n ≤ highest n es
le-highest n [] = omega arith
le-highest n (e ∷ es) = ground (arith, le-highest n es, le-highest e.seq es)

-- Behind a number that all the rest is above, an earlier cursor reads the same.
keep_after :
    (self : Text) (n s : ℕ) (es : List NodeEvent)
    → n ≤ s
    → IsRising s es
    → keep (is_after self n) es ≡ keep (is_after self s) es
keep_after self n s [] h r = refl
keep_after self n s (e ∷ es) h r = ground (
  arith,
  keep_after self n e.seq es (omega arith) r.1,
  keep_after self s e.seq es (omega arith) r.1,
)

-- What is read, and what is left behind the highest number read.
abbrev rows_read : Text → ℕ → ℕ → List NodeEvent → List NodeEvent
rows_read self n limit es = take limit (keep (is_after self n) es)

page :
    (self : Text) (lo n limit : ℕ) (es : List NodeEvent)
    → IsRising lo es
    → rows_read self n limit es ++ keep (is_after self (highest n (rows_read self n limit es))) es
      ≡ keep (is_after self n) es
page self lo n zero es r = refl
page self lo n (suc limit) [] r = refl
page self lo n (suc limit) (e ∷ es) r = elim (Bool-cases (is_after self n e)) [
  | inl new ↦ ground (
    arith,
    new,
    page self e.seq e.seq limit es r.1,
    keep_after self n e.seq es (ground arith) r.1,
    le-highest e.seq (take limit (keep (is_after self e.seq) es)),
  )
  | inr old ↦ ground (
    arith,
    old,
    page self e.seq n (suc limit) es r.1,
    le-highest n (take (suc limit) (keep (is_after self n) es)),
  )
]

-- On a log in order: reading `limit` entries after a cursor and then all entries after the cursor
-- that came back gives exactly the entries of this node after the first cursor, in order, so a
-- client that passes its cursor on misses none and sees none twice. No read is above its limit.
pub read_node_events-page :
    (log : EventLog) (self : Text) (n limit : ℕ)
    → IsOrdered log
    → let read = read_node_events log self (some n) limit in
      (read.events ++ keep (is_after (to_lower_case self) read.next_after_seq) log.events
        ≡ keep (is_after (to_lower_case self) n) log.events)
      × (length read.events ≤ limit)
unfolding read_node_events
read_node_events-page log self n limit o =
    (page (to_lower_case self) 0 n limit log.events o.rising, length-take-le limit _)
