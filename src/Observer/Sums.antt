-- ===== src/Observer/Sums.antt =====
-- src/dropped_events.ts: sums over the subscriptions of a process.
use macula_mcp.Base.{
  ℕ, zero, suc, ◌+◌, ◌-◌, ◌≡◌, refl, Bool, true, some, List, [], ◌∷◌, ◌++◌, Text, all, leb, same,
  arith, if◌then◌else◌,
}
use macula_mcp.Transcript.{FeedLoss, sum_lost}
use macula_mcp.Observer.{Sub, get_elem?, set}

-- What the subscriptions to a topic lost, what was seen of it, and what was lost since the last look.
abbrev pub lost_by : Text → List Sub → ℕ
lost_by topic [] = 0
lost_by topic (s ∷ ss) = (if same s.topic topic then s.lost else 0) + lost_by topic ss

abbrev pub seen_of : Text → Sub → ℕ
seen_of topic s = if same s.topic topic then s.seen else 0

abbrev pub seen_by : Text → List Sub → ℕ
seen_by topic [] = 0
seen_by topic (s ∷ ss) = seen_of topic s + seen_by topic ss

abbrev pub unseen_by : Text → List Sub → ℕ
unseen_by topic [] = 0
unseen_by topic (s ∷ ss) = (if same s.topic topic then s.lost - s.seen else 0) + unseen_by topic ss

-- Nothing is seen that was not lost.
abbrev pub is_settled : Sub → Bool
is_settled s = leb s.seen s.lost

pub sum_lost-snoc :
    (topic : Text) (ls : List FeedLoss) (l : FeedLoss)
    → sum_lost topic (ls ++ l ∷ []) ≡ sum_lost topic ls + (if same l.topic topic then l.lost else 0)
sum_lost-snoc topic [] l = omega arith
sum_lost-snoc topic (k ∷ ks) l = omega (arith, sum_lost-snoc topic ks l)

pub seen_by-snoc :
    (topic : Text) (ss : List Sub) (s : Sub)
    → seen_by topic (ss ++ s ∷ []) ≡ seen_by topic ss + seen_of topic s
seen_by-snoc topic [] s = omega arith
seen_by-snoc topic (x ∷ xs) s = omega (arith, seen_by-snoc topic xs s)

pub seen_by-set :
    (topic : Text) (ss : List Sub) (i : ℕ) (s v : Sub)
    → get_elem? ss i ≡ some s
    → seen_by topic (set ss i v) + seen_of topic s ≡ seen_by topic ss + seen_of topic v
seen_by-set topic [] i s v h = cc
seen_by-set topic (x ∷ xs) zero s v h = ground arith
seen_by-set topic (x ∷ xs) (suc i) s v h = omega (arith, seen_by-set topic xs i s v h)

pub all-set :
    (p : Sub → Bool) (ss : List Sub) (i : ℕ) (v : Sub)
    → all p ss ≡ true
    → p v ≡ true
    → all p (set ss i v) ≡ true
all-set p [] i v h hv = refl
all-set p (x ∷ xs) zero v h hv = ground arith
all-set p (x ∷ xs) (suc i) v h hv = ground (arith, all-set p xs i v)

pub all-get_elem? :
    (p : Sub → Bool) (ss : List Sub) (i : ℕ) (s : Sub)
    → all p ss ≡ true
    → get_elem? ss i ≡ some s
    → p s ≡ true
all-get_elem? p [] i s h e = cc
all-get_elem? p (x ∷ xs) zero s h e = ground arith
all-get_elem? p (x ∷ xs) (suc i) s h e = ground (arith, all-get_elem? p xs i s)

pub get_elem?-set_self :
    (ss : List Sub) (i : ℕ) (s v : Sub)
    → get_elem? ss i ≡ some s
    → get_elem? (set ss i v) i ≡ some v
get_elem?-set_self [] i s v e = cc
get_elem?-set_self (x ∷ xs) zero s v e = refl
get_elem?-set_self (x ∷ xs) (suc i) s v e = get_elem?-set_self xs i s v e

pub settled_balance :
    (topic : Text) (ss : List Sub)
    → all is_settled ss ≡ true
    → seen_by topic ss + unseen_by topic ss ≡ lost_by topic ss
settled_balance topic [] h = omega arith
settled_balance topic (s ∷ ss) h = ground (arith, settled_balance topic ss)
