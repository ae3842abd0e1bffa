-- ===== src/Dossier/Once.antt =====
-- src/ring_agents/ring_dossier.ts: consistency of the ring rows and the decided entries of the log.
use macula_mcp.Base.{
  ℕ, ◌+◌, ◌≤◌, ◌<◌, ◌≡◌, ◌≢◌, refl, ap, Bool, true, false, ◌&&◌, ◌∙◌, sym, Option, none, some, [],
  ◌∷◌, Text, same, arith, count_if, count_if-append, bit, All, same_iff, inl, inr, to_lower_case,
  Option-cases,
}
use macula_mcp.Ring.{
  Answer, Verdict, Direction, same_direction, RingRow, has_key, is_text, is_decided,
}
use macula_mcp.NodeEvents.{NodeEvent, EventLog, append_node_event, is_answered}
use macula_mcp.Machine.{Db}
use macula_mcp.Dossier.Counts.{
  rows_of, decided_rows, IsOwned, IsKeeping, rows_of-update_where, update_where-IsOwned,
  decided_rows_kept, decided_rows-update_where, count_if-le-rows_of, count_at_key, find_of_count,
  find-IsOwned,
}
use macula_mcp.Dossier.{
  update_where, attributed, answered_entry, log_answered, set_reason, set_answer, set_claim,
  set_verdict, clear_claim, Transition, places, receives,
}

abbrev pub is_direction : Option Direction → Direction → Bool
is_direction none dir = false
is_direction (some d) dir = same_direction d dir

-- A `ring_answered` entry with a final answer for the ring.
abbrev pub is_decision : Text → Direction → NodeEvent → Bool
is_decision id dir e =
    is_answered e.kind
    && is_text e.ring_id id
    && is_direction e.direction dir
    && is_decided e.answer

abbrev pub decisions : Text → Direction → Db → ℕ
decisions id dir db = count_if (is_decision id dir) db.log.events

pub record IsConsistent (db : Db) : Type 0 where
  -- (ring_id, direction) is the primary key
  pub unique : (id : Text) (dir : Direction) → rows_of id dir db.rings ≤ 1
  pub owned : All IsOwned db.rings
  pub logged : (id : Text) (dir : Direction) → decisions id dir db ≡ decided_rows id dir db.rings

-- The node of a seed is not empty.
abbrev pub IsNamed : Transition → Type 0
IsNamed (places seed at) = seed.self ≢ []
IsNamed (receives seed answer reason at) = seed.self ≢ []
IsNamed _ = Unit {0}

pub decisions-append :
    (j : Text) (e : Direction) (entry : NodeEvent) (log : EventLog)
    → count_if (is_decision j e) (append_node_event entry log).events
      ≡ count_if (is_decision j e) log.events + bit (is_decision j e entry)
unfolding append_node_event
decisions-append j e entry log = omega (
  arith,
  count_if-append (is_decision j e) log.events
      (record entry { seq = log.next_seq; self = to_lower_case entry.self } ∷ []),
)

-- What `log_answered` appends, when the row is there and has a node.
pub log_answered_lem :
    (id : Text) (dir : Direction) (a : Answer) (reason : Option Text) (at : ℕ) (db : Db)
    → All IsOwned db.rings
    → 0 < rows_of id dir db.rings
    → (j : Text) (e : Direction)
    → decisions j e (log_answered id dir a reason at db)
      ≡ decisions j e db + bit (same id j && same_direction dir e && is_decided (some a))
unfolding log_answered
log_answered_lem id dir a reason at db own h j e =
    let (r, found, keyed) = find_of_count (has_key id dir) db.rings h in
    elim (Option-cases (attributed r.self)) [
      | inl orphan ↦ absurd (find-IsOwned (has_key id dir) db.rings r own found orphan)
      | inr (self, owner) ↦
          rw (found, log_answered, owner)
            (ground (
              arith,
              keyed,
              same_iff r.ring_id id,
              decisions-append j e (answered_entry self r dir a reason at) db.log,
            ))
    ]

pub rings-log_answered :
    (id : Text) (dir : Direction) (a : Answer) (reason : Option Text) (at : ℕ) (db : Db)
    → (log_answered id dir a reason at db).rings ≡ db.rings
unfolding log_answered
rings-log_answered id dir a reason at db = ground arith

pub set_reason-IsKeeping : (reason : Option Text) → IsKeeping (set_reason reason)
set_reason-IsKeeping reason = record {
  ring_id = λ r. refl;
  direction = λ r. refl;
  self = λ r. refl;
}

pub set_claim-IsKeeping : (token : Text) (at : ℕ) → IsKeeping (set_claim token at)
set_claim-IsKeeping token at = record {
  ring_id = λ r. refl;
  direction = λ r. refl;
  self = λ r. refl;
}

pub clear_claim-IsKeeping : IsKeeping clear_claim
clear_claim-IsKeeping = record { ring_id = λ r. refl; direction = λ r. refl; self = λ r. refl }

pub set_answer-IsKeeping :
    (a : Answer) (reason : Option Text) (at : ℕ) → IsKeeping (set_answer a reason at)
set_answer-IsKeeping a reason at = record {
  ring_id = λ r. refl;
  direction = λ r. refl;
  self = λ r. refl;
}

pub set_verdict-IsKeeping :
    (v : Verdict) (reason : Option Text) (at : ℕ) → IsKeeping (set_verdict v reason at)
set_verdict-IsKeeping v reason at = record {
  ring_id = λ r. refl;
  direction = λ r. refl;
  self = λ r. refl;
}

-- An update that leaves the answers alone writes no entry.
pub update_where-IsConsistent :
    (db : Db) (p : RingRow → Bool) (f : RingRow → RingRow)
    → IsKeeping f
    → ((r : RingRow) → (f r).answer ≡ r.answer)
    → IsConsistent db
    → IsConsistent (record db { rings = update_where p f db.rings })
update_where-IsConsistent db p f k same_answer c = record {
  unique = λ id dir. rw (rows_of-update_where p f k id dir db.rings) (c.unique id dir);
  owned = update_where-IsOwned p f k db.rings c.owned;
  logged = λ id dir. c.logged id dir ∙ sym (decided_rows_kept p f k same_answer id dir db.rings);
}

-- An update that answers the one row of a key writes the entry of that answer.
pub answer-IsConsistent :
    (db : Db) (p : RingRow → Bool) (f : RingRow → RingRow) (id : Text) (dir : Direction)
    (a : Answer) (reason : Option Text) (at : ℕ)
    → IsKeeping f
    → ((r : RingRow) → p r ≡ true → has_key id dir r ≡ true)
    → ((r : RingRow) → p r ≡ true → is_decided r.answer ≡ false)
    → ((r : RingRow) → (f r).answer ≡ some a)
    → 0 < count_if p db.rings
    → IsConsistent db
    → IsConsistent
        (log_answered id dir a reason at (record db { rings = update_where p f db.rings }))
answer-IsConsistent db p f id dir a reason at k keyed before after h c = record {
  unique = λ j e.
      rw (rings-log_answered id dir a reason at next, rows_of-update_where p f k j e db.rings)
        (c.unique j e);
  owned = rw (rings-log_answered id dir a reason at next) owned;
  logged = λ j e. rw (rings-log_answered id dir a reason at next) (
      ground (
        arith,
        log_answered_lem id dir a reason at next owned there j e,
        c.logged j e,
        one,
        count_at_key p id dir keyed j e db.rings,
        decided_rows-update_where p f k (is_decided (some a)) before (λ r. ap is_decided (after r))
            j e db.rings,
      ));
}
  where
    next : Db
    next = record db { rings = update_where p f db.rings }

    owned : All IsOwned (update_where p f db.rings)
    owned = update_where-IsOwned p f k db.rings c.owned

    there : 0 < rows_of id dir (update_where p f db.rings)
    there =
        rw (rows_of-update_where p f k id dir db.rings)
          (omega (arith, h, count_if-le-rows_of p id dir keyed db.rings))

    one : count_if p db.rings ≡ 1
    one = omega (arith, h, count_if-le-rows_of p id dir keyed db.rings, c.unique id dir)
