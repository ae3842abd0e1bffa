-- ===== src/Transcript.antt =====
-- src/converse_in_rooms/lobby_transcript.ts: the file of observed facts and of losses that all
-- processes of a machine share. A row keeps its payload as the value that raw_json holds. Opening
-- the file, its pragmas and the listing of topics are left out.
pub mod Once
pub mod Ids
pub mod Since
use macula_mcp.Base.{
  ℕ, ◌+◌, ◌≡◌, Bool, true, false, not, ◌&&◌, ◌||◌, Option, none, some, List, [], ◌∷◌, ◌++◌, map,
  reverse, Text, codes, same, any, keep, take, length, ltb, get_or, if◌then◌else◌,
}
use macula_mcp.Json.{Value, get, as_text}
use macula_mcp.Realm.Replies.{fields_of}
use macula_mcp.RoomWait.{Fact}

pub record ObservedFact : Type 0 where
  pub id : ℕ
  pub topic : Text
  pub sender : Option Text
  pub text : Option Text
  pub payload : Value
  pub observed_at : ℕ
  pub publisher : Option Text
  pub message_id : Option Text

pub record FeedLoss : Type 0 where
  pub topic : Text
  pub lost : ℕ

-- Rows in the order of their ids; AUTOINCREMENT never gives one again.
pub record Transcript : Type 0 where
  pub facts : List ObservedFact
  pub last_id : ℕ
  pub losses : List FeedLoss

-- What recordFact is given.
pub record Arrival : Type 0 where
  pub topic : Text
  pub payload : Value
  pub at : ℕ
  pub publisher : Option Text

unfoldable pub message_id_of : Value → Option Text
message_id_of payload = as_text (get (codes "message_id") (fields_of payload))

abbrev pub shown_text : Text → Option Text → Text
shown_text [] purpose = get_or purpose []
shown_text (c ∷ s) purpose = c ∷ s

abbrev pub sender_and_text : Option Text → Option Text → Option Text → Option Text × Option Text
sender_and_text (some from) (some text) purpose = (some from, some (shown_text text purpose))
sender_and_text from text purpose = (none, none)

unfoldable pub extract_sender_text : Value → Option Text × Option Text
extract_sender_text payload =
    let p = fields_of payload in
    sender_and_text (as_text (get (codes "from") p)) (as_text (get (codes "text") p))
      (as_text (get (codes "purpose") p))

-- The unique index: rows with a message id, by topic and message id. A NULL is never a copy.
abbrev pub is_message : Text → Option Text → ObservedFact → Bool
is_message topic none f = false
is_message topic (some m) f = elim f.message_id [
  | none ↦ false
  | some m' ↦ same m' m && same f.topic topic
]

unfoldable pub fact_of : Arrival → ℕ → ObservedFact
fact_of a id = record {
  id = id;
  topic = a.topic;
  sender = (extract_sender_text a.payload).0;
  text = (extract_sender_text a.payload).1;
  payload = a.payload;
  observed_at = a.at;
  publisher = a.publisher;
  message_id = message_id_of a.payload;
}

-- recordFact: INSERT OR IGNORE.
unfoldable pub record_fact : Arrival → Transcript → Transcript
record_fact a t =
    if any (is_message a.topic (message_id_of a.payload)) t.facts
    then t
    else record t { facts = t.facts ++ fact_of a (t.last_id + 1) ∷ []; last_id = t.last_id + 1 }

unfoldable pub record_loss : FeedLoss → Transcript → Transcript
record_loss l t = record t { losses = t.losses ++ l ∷ [] }

abbrev pub sum_lost : Text → List FeedLoss → ℕ
sum_lost topic [] = 0
sum_lost topic (l ∷ ls) = (if same l.topic topic then l.lost else 0) + sum_lost topic ls

unfoldable pub lost_on : Text → Transcript → ℕ
lost_on topic t = sum_lost topic t.losses

unfoldable pub prune_old : ℕ → Transcript → Transcript
prune_old cutoff t = record t { facts = keep (λ f. not (ltb f.observed_at cutoff)) t.facts }

pub record TranscriptPage : Type 0 where
  pub total : ℕ
  pub facts : List ObservedFact

abbrev pub is_on : Option Text → ObservedFact → Bool
is_on (some (c ∷ topic)) f = same f.topic (c ∷ topic)
is_on topic f = true

unfoldable pub recent_facts : Option Text → ℕ → Transcript → TranscriptPage
recent_facts topic limit t =
    let rows = keep (is_on topic) t.facts in
    record { total = length rows; facts = reverse (take limit (reverse rows)) }

-- keepOneRowPerMessage, on a file whose rows have no message id yet: each gets that of its
-- payload, and of the rows of one message the first is kept.
abbrev pub backfilled : ObservedFact → ObservedFact
backfilled f = record f { message_id = message_id_of f.payload }

abbrev pub is_copy : List ObservedFact → ObservedFact → Bool
is_copy kept f = any (is_message f.topic f.message_id) kept

unfoldable pub first_rows : List ObservedFact → List ObservedFact → List ObservedFact
first_rows kept [] = kept
first_rows kept (f ∷ fs) = first_rows (if is_copy kept f then kept else kept ++ f ∷ []) fs

unfoldable pub keep_one_row_per_message : Transcript → Transcript
keep_one_row_per_message t = record t { facts = first_rows [] (map backfilled t.facts) }

-- What a wait in a room reads of a row.
abbrev pub as_fact : ObservedFact → Fact
as_fact f = record {
  id = f.id;
  topic = f.topic;
  payload = f.payload;
  observed_at = f.observed_at;
  publisher = f.publisher;
}

-- What the processes of the machine do with the file.
pub data Write : Type 0 where
  records : Arrival → Write
  loses : FeedLoss → Write
  prunes : (cutoff : ℕ) → Write

unfoldable pub apply_write : Write → Transcript → Transcript
apply_write (records a) t = record_fact a t
apply_write (loses l) t = record_loss l t
apply_write (prunes cutoff) t = prune_old cutoff t

unfoldable pub write_all : List Write → Transcript → Transcript
write_all [] t = t
write_all (w ∷ ws) t = write_all ws (apply_write w t)
