-- ===== src/RoomWait.antt =====
-- src/converse_in_rooms/rooms.ts, waitForReply and the wait of waitRoom, on the reads of
-- lobby_transcript.ts. A transcript is its facts in the order of their ids; what it holds at each
-- poll before the deadline is a list. Counts of lost events are left out.
use macula_mcp.Base.{
  find-passes, ℕ, ◌≡◌, refl, Bool, true, not, ◌&&◌, Option, none, some, List, [], ◌∷◌, Text, same,
  keep, take, find, ltb, if◌then◌else◌, get_or, map, is_some, ◌⊎◌, inl, inr, Option-cases,
}
use macula_mcp.Json.{Value}
use macula_mcp.Threads.{Row, ObservedEnvelope, thread_envelopes}

-- The columns of ObservedFact that a wait reads; `payload` is its raw_json, parsed.
pub record Fact : Type 0 where
  pub id : ℕ
  pub topic : Text
  pub payload : Value
  pub observed_at : ℕ
  pub publisher : Option Text

-- The limit where the caller gives none.
abbrev pub facts_limit : ℕ
facts_limit = 200

unfoldable pub facts_after : Text → ℕ → List Fact → List Fact
facts_after topic after facts =
    take facts_limit (keep (λ f. same f.topic topic && ltb after f.id) facts)

unfoldable pub last_fact_id : Text → List Fact → ℕ
last_fact_id topic [] = 0
last_fact_id topic (f ∷ fs) =
    let later = last_fact_id topic fs in
    if same f.topic topic && ltb later f.id then f.id else later

abbrev pub last_id : ℕ → List Fact → ℕ
last_id after [] = after
last_id after (f ∷ fs) = last_id f.id fs

abbrev pub row_of : Fact → Row
row_of f = record {
  payload = f.payload;
  observed_at = f.observed_at;
  publisher = f.publisher;
  seq = some f.id;
}

-- The messages of a read; a threading that ran out of fuel would count as none.
abbrev pub messages_of : List Fact → List ObservedEnvelope
messages_of fresh = get_or (thread_envelopes (map row_of fresh)).0 []

abbrev pub is_reply : Text → ObservedEnvelope → Bool
is_reply me m = not (same m.envelope.from me) && m.attested

abbrev pub reply_in : Text → List Fact → Option ObservedEnvelope
reply_in me fresh = find (is_reply me) (messages_of fresh)

pub record WaitForReply : Type 0 where
  pub reply : Option ObservedEnvelope
  pub reached : ℕ

unfoldable pub wait_for_reply : Text → Text → ℕ → List (List Fact) → WaitForReply
wait_for_reply me topic after [] = record { reply = none; reached = after }
wait_for_reply me topic after (facts ∷ polls) =
    let fresh = facts_after topic after facts in
    let later = wait_for_reply me topic (last_id after fresh) polls in
    elim (reply_in me fresh) [
      | none ↦ later
      | some m ↦ record { reply = some m; reached = last_id after fresh }
    ]

pub record WaitRoomResult : Type 0 where
  pub reply : Option ObservedEnvelope
  pub timed_out : Bool
  pub next_after_seq : ℕ

abbrev pub seq_of : Option ObservedEnvelope → Option ℕ
seq_of none = none
seq_of (some m) = m.seq

abbrev pub room_result : WaitForReply → WaitRoomResult
room_result w = record {
  reply = w.reply;
  timed_out = not (is_some w.reply);
  next_after_seq = get_or (seq_of w.reply) w.reached;
}

-- `now` is the transcript when the wait begins.
unfoldable pub wait_room : Text → Text → Option ℕ → List Fact → List (List Fact) → WaitRoomResult
wait_room me topic after_seq now polls =
    room_result (wait_for_reply me topic (get_or after_seq (last_fact_id topic now)) polls)

-- Nothing was found, or an attested message of another sender.
abbrev pub IsReplyOrNone : Text → Option ObservedEnvelope → Type 0
IsReplyOrNone me reply =
    (reply ≡ none) ⊎ ((m : ObservedEnvelope) × (reply ≡ some m) × (is_reply me m ≡ true))

wait_for_reply_lem :
    (me topic : Text) (after : ℕ) (polls : List (List Fact))
    → IsReplyOrNone me (wait_for_reply me topic after polls).reply
unfolding wait_for_reply
wait_for_reply_lem me topic after [] = inl refl
wait_for_reply_lem me topic after (facts ∷ polls) =
    elim (Option-cases (reply_in me (facts_after topic after facts))) [
      | inl nothing ↦
          rw (nothing, wait_for_reply)
            (wait_for_reply_lem me topic (last_id after (facts_after topic after facts)) polls)
      | inr (m, found) ↦
          rw (found, wait_for_reply)
            (inr (
              m,
              refl,
              find-passes (is_reply me) (messages_of (facts_after topic after facts)) m found,
            ))
    ]

-- Behind a cursor: a wait that does not time out gives an attested message from another sender, and
-- one that does gives none; and a reply that the read of the first poll holds is the one given.
wait_room_lem :
    (me topic : Text) (after : ℕ) (now facts : List Fact) (polls : List (List Fact))
    → IsReplyOrNone me (wait_room me topic (some after) now (facts ∷ polls)).reply
      × ((wait_room me topic (some after) now (facts ∷ polls)).timed_out
          ≡ not (is_some (wait_room me topic (some after) now (facts ∷ polls)).reply))
      × ((reply_in me (facts_after topic after facts) ≡ none)
          ⊎ ((wait_room me topic (some after) now (facts ∷ polls)).reply
              ≡ reply_in me (facts_after topic after facts)))
unfolding wait_room wait_for_reply
wait_room_lem me topic after now facts polls = (
  wait_for_reply_lem me topic after (facts ∷ polls),
  refl,
  elim (Option-cases (reply_in me (facts_after topic after facts))) [
    | inl nothing ↦ inl nothing
    | inr (m, found) ↦ inr (rw (found, wait_for_reply) refl)
  ],
)
