-- ===== src/Tests/Observers.antt =====
-- Tests of the observer of the lobby and of the transcript.
use macula_mcp.Base.{
  ◌≡◌, refl, true, false, ◌&&◌, none, List, [], ◌∷◌, Text, codes, map, keep, take, same, ltb,
}
use macula_mcp.Json.{text, obj, field, end}
use macula_mcp.RoomWait.{facts_limit, facts_after, last_fact_id}
use macula_mcp.Transcript.{
  Transcript, Arrival, Write, records, loses, prunes, as_fact, lost_on, write_all,
}
use macula_mcp.Transcript.Once.{is_sound}
use macula_mcp.Transcript.Ids.{Survive, is_up_to, write_all-is_sound}
use macula_mcp.Transcript.Since.{facts_after-since}
use macula_mcp.Observer.{Sub, Observer, tap, already_tapped, tap_throws}
use macula_mcp.Observer.Run.{
  untap_room, Event, starts, central_lands, taps, lands, stops, ends, discards, feed_ends,
  others_lose, run, fresh, status,
}
use macula_mcp.Observer.Cap.{is_capped, run-is_capped}

abbrev blank : Transcript
blank = record { facts = []; last_id = 0; losses = [] }

abbrev room : Text
room = codes "agents.room.0123456789abcdef0123456789abcdef"

-- A room is tapped, loses two events, is stopped and looked at for the last time; a third is lost
-- while the stop is awaited, and another process records three.
abbrev losing : List Event
losing =
    starts none
    ∷ central_lands true
    ∷ taps room
    ∷ lands 0 true
    ∷ discards 1
    ∷ discards 1
    ∷ stops true
    ∷ ends true 1
    ∷ discards 1
    ∷ feed_ends 1
    ∷ others_lose (record { topic = room; lost = 3 })
    ∷ []

five_are_on_file : lost_on room (run losing (fresh blank)).transcript ≡ 5
unfolding lost_on run macula_mcp.Observer.Run.step macula_mcp.Observer.Run.discard
    macula_mcp.Observer.Run.end_next macula_mcp.Observer.Run.stop macula_mcp.Observer.Run.subscribed
    tap macula_mcp.Observer.central_subscribed macula_mcp.Observer.start macula_mcp.Observer.add_sub
    macula_mcp.Observer.end_sub macula_mcp.Observer.close_sub macula_mcp.Observer.dropped_events
    macula_mcp.Transcript.record_loss same
five_are_on_file = refl

run-is_capped_example : is_capped (run losing (fresh blank)).state ≡ true
run-is_capped_example = run-is_capped losing (fresh blank) refl

-- A tap of a room whose subscription is in flight does not throw, and the room is not tapped once
-- that subscription fails.
abbrev in_flight : Observer
in_flight = run (starts none ∷ central_lands true ∷ taps room ∷ []) (fresh blank)

second_tap_passes : tap_throws (tap room false in_flight).1 false ≡ false
unfolding tap run macula_mcp.Observer.Run.step macula_mcp.Observer.central_subscribed
    macula_mcp.Observer.start macula_mcp.Observer.add_sub same
second_tap_passes = refl

and_is_lost : (status (run (taps room ∷ lands 0 false ∷ []) in_flight)).room_topics ≡ []
unfolding status run macula_mcp.Observer.Run.step macula_mcp.Observer.Run.subscribed tap
    macula_mcp.Observer.central_subscribed macula_mcp.Observer.start macula_mcp.Observer.add_sub
    same
and_is_lost = refl

-- A stop whose last look cannot be written ends nothing, and leaves no state to end it by.
abbrev failing : List Event
failing = starts none ∷ central_lands true ∷ discards 0 ∷ stops false ∷ []

left_open : map (λ (s : Sub). s.is_open) (run failing (fresh blank)).subs ≡ true ∷ []
unfolding run macula_mcp.Observer.Run.step macula_mcp.Observer.Run.discard
    macula_mcp.Observer.Run.stop macula_mcp.Observer.central_subscribed macula_mcp.Observer.start
    macula_mcp.Observer.add_sub
left_open = refl

not_active_any_more : (status (run failing (fresh blank))).active ≡ false
unfolding status run macula_mcp.Observer.Run.step macula_mcp.Observer.Run.discard
    macula_mcp.Observer.Run.stop macula_mcp.Observer.central_subscribed macula_mcp.Observer.start
    macula_mcp.Observer.add_sub
not_active_any_more = refl

abbrev message : Text → Arrival
message id = record {
  topic = room;
  payload = obj (field (codes "message_id") (text id) end);
  at = 5;
  publisher = none;
}

-- Two sessions hear one message, a third hears another, and old rows are pruned.
abbrev heard : List Write
heard =
    records (message (codes "m1"))
    ∷ records (message (codes "m1"))
    ∷ loses (record { topic = room; lost = 1 })
    ∷ records (message (codes "m2"))
    ∷ prunes 3
    ∷ []

abbrev one_heard : Transcript
one_heard = write_all (records (message (codes "m1")) ∷ []) blank

write_all-is_sound_example :
    (is_sound (write_all heard one_heard) ≡ true)
    × Survive (keep (is_up_to one_heard.last_id) (write_all heard one_heard).facts) one_heard.facts
unfolding write_all macula_mcp.Transcript.apply_write macula_mcp.Transcript.record_fact
    macula_mcp.Transcript.fact_of
write_all-is_sound_example = write_all-is_sound heard one_heard refl

facts_after-since_example :
    facts_after room (last_fact_id room (map as_fact (write_all heard blank).facts)) (
      map as_fact
        (write_all (records (message (codes "m3")) ∷ heard) (write_all heard blank)).facts)
    ≡ take facts_limit (
        map as_fact (
          keep
            (λ f. same f.topic room && ltb (write_all heard blank).last_id f.id)
            (write_all (records (message (codes "m3")) ∷ heard) (write_all heard blank)).facts))
facts_after-since_example =
    facts_after-since room (records (message (codes "m3")) ∷ heard) (write_all heard blank)
      (write_all-is_sound heard blank refl).0
