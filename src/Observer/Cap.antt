-- ===== src/Observer/Cap.antt =====
-- src/converse_in_rooms/watch_lobby.ts: how many announced rooms the observer taps.
use macula_mcp.Base.{
  ℕ, ◌≤◌, ◌≡◌, refl, Bool, true, false, not, Option, none, some, List, [], ◌∷◌, ◌++◌, Text, keep,
  find, count_if, count_if-append, count_if-keep-le, length, leb, ◌==◌, arith, Option-cases, inl,
  inr,
}
use macula_mcp.Json.{Value}
use macula_mcp.Envelope.{parse_envelope}
use macula_mcp.Observer.{
  RoomTap, ObserverState, Observer, get_elem?, dropped_events, close_sub, end_sub, add_sub, start,
  raise_cap, raise_caps, started, central_subscribed, has_topic, public_taps, tap, announced_room,
  tap_announced, tap_public_room_if_new, heard_by, hear, arrived_on,
}
use macula_mcp.Transcript.{record_fact}
use macula_mcp.Observer.Run.{
  place_sub, change_taps, landed, subscribed, end_tap, found_tap, untap_room, subs_of, stop,
  end_next, live_sub, look_first, discard, is_flight, Event, starts, central_lands, hears, taps,
  untaps, lands, stops, ends, reads, discards, feed_ends, others_lose, step, run,
}

abbrev pub is_capped : Option ObserverState → Bool
is_capped none = true
is_capped (some s) = leb (public_taps s) s.max_rooms

pub dropped_events-state : (i : ℕ) (o : Observer) → (dropped_events i o).state ≡ o.state
unfolding dropped_events
dropped_events-state i o = ground arith

pub end_sub-state : (writes : Bool) (i : ℕ) (o : Observer) → (end_sub writes i o).state ≡ o.state
unfolding end_sub
end_sub-state true i o = dropped_events-state i o
end_sub-state false i o = refl

raise_caps-is_capped :
    (more : List (Option ℕ)) (s : ObserverState)
    → is_capped (some s) ≡ true
    → is_capped (some (raise_caps more s)) ≡ true
raise_caps-is_capped [] s h = h
raise_caps-is_capped (asked ∷ more) s h =
    raise_caps-is_capped more (raise_cap asked s) (ground arith)

tap-is_capped :
    (topic : Text) (o : Observer)
    → is_capped o.state ≡ true
    → is_capped (tap topic false o).0.state ≡ true
unfolding tap
tap-is_capped topic o h = elim (Option-cases o.state) [
  | inl off ↦ ground arith
  | inr (s, on) ↦ ground (
    arith,
    count_if-append (λ (t : RoomTap). t.is_public) s.taps
        (record { id = o.next_tap; topic = topic; is_public = false; sub = none } ∷ []),
  )
]

tap_announced-is_capped :
    (topic : Text) (s : ObserverState) (o : Observer)
    → o.state ≡ some s
    → is_capped (some s) ≡ true
    → is_capped (tap_announced topic s o).state ≡ true
unfolding tap
tap_announced-is_capped topic s o on h = ground (
  arith,
  count_if-append (λ (t : RoomTap). t.is_public) s.taps
      (record { id = o.next_tap; topic = topic; is_public = true; sub = none } ∷ []),
)

tap_public_room_if_new-is_capped :
    (payload : Value) (o : Observer)
    → is_capped o.state ≡ true
    → is_capped (tap_public_room_if_new payload o).state ≡ true
unfolding tap_public_room_if_new
tap_public_room_if_new-is_capped payload o h = elim (Option-cases o.state) [
  | inl off ↦ ground arith
  | inr (s, on) ↦ elim (Option-cases (announced_room (parse_envelope payload))) [
    | inl nothing ↦ ground arith
    | inr (topic, e) ↦ ground (arith, tap_announced-is_capped topic s o)
  ]
]

place_sub-public :
    (id i : ℕ) (ts : List RoomTap)
    → count_if (λ t. t.is_public) (place_sub id i ts) ≡ count_if (λ t. t.is_public) ts
place_sub-public id i [] = refl
place_sub-public id i (t ∷ ts) = ground (arith, place_sub-public id i ts)

change_taps-is_capped :
    (f : List RoomTap → List RoomTap) (s : Option ObserverState)
    → ((ts : List RoomTap) → count_if (λ t. t.is_public) (f ts) ≤ count_if (λ t. t.is_public) ts)
    → is_capped s ≡ true
    → is_capped (change_taps f s) ≡ true
change_taps-is_capped f none fewer h = refl
change_taps-is_capped f (some s) fewer h = ground (arith, fewer s.taps)

landed-is_capped :
    (id : ℕ) (topic : Text) (ok : Bool) (o : Observer)
    → is_capped o.state ≡ true
    → is_capped (landed id topic ok o).state ≡ true
unfolding add_sub
landed-is_capped id topic true o h = ground (
  arith,
  change_taps-is_capped (place_sub id (length o.subs)) o.state
      (λ ts. omega (arith, place_sub-public id (length o.subs) ts)),
  end_sub-state true (length o.subs) (add_sub topic o),
)
landed-is_capped id topic false o h =
    change_taps-is_capped (keep (λ t. not (t.id == id))) o.state
      (λ ts. count_if-keep-le (λ t. t.is_public) (λ t. not (t.id == id)) ts) h

hear-is_capped :
    (i : ℕ) (payload : Value) (at : ℕ) (publisher : Option Text) (o : Observer)
    → is_capped o.state ≡ true
    → is_capped (hear i payload at publisher o).state ≡ true
unfolding hear
hear-is_capped i payload at publisher o h = elim (Option-cases (get_elem? o.subs i)) [
  | inl away ↦ ground arith
  | inr (s, there) ↦ ground (
    arith,
    dropped_events-state i (heard_by s.topic payload at publisher o),
    tap_public_room_if_new-is_capped payload (record o {
      transcript = record_fact (arrived_on s.topic payload at publisher) o.transcript;
    }),
  )
]

pub end_tap-state :
    (writes : Bool) (t : Option RoomTap) (o : Observer) → (end_tap writes t o).state ≡ o.state
end_tap-state writes none o = refl
end_tap-state writes (some t) o = elim (Option-cases t.sub) [
  | inl away ↦ ground arith
  | inr (i, there) ↦ ground (arith, end_sub-state writes i o)
]

step-is_capped :
    (e : Event) (o : Observer) → is_capped o.state ≡ true → is_capped (step e o).state ≡ true
unfolding step start central_subscribed add_sub subscribed untap_room stop end_next look_first
    discard close_sub
step-is_capped (starts asked) o h = ground arith
step-is_capped (central_lands true) o h = elim (Option-cases o.starting) [
  | inl idle ↦ ground arith
  | inr (wanted, e) ↦
      ground (arith, raise_caps-is_capped o.waiting (started (length o.subs) wanted))
]
step-is_capped (central_lands false) o h = ground arith
step-is_capped (hears i payload at publisher) o h = hear-is_capped i payload at publisher o h
step-is_capped (taps topic) o h = tap-is_capped topic o h
step-is_capped (untaps writes topic) o h =
    rw
      (end_tap-state writes (found_tap topic o.state)
        (record o { state = change_taps (keep (λ t. not (has_topic topic t))) o.state }))
      (change_taps-is_capped (keep (λ t. not (has_topic topic t))) o.state
        (λ ts. count_if-keep-le (λ t. t.is_public) (λ t. not (has_topic topic t)) ts) h)
step-is_capped (lands id ok) o h = elim (Option-cases (find (is_flight id) o.flights)) [
  | inl away ↦ ground arith
  | inr (f, e) ↦ ground (
    arith,
    landed-is_capped id f.1 ok (record o { flights = keep (λ g. not (is_flight id g)) o.flights }),
  )
]
step-is_capped (stops writes) o h = elim (Option-cases o.state) [
  | inl off ↦ ground arith
  | inr (s, on) ↦ ground (
    arith,
    end_sub-state writes s.central (record o { state = none; ending = o.ending ++ subs_of s.taps }),
  )
]
step-is_capped (ends writes i) o h =
    ground (arith, end_sub-state writes i (record o { ending = keep (λ j. not (j == i)) o.ending }))
step-is_capped (reads topic) o h = elim (Option-cases (live_sub topic o.state)) [
  | inl away ↦ ground arith
  | inr (i, there) ↦ ground (arith, dropped_events-state i o)
]
step-is_capped (discards i) o h = ground arith
step-is_capped (feed_ends i) o h = ground arith
step-is_capped (others_lose l) o h = h

-- However calls, announcements and the ends of subscriptions interleave, the rooms that are tapped
-- because they were announced are never more than the cap, those whose subscription is still in
-- flight included.
pub run-is_capped :
    (es : List Event) (o : Observer) → is_capped o.state ≡ true → is_capped (run es o).state ≡ true
unfolding run
run-is_capped [] o h = h
run-is_capped (e ∷ es) o h = run-is_capped es (step e o) (step-is_capped e o h)
