-- ===== src/Observer/Losses.antt =====
-- src/dropped_events.ts under src/converse_in_rooms/watch_lobby.ts: what each operation does to the
-- sum of the recorded losses.
use macula_mcp.Base.{
  all-snoc, ℕ, ◌+◌, ◌-◌, ◌≡◌, Bool, true, false, Option, none, some, Text, all, length, ltb, arith,
  Option-cases, Bool-cases, inl, inr,
}
use macula_mcp.Json.{Value}
use macula_mcp.Envelope.{parse_envelope}
use macula_mcp.Transcript.{Transcript, Arrival, record_fact, record_loss, lost_on}
use macula_mcp.Observer.{
  Sub, RoomTap, Observer, get_elem?, look_at, dropped_events, close_sub, end_sub, add_sub, tap,
  announced_room, tap_public_room_if_new, heard_by, hear, arrived_on,
}
use macula_mcp.Observer.Run.{place_sub, change_taps, is_attached, landed, end_tap, discard_at}
use macula_mcp.Observer.Sums.{
  seen_by, is_settled, sum_lost-snoc, seen_by-snoc, seen_by-set, all-set, all-get_elem?,
}

module _ (topic : Text) (before : ℕ) where
  -- What the file held before, and every loss that was seen.
  abbrev pub IsAccounted : Observer → Type 0
  IsAccounted o =
      (lost_on topic o.transcript ≡ before + seen_by topic o.subs) × (all is_settled o.subs ≡ true)

  look_at-IsAccounted :
      (i : ℕ) (s : Sub) (o : Observer)
      → get_elem? o.subs i ≡ some s
      → IsAccounted o
      → IsAccounted (look_at i s o)
  unfolding lost_on record_loss
  look_at-IsAccounted i s o e (h, settled) = elim (Bool-cases (ltb s.seen s.lost)) [
    | inl more ↦ rw more (
      ground (
        arith,
        sum_lost-snoc topic o.transcript.losses
            (record { topic = s.topic; lost = s.lost - s.seen }),
        seen_by-set topic o.subs i s (record s { seen = s.lost }),
      ),
      all-set is_settled o.subs i (record s { seen = s.lost }) settled (ground arith),
    )
    | inr same_as_before ↦ rw same_as_before (h, settled)
  ]

  pub dropped_events-IsAccounted :
      (i : ℕ) (o : Observer) → IsAccounted o → IsAccounted (dropped_events i o)
  unfolding dropped_events lost_on
  dropped_events-IsAccounted i o h = elim (Option-cases (get_elem? o.subs i)) [
    | inl away ↦ rw (away, dropped_events) h
    | inr (s, there) ↦ rw (there, dropped_events) (look_at-IsAccounted i s o there h)
  ]

  pub close_sub-IsAccounted : (i : ℕ) (o : Observer) → IsAccounted o → IsAccounted (close_sub i o)
  unfolding close_sub lost_on
  close_sub-IsAccounted i o (h, settled) = elim (Option-cases (get_elem? o.subs i)) [
    | inl away ↦ rw (away, close_sub) (h, settled)
    | inr (s, there) ↦
        rw (there, close_sub)
          (
            ground (arith, seen_by-set topic o.subs i s (record s { is_open = false }) there),
            all-set is_settled o.subs i (record s { is_open = false }) settled
                (all-get_elem? is_settled o.subs i s settled there),
          )
  ]

  pub end_sub-IsAccounted :
      (writes : Bool) (i : ℕ) (o : Observer) → IsAccounted o → IsAccounted (end_sub writes i o)
  unfolding end_sub
  end_sub-IsAccounted true i o h = dropped_events-IsAccounted i o h
  end_sub-IsAccounted false i o h = h

  pub add_sub-IsAccounted :
      (name : Text) (o : Observer) → IsAccounted o → IsAccounted (add_sub name o)
  unfolding add_sub
  add_sub-IsAccounted name o (h, settled) =
      let new : Sub = record { topic = name; lost = 0; seen = 0; is_open = true } in
      (
        ground (arith, seen_by-snoc topic o.subs new),
        ground (arith, all-snoc is_settled o.subs new),
      )

  -- An operation that leaves the subscriptions and the losses alone.
  pub same_losses :
      (o o' : Observer)
      → o'.subs ≡ o.subs
      → o'.transcript.losses ≡ o.transcript.losses
      → IsAccounted o
      → IsAccounted o'
  unfolding lost_on
  same_losses o o' e l h = rw (e, l) h

pub tap_subs :
    (topic : Text) (is_public : Bool) (o : Observer) → (tap topic is_public o).0.subs ≡ o.subs
unfolding tap
tap_subs topic is_public o = ground arith

pub tap_transcript :
    (topic : Text) (is_public : Bool) (o : Observer)
    → (tap topic is_public o).0.transcript ≡ o.transcript
unfolding tap
tap_transcript topic is_public o = ground arith

tap_public_room_if_new-subs :
    (payload : Value) (o : Observer) → (tap_public_room_if_new payload o).subs ≡ o.subs
unfolding tap_public_room_if_new
tap_public_room_if_new-subs payload o =
    elim (Option-cases (announced_room (parse_envelope payload))) [
      | inl nothing ↦ ground arith
      | inr (topic, e) ↦ ground (arith, tap_subs topic true o)
    ]

tap_public_room_if_new-transcript :
    (payload : Value) (o : Observer) → (tap_public_room_if_new payload o).transcript ≡ o.transcript
unfolding tap_public_room_if_new
tap_public_room_if_new-transcript payload o =
    elim (Option-cases (announced_room (parse_envelope payload))) [
      | inl nothing ↦ ground arith
      | inr (topic, e) ↦ ground (arith, tap_transcript topic true o)
    ]

record_fact-losses : (a : Arrival) (t : Transcript) → (record_fact a t).losses ≡ t.losses
unfolding record_fact
record_fact-losses a t = ground arith

module _ (topic : Text) (before : ℕ) where
  heard_by-IsAccounted :
      (name : Text) (payload : Value) (at : ℕ) (publisher : Option Text) (o : Observer)
      → IsAccounted topic before o
      → IsAccounted topic before (heard_by name payload at publisher o)
  heard_by-IsAccounted name payload at publisher o h =
      let a = arrived_on name payload at publisher in
      let o' = record o { transcript = record_fact a o.transcript } in
      same_losses topic before o (heard_by name payload at publisher o)
        (ground (arith, tap_public_room_if_new-subs payload o'))
        (ground
          (arith, tap_public_room_if_new-transcript payload o', record_fact-losses a o.transcript))
        h

  pub hear-IsAccounted :
      (i : ℕ) (payload : Value) (at : ℕ) (publisher : Option Text) (o : Observer)
      → IsAccounted topic before o
      → IsAccounted topic before (hear i payload at publisher o)
  unfolding hear lost_on
  hear-IsAccounted i payload at publisher o h = elim (Option-cases (get_elem? o.subs i)) [
    | inl away ↦ rw (away, hear) h
    | inr (s, there) ↦
        rw (there, hear)
          (elim (Bool-cases s.is_open) [
            | inr shut ↦ rw shut h
            | inl live ↦ rw live (
                dropped_events-IsAccounted topic before i (heard_by s.topic payload at publisher o)
                  (heard_by-IsAccounted s.topic payload at publisher o h))
          ])
  ]

  pub end_tap-IsAccounted :
      (writes : Bool) (t : Option RoomTap) (o : Observer)
      → IsAccounted topic before o
      → IsAccounted topic before (end_tap writes t o)
  end_tap-IsAccounted writes none o h = h
  end_tap-IsAccounted writes (some t) o h = ended t.sub
    where
      ended :
          (sub : Option ℕ)
          → IsAccounted topic before (end_tap writes (some (record t { sub = sub })) o)
      ended none = h
      ended (some i) = end_sub-IsAccounted topic before writes i o h

  pub landed-IsAccounted :
      (id : ℕ) (name : Text) (ok : Bool) (o : Observer)
      → IsAccounted topic before o
      → IsAccounted topic before (landed id name ok o)
  landed-IsAccounted id name false o h = h
  landed-IsAccounted id name true o h = elim (Bool-cases (is_attached id o.state)) [
    | inl attached ↦ rw attached (
        add_sub-IsAccounted topic before name
          (record o { state = change_taps (place_sub id (length o.subs)) o.state }) h)
    | inr gone ↦ rw gone (
        end_sub-IsAccounted topic before true (length o.subs) (add_sub name o)
          (add_sub-IsAccounted topic before name o h))
  ]

  pub discard_at-IsAccounted :
      (i : ℕ) (s : Sub) (o : Observer)
      → get_elem? o.subs i ≡ some s
      → IsAccounted topic before o
      → IsAccounted topic before (discard_at i s o)
  discard_at-IsAccounted i s o there (h, settled) = elim (Bool-cases s.is_open) [
    | inr shut ↦ rw shut (h, settled)
    | inl live ↦ (
      ground (arith, seen_by-set topic o.subs i s (record s { lost = s.lost + 1 }) there),
      ground (
        arith,
        all-get_elem? is_settled o.subs i s settled there,
        all-set is_settled o.subs i (record s { lost = s.lost + 1 }) settled,
      ),
    )
  ]
