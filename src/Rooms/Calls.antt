-- ===== src/Rooms/Calls.antt =====
-- src/converse_in_rooms/watch_lobby.ts: what one call of the observer or of the mesh changes.
use macula_mcp.Base.{
  ◌≡◌, refl, true, not, ◌&&◌, ◌||◌, ◌⊎◌, inl, inr, List, [], ◌∷◌, Text, same, same_iff, keep, any,
  arith,
}
use macula_mcp.Envelope.{Envelope, Built, built, refused, Problem}
use macula_mcp.Rooms.{
  Rooms, attempt, topics, is_tapped, start, tap_room, untap_room, publish, publish_or_untap,
}

pub Built-cases :
    (b : Built) → ((ps : List Problem) × (b ≡ refused ps)) ⊎ ((e : Envelope) × (b ≡ built e))
Built-cases (refused ps) = inl (ps, refl)
Built-cases (built e) = inr (e, refl)

-- A call that succeeded left the rows alone, and the taps but the one that its name says.
pub members-start : (r : Rooms) → (start r).0.members ≡ r.members
unfolding start attempt
members-start r = ground arith

pub is_tapped-start : (t : Text) (r : Rooms) → is_tapped t (start r).0 ≡ is_tapped t r
unfolding start attempt
is_tapped-start t r = ground arith

pub start-start : (r : Rooms) → (start r).1 ≡ true → start (start r).0 ≡ ((start r).0, true)
unfolding start attempt
start-start r h = ground arith

pub members-tap_room : (topic : Text) (r : Rooms) → (tap_room topic r).0.members ≡ r.members
unfolding tap_room attempt
members-tap_room topic r = ground arith

pub is_tapped-tap_room :
    (t topic : Text) (r : Rooms)
    → is_tapped t (tap_room topic r).0 ≡ is_tapped t r || (tap_room topic r).1 && same t topic
unfolding tap_room attempt
is_tapped-tap_room t topic r = ground (arith, same_iff t topic)

pub members-untap_room : (topic : Text) (r : Rooms) → (untap_room topic r).members ≡ r.members
unfolding untap_room
members-untap_room topic r = ground arith

any-keep-not :
    (t topic : Text) (ts : List Text)
    → any (same t) (keep (λ s. not (same topic s)) ts) ≡ any (same t) ts && not (same topic t)
any-keep-not t topic [] = refl
any-keep-not t topic (x ∷ xs) =
    ground (arith, any-keep-not t topic xs, same_iff t x, same_iff topic x, same_iff topic t)

pub is_tapped-untap_room :
    (t topic : Text) (r : Rooms)
    → is_tapped t (untap_room topic r) ≡ is_tapped t r && not (same topic t)
unfolding untap_room
is_tapped-untap_room t topic r = ground (arith, any-keep-not t topic (topics r.observer))

pub members-publish :
    (topic : Text) (e : Envelope) (r : Rooms) → (publish topic e r).0.members ≡ r.members
unfolding publish attempt
members-publish topic e r = ground arith

pub observer-publish :
    (topic : Text) (e : Envelope) (r : Rooms) → (publish topic e r).0.observer ≡ r.observer
unfolding publish attempt
observer-publish topic e r = ground arith

pub members-publish_or_untap :
    (room topic : Text) (e : Envelope) (r : Rooms)
    → (publish_or_untap room topic e r).0.members ≡ r.members
unfolding publish_or_untap
members-publish_or_untap room topic e r =
    ground (arith, members-publish topic e r, members-untap_room room (publish topic e r).0)

pub is_tapped-publish_or_untap :
    (t room topic : Text) (e : Envelope) (r : Rooms)
    → is_tapped t (publish_or_untap room topic e r).0
      ≡ is_tapped t r && ((publish_or_untap room topic e r).1 || not (same room t))
unfolding publish_or_untap
is_tapped-publish_or_untap t room topic e r =
    ground (arith, observer-publish topic e r, is_tapped-untap_room t room (publish topic e r).0)
