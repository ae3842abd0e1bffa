-- ===== src/Tests/Places.antt =====
-- Tests of the rooms and of the names of realms.
use macula_mcp.Base.{
  ◌≡◌, refl, Bool, true, false, not, ◌&&◌, none, List, [], ◌∷◌, Text, codes, same, is_hex32,
  is_hex64, starts_with,
}
use macula_mcp.Json.{get}
use macula_mcp.Envelope.{
  build_envelope, draft, payload_of, kind_name, kind_of, envelope_problems, field_problems,
  identity_problems, sender_problems, reply_problems, reference_problems, recipient_problems,
  is_conversation_topic, is_room_topic,
}
use macula_mcp.Membership.{is_joined, record_membership}
use macula_mcp.Rooms.{
  Rooms, join_room, leave_all, is_tapped, attempt, start, tap_room, publish, publish_or_untap,
  say_joined, enter_room, untap_room,
}
use macula_mcp.Rooms.Join.{join_room-failed}
use macula_mcp.Rooms.Leave.{leave_all_lem}
use macula_mcp.RealmName.{realm_base_url}
use macula_mcp.Tests.{alice, bob, ring_1, room}

abbrev new_id : Text → Text
new_id topic = ring_1

-- A node in no room, whose observer is stopped; the outcomes of its calls to the mesh follow.
abbrev outside : List Bool → Rooms
outside outcomes = record { members = []; observer = none; sent = []; outcomes = outcomes }

-- The subscriptions succeed and the publish fails.
abbrev lost : Rooms
lost = outside (true ∷ true ∷ false ∷ [])

join_room-failed_example :
    ((join_room alice new_id 7 room bob none lost).0.members ≡ [])
    × ((t : Text)
        → is_tapped t (join_room alice new_id 7 room bob none lost).0 && not (is_tapped t lost)
          ≡ false)
unfolding join_room start enter_room tap_room attempt say_joined publish_or_untap publish untap_room
    is_joined record_membership build_envelope draft payload_of kind_name kind_of envelope_problems
    field_problems identity_problems sender_problems reply_problems reference_problems
    recipient_problems is_conversation_topic is_room_topic same get is_hex32 is_hex64 starts_with
join_room-failed_example = join_room-failed alice new_id 7 room bob none lost refl refl

abbrev inside : Rooms
inside = (join_room alice new_id 7 room bob none (outside [])).0

leave_all_lem_example :
    ((self t : Text)
      → is_joined self t (leave_all alice new_id 9 inside).0.members
        ≡ is_joined self t inside.members && not (same self alice))
    × ((t : Text)
        → is_tapped t (leave_all alice new_id 9 inside).0
          ≡ is_tapped t inside && not (is_joined alice t inside.members))
leave_all_lem_example = leave_all_lem alice new_id 9 inside

abbrev campus : Text
campus = codes "net.beam-campus"

realm_base_url_example : realm_base_url campus ≡ codes "https://realm.beam-campus.net"
unfolding realm_base_url
realm_base_url_example = refl

-- The room's own announcement is published, and the one on central is not.
abbrev half_announced : Rooms
half_announced = outside (true ∷ true ∷ true ∷ false ∷ [])
