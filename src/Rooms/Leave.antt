-- ===== src/Rooms/Leave.antt =====
-- src/converse_in_rooms/rooms.ts: leaveAll.
use macula_mcp.Base.{
  ℕ, ◌≡◌, refl, not, ◌&&◌, inl, inr, List, [], ◌∷◌, Text, same, same_iff, any, if◌then◌else◌, arith,
  Bool-cases,
}
use macula_mcp.Membership.{Membership, is_joined, memberships}
use macula_mcp.Membership.Table.{is_joined-forget, memberships_lem}
use macula_mcp.Envelope.{room_closed, participant_left}
use macula_mcp.Rooms.Calls.{
  Built-cases, members-publish, observer-publish, members-untap_room, is_tapped-untap_room,
}
use macula_mcp.Rooms.{
  envelope_to, Rooms, is_tapped, publish, drop_room, leave_room, leave_or_forget, leave_rooms,
  leave_all,
}

module _ (me : Text) (new_id : Text → Text) (now : ℕ) where
  -- Left or not, the room is dropped from a state with the same rows and taps.
  leave_or_forget_cases :
      (m : Membership) (r : Rooms)
      → (r' : Rooms) × (n : ℕ) × (r'.members ≡ r.members)
        × (r'.observer ≡ r.observer)
        × (leave_or_forget me new_id now m (leave_room me new_id now m.room_topic m.opened_here r)
            ≡ (drop_room me new_id now m.room_topic r', n))
  unfolding leave_room
  leave_or_forget_cases m r = elim (Bool-cases (is_joined me m.room_topic r.members)) [
    | inr out ↦ (r, 0, refl, refl, rw out refl)
    | inl joined ↦
        elim (Built-cases (
          envelope_to me new_id now m.room_topic
            (if m.opened_here then room_closed else participant_left))) [
              | inl (ps, e) ↦ (r, 0, refl, refl, rw (joined, leave_room, e) refl)
              | inr (env, e) ↦
                  let sent = publish m.room_topic env r in
                  let same_rows = members-publish m.room_topic env r in
                  let same_taps = observer-publish m.room_topic env r in
                  elim (Bool-cases (publish m.room_topic env r).1) [
                    | inl ok ↦
                        (sent.0, 1, same_rows, same_taps, rw (joined, leave_room, e, ok) refl)
                    | inr lost ↦
                        (sent.0, 0, same_rows, same_taps, rw (joined, leave_room, e, lost) refl)
                  ]
            ]
  ]

  is_joined-leave_rooms :
      (self t : Text) (ms : List Membership) (r : Rooms)
      → is_joined self t (leave_rooms me new_id now ms r).0.members
        ≡ is_joined self t r.members && not (same self me && any (λ m. same m.room_topic t) ms)
  unfolding leave_rooms
  is_joined-leave_rooms self t [] r = ground arith
  is_joined-leave_rooms self t (m ∷ ms) r =
      let (r', n, rows, taps, e) = leave_or_forget_cases m r in
      rw
        (
          e,
          is_joined-leave_rooms self t ms (drop_room me new_id now m.room_topic r'),
          members-untap_room m.room_topic r',
          is_joined-forget me m.room_topic self t r'.members,
          rows,
        )
        (ground (arith, same_iff t m.room_topic, same_iff m.room_topic t))

  is_tapped-leave_rooms :
      (t : Text) (ms : List Membership) (r : Rooms)
      → is_tapped t (leave_rooms me new_id now ms r).0
        ≡ is_tapped t r && not (any (λ m. same m.room_topic t) ms)
  unfolding leave_rooms
  is_tapped-leave_rooms t [] r = ground arith
  is_tapped-leave_rooms t (m ∷ ms) r =
      let (r', n, rows, taps, e) = leave_or_forget_cases m r in
      rw
        (
          e,
          is_tapped-leave_rooms t ms (drop_room me new_id now m.room_topic r'),
          is_tapped-untap_room t m.room_topic r',
          taps,
        )
        (ground arith)

  -- Whatever the mesh answers, once all rooms are left this identity is in no room, every other
  -- identity is in the rooms that it was in, and of the watched rooms those are still watched that
  -- this identity was not in.
  pub leave_all_lem :
      (r : Rooms)
      → ((self t : Text)
          → is_joined self t (leave_all me new_id now r).0.members
            ≡ is_joined self t r.members && not (same self me))
        × ((t : Text)
            → is_tapped t (leave_all me new_id now r).0
              ≡ is_tapped t r && not (is_joined me t r.members))
  unfolding leave_all
  leave_all_lem r = (
    λ self t.
        rw
          (
            is_joined-leave_rooms self t (memberships me r.members) r,
            memberships_lem me t r.members,
          )
          (others self t),
    λ t.
        rw (is_tapped-leave_rooms t (memberships me r.members) r, memberships_lem me t r.members)
          refl,
  )
    where
      others :
          (self t : Text)
          → is_joined self t r.members && not (same self me && is_joined me t r.members)
            ≡ is_joined self t r.members && not (same self me)
      others self t = elim (Bool-cases (same self me)) [
        | inr other ↦ rw other refl
        | inl own ↦ rw ((same_iff self me).0 own) (ground arith)
      ]
