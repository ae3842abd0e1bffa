-- ===== src/Rooms/Join.antt =====
-- src/converse_in_rooms/rooms.ts: joinRoom, on success and on failure.
use macula_mcp.Base.{
  ℕ, ◌≡◌, ◌≤◌, refl, ap, Bool, true, false, not, ◌&&◌, ◌⊎◌, inl, inr, Option, some, Text, same_iff,
  same_refl, arith, Bool-cases, ◌∙◌,
}
use macula_mcp.Envelope.{is_room_topic}
use macula_mcp.Membership.{is_joined, room_count}
use macula_mcp.Membership.Table.{IsKeyed}
use macula_mcp.Rooms.Calls.{members-start, is_tapped-start, members-tap_room, is_tapped-tap_room}
use macula_mcp.Rooms.{
  Rooms, threw, entered, capacity_error, mesh_error, room_error, is_tapped, start, tap_room,
  ensure_tapped, is_full, say_joined, rejoin, enter_room, join_room,
}
use macula_mcp.Rooms.Entering.{
  members-ensure_tapped, is_tapped-ensure_tapped, say_joined_cases, say_joined_lem,
  say_joined-room_count, say_joined-IsKeyed, say_joined-failed,
}

-- The four ways that joinRoomNow goes.
data Entering (me : Text) (new_id : Text → Text) (now : ℕ) (topic opener : Text) (most : Option ℕ)
    (r : Rooms) : Type 0 where
  again :
      is_joined me topic r.members ≡ true
      → enter_room me new_id now topic opener most r
        ≡ rejoin me new_id now (ensure_tapped me new_id now topic r)
      → Entering me new_id now topic opener most r
  full :
      is_joined me topic r.members ≡ false
      → is_full me new_id now most r ≡ true
      → enter_room me new_id now topic opener most r ≡ (r, threw capacity_error)
      → Entering me new_id now topic opener most r
  untapped :
      is_joined me topic r.members ≡ false
      → (tap_room topic r).1 ≡ false
      → enter_room me new_id now topic opener most r ≡ ((tap_room topic r).0, threw mesh_error)
      → Entering me new_id now topic opener most r
  tapped :
      is_joined me topic r.members ≡ false
      → is_full me new_id now most r ≡ false
      → (tap_room topic r).1 ≡ true
      → enter_room me new_id now topic opener most r
        ≡ say_joined me new_id now topic opener (tap_room topic r).0
      → Entering me new_id now topic opener most r

module _ (me : Text) (new_id : Text → Text) (now : ℕ) where
  entering :
      (topic opener : Text) (most : Option ℕ) (r : Rooms)
      → Entering me new_id now topic opener most r
  unfolding enter_room
  entering topic opener most r = elim (Bool-cases (is_joined me topic r.members)) [
    | inl before ↦ again before (rw before refl)
    | inr new ↦ elim (Bool-cases (is_full me new_id now most r)) [
      | inl full_up ↦ full new full_up (rw (new, full_up) refl)
      | inr free ↦ elim (Bool-cases (tap_room topic r).1) [
        | inl on ↦ tapped new free on (rw (new, free, on) refl)
        | inr off ↦ untapped new off (rw (new, free, off) refl)
      ]
    ]
  ]

  enter_room_lem :
      (topic opener : Text) (most : Option ℕ) (r : Rooms) (already : Bool)
      → (enter_room me new_id now topic opener most r).1 ≡ entered already
      → (is_joined me topic (enter_room me new_id now topic opener most r).0.members ≡ true)
        × (is_tapped topic (enter_room me new_id now topic opener most r).0 ≡ true)
  enter_room_lem topic opener most r already h = elim (entering topic opener most r) [
    | again before e ↦ rw e (
      rw (members-ensure_tapped me new_id now topic r) before,
      is_tapped-ensure_tapped me new_id now topic r (ground (arith, h, e)),
    )
    | full new full_up e ↦ absurd (ground (arith, h, e))
    | untapped new off e ↦ absurd (ground (arith, h, e))
    | tapped new free on e ↦ rw e (
        say_joined_lem me new_id now topic opener (tap_room topic r).0
          (ground (arith, is_tapped-tap_room topic topic r, same_refl topic))
          (ground (arith, h, e, say_joined_cases me new_id now topic opener (tap_room topic r).0)))
  ]

  enter_room-failed :
      (topic opener : Text) (most : Option ℕ) (r : Rooms)
      → is_joined me topic r.members ≡ false
      → (enter_room me new_id now topic opener most r).1 ≡ threw mesh_error
      → ((enter_room me new_id now topic opener most r).0.members ≡ r.members)
        × ((t : Text)
            → is_tapped t (enter_room me new_id now topic opener most r).0 ≡ true
            → is_tapped t r ≡ true)
  enter_room-failed topic opener most r out h = elim (entering topic opener most r) [
    | again before e ↦ absurd (ground arith)
    | full new full_up e ↦ absurd (ground (arith, h, e))
    | untapped new off e ↦
        rw e (members-tap_room topic r, λ t on. ground (arith, is_tapped-tap_room t topic r))
    | tapped new free on e ↦
        let (kept, untap) =
          say_joined-failed me new_id now topic opener (tap_room topic r).0 (rw e at h) in
        rw e (
          kept ∙ members-tap_room topic r,
          λ t still.
              ground
                (arith, untap t, is_tapped-tap_room t topic r, same_iff t topic, same_iff topic t),
        )
  ]

  enter_room-cap :
      (topic opener : Text) (most : ℕ) (r : Rooms)
      → room_count me r.members ≤ most
      → room_count me (enter_room me new_id now topic opener (some most) r).0.members ≤ most
  enter_room-cap topic opener most r h = elim (entering topic opener (some most) r) [
    | again before e ↦ rw (e, members-ensure_tapped me new_id now topic r) h
    | full new full_up e ↦ rw e h
    | untapped new off e ↦ rw (e, members-tap_room topic r) h
    | tapped new free on e ↦ ground (
      arith,
      e,
      ap (room_count me) (members-tap_room topic r),
      say_joined-room_count me new_id now topic opener (tap_room topic r).0,
    )
  ]

  enter_room-IsKeyed :
      (topic opener : Text) (most : Option ℕ) (r : Rooms)
      → IsKeyed r.members
      → IsKeyed (enter_room me new_id now topic opener most r).0.members
  enter_room-IsKeyed topic opener most r h = elim (entering topic opener most r) [
    | again before e ↦ rw (e, members-ensure_tapped me new_id now topic r) h
    | full new full_up e ↦ rw e h
    | untapped new off e ↦ rw (e, members-tap_room topic r) h
    | tapped new free on e ↦ rw e (
        say_joined-IsKeyed me new_id now topic opener (tap_room topic r).0
          (rw (members-tap_room topic r) h))
  ]

  join_room_cases :
      (topic opener : Text) (most : Option ℕ) (r : Rooms)
      → (join_room me new_id now topic opener most r ≡ (r, threw room_error))
        ⊎ ((join_room me new_id now topic opener most r ≡ ((start r).0, threw mesh_error))
            ⊎ ((is_room_topic topic ≡ true)
                × ((start r).1 ≡ true)
                × (join_room me new_id now topic opener most r
                    ≡ enter_room me new_id now topic opener most (start r).0)))
  unfolding join_room
  join_room_cases topic opener most r = elim (Bool-cases (is_room_topic topic)) [
    | inr bad ↦ inl (rw bad refl)
    | inl good ↦ elim (Bool-cases (start r).1) [
      | inl on ↦ inr (inr (good, on, rw (good, on) refl))
      | inr off ↦ inr (inl (rw (good, off) refl))
    ]
  ]

  -- A join that is answered without an error leaves this identity a member of the room and the room
  -- watched.
  join_room-entered :
      (topic opener : Text) (most : Option ℕ) (r : Rooms) (already : Bool)
      → (join_room me new_id now topic opener most r).1 ≡ entered already
      → (is_joined me topic (join_room me new_id now topic opener most r).0.members ≡ true)
        × (is_tapped topic (join_room me new_id now topic opener most r).0 ≡ true)
  join_room-entered topic opener most r already h = elim (join_room_cases topic opener most r) [
    | inl e ↦ absurd (ground (arith, h, e))
    | inr ends ↦ elim ends [
      | inl e ↦ absurd (ground (arith, h, e))
      | inr (good, on, e) ↦ rw e (enter_room_lem topic opener most (start r).0 already (rw e at h))
    ]
  ]

  -- A join that fails on the mesh, of a room that this identity is not in, changes no membership and
  -- leaves no room watched that was not watched before.
  pub join_room-failed :
      (topic opener : Text) (most : Option ℕ) (r : Rooms)
      → is_joined me topic r.members ≡ false
      → (join_room me new_id now topic opener most r).1 ≡ threw mesh_error
      → ((join_room me new_id now topic opener most r).0.members ≡ r.members)
        × ((t : Text)
            → is_tapped t (join_room me new_id now topic opener most r).0 && not (is_tapped t r)
              ≡ false)
  join_room-failed topic opener most r out h = elim (join_room_cases topic opener most r) [
    | inl e ↦ absurd (ground (arith, h, e))
    | inr ends ↦ elim ends [
      | inl e ↦ rw e (members-start r, λ t. ground (arith, is_tapped-start t r))
      | inr (good, on, e) ↦
          let (kept, quiet) =
            enter_room-failed topic opener most (start r).0 (rw (members-start r) out)
              (rw e at h) in
          rw e (kept ∙ members-start r, λ t. ground (arith, quiet t, is_tapped-start t r))
    ]
  ]

  -- A join under a cap never takes this identity past the cap, however the calls of the mesh end.
  join_room-cap :
      (topic opener : Text) (most : ℕ) (r : Rooms)
      → room_count me r.members ≤ most
      → room_count me (join_room me new_id now topic opener (some most) r).0.members ≤ most
  join_room-cap topic opener most r h = elim (join_room_cases topic opener (some most) r) [
    | inl e ↦ rw e h
    | inr ends ↦ elim ends [
      | inl e ↦ rw (e, members-start r) h
      | inr (good, on, e) ↦
          rw e (enter_room-cap topic opener most (start r).0 (rw (members-start r) h))
    ]
  ]

  -- A join keeps (self, room_topic) a primary key of the memberships.
  join_room-IsKeyed :
      (topic opener : Text) (most : Option ℕ) (r : Rooms)
      → IsKeyed r.members
      → IsKeyed (join_room me new_id now topic opener most r).0.members
  join_room-IsKeyed topic opener most r h = elim (join_room_cases topic opener most r) [
    | inl e ↦ rw e h
    | inr ends ↦ elim ends [
      | inl e ↦ rw (e, members-start r) h
      | inr (good, on, e) ↦
          rw e (enter_room-IsKeyed topic opener most (start r).0 (rw (members-start r) h))
    ]
  ]
