-- ===== src/Rooms/Entering.antt =====
-- src/converse_in_rooms/rooms.ts: the end of a join, once the room is tapped.
use macula_mcp.Base.{
  ℕ, ◌+◌, ◌≡◌, ◌≤◌, refl, true, false, not, ◌&&◌, ◌⊎◌, inl, inr, none, Text, same, same_refl, arith,
  Bool-cases,
}
use macula_mcp.Envelope.{participant_joined, Envelope}
use macula_mcp.Membership.{is_joined, room_count}
use macula_mcp.Membership.Table.{
  IsKeyed, record_membership-IsKeyed, is_joined-record_membership, room_count-record_membership,
}
use macula_mcp.Rooms.Calls.{
  Built-cases, members-start, members-tap_room, is_tapped-tap_room, members-publish,
  observer-publish, members-publish_or_untap, is_tapped-publish_or_untap,
}
use macula_mcp.Rooms.{
  Rooms, threw, entered, mesh_error, envelope_error, is_tapped, publish_or_untap, envelope_to,
  say_rejoined, ensure_tapped, membership_of, admit, say_joined,
}

module _ (me : Text) (new_id : Text → Text) (now : ℕ) where
  pub members-ensure_tapped :
      (topic : Text) (r : Rooms) → (ensure_tapped me new_id now topic r).0.members ≡ r.members
  unfolding ensure_tapped say_rejoined
  members-ensure_tapped topic r =
      ground (arith, members-start r, members-tap_room topic, members-publish topic)

  pub is_tapped-ensure_tapped :
      (topic : Text) (r : Rooms)
      → (ensure_tapped me new_id now topic r).1 ≡ none
      → is_tapped topic (ensure_tapped me new_id now topic r).0 ≡ true
  unfolding ensure_tapped say_rejoined
  is_tapped-ensure_tapped topic r h =
      ground (arith, is_tapped-tap_room topic topic, same_refl topic, observer-publish topic)

  -- How the end of a join goes.
  pub say_joined_cases :
      (topic opener : Text) (r : Rooms)
      → (say_joined me new_id now topic opener r ≡ (r, threw envelope_error))
        ⊎ ((e : Envelope) × (((publish_or_untap topic topic e r).1 ≡ true)
                × (say_joined me new_id now topic opener r
                    ≡ admit me new_id now
                        (membership_of me new_id now topic opener false false none)
                        (entered false)
                        (publish_or_untap topic topic e r).0)
              ⊎ ((publish_or_untap topic topic e r).1 ≡ false)
                × (say_joined me new_id now topic opener r
                    ≡ ((publish_or_untap topic topic e r).0, threw mesh_error))))
  unfolding say_joined
  say_joined_cases topic opener r =
      elim (Built-cases (envelope_to me new_id now topic participant_joined)) [
        | inl (ps, e) ↦ inl (rw (e, say_joined) refl)
        | inr (env, e) ↦ elim (Bool-cases (publish_or_untap topic topic env r).1) [
          | inl sent ↦ inr (env, inl (sent, rw (e, say_joined, sent) refl))
          | inr lost ↦ inr (env, inr (lost, rw (e, say_joined, lost) refl))
        ]
      ]

  pub say_joined_lem :
      (topic opener : Text) (r : Rooms)
      → is_tapped topic r ≡ true
      → (say_joined me new_id now topic opener r).1 ≡ entered false
      → (is_joined me topic (say_joined me new_id now topic opener r).0.members ≡ true)
        × (is_tapped topic (say_joined me new_id now topic opener r).0 ≡ true)
  say_joined_lem topic opener r tapped h = elim (say_joined_cases topic opener r) [
    | inl e ↦ absurd (ground (arith, h, e))
    | inr (env, ends) ↦ elim ends [
      | inr (lost, e) ↦ absurd (ground (arith, h, e))
      | inl (sent, e) ↦ rw e (
        is_joined-record_membership (membership_of me new_id now topic opener false false none)
            (publish_or_untap topic topic env r).0.members,
        ground (arith, is_tapped-publish_or_untap topic topic topic env r),
      )
    ]
  ]

  pub say_joined-room_count :
      (topic opener : Text) (r : Rooms)
      → room_count me (say_joined me new_id now topic opener r).0.members
        ≤ room_count me r.members + 1
  say_joined-room_count topic opener r = elim (say_joined_cases topic opener r) [
    | inl e ↦ rw e (omega arith)
    | inr (env, ends) ↦ elim ends [
      | inr (lost, e) ↦ rw (e, members-publish_or_untap topic topic env r) (omega arith)
      | inl (sent, e) ↦
          rw (e, members-publish_or_untap topic topic env r)
            (room_count-record_membership me
              (membership_of me new_id now topic opener false false none) r.members)
    ]
  ]

  pub say_joined-IsKeyed :
      (topic opener : Text) (r : Rooms)
      → IsKeyed r.members
      → IsKeyed (say_joined me new_id now topic opener r).0.members
  say_joined-IsKeyed topic opener r h = elim (say_joined_cases topic opener r) [
    | inl e ↦ rw e h
    | inr (env, ends) ↦ elim ends [
      | inr (lost, e) ↦ rw (e, members-publish_or_untap topic topic env r) h
      | inl (sent, e) ↦
          rw (e, members-publish_or_untap topic topic env r)
            (record_membership-IsKeyed (membership_of me new_id now topic opener false false none)
              r.members h)
    ]
  ]

  pub say_joined-failed :
      (topic opener : Text) (r : Rooms)
      → (say_joined me new_id now topic opener r).1 ≡ threw mesh_error
      → ((say_joined me new_id now topic opener r).0.members ≡ r.members)
        × ((t : Text)
            → is_tapped t (say_joined me new_id now topic opener r).0
              ≡ is_tapped t r && not (same topic t))
  say_joined-failed topic opener r h = elim (say_joined_cases topic opener r) [
    | inl e ↦ absurd (ground (arith, h, e))
    | inr (env, ends) ↦ elim ends [
      | inl (sent, e) ↦ absurd (ground (arith, h, e))
      | inr (lost, e) ↦ rw e (
        members-publish_or_untap topic topic env r,
        λ t. ground (arith, is_tapped-publish_or_untap t topic topic env r),
      )
    ]
  ]
