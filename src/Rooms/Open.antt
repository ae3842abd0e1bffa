-- ===== src/Rooms/Open.antt =====
-- src/converse_in_rooms/rooms.ts: openRoom when the mesh fails.
use macula_mcp.Base.{
  ℕ, ◌≡◌, ◌∙◌, Bool, false, not, ◌&&◌, Option, List, Text, same, same_iff, arith, Bool-cases, inl,
  inr,
}
use macula_mcp.Envelope.{Envelope, central_topic, build_envelope}
use macula_mcp.Rooms.Calls.{
  Built-cases, members-start, is_tapped-start, members-tap_room, is_tapped-tap_room,
  members-publish_or_untap, is_tapped-publish_or_untap,
}
use macula_mcp.Rooms.{
  Rooms, threw, mesh_error, is_tapped, start, tap_room, publish_or_untap, opening, announce_room,
  open_room,
}

-- The second state has the rows of the first and no tap but the first's, save one.
abbrev IsUndone : Text → Rooms → Rooms → Type 0
IsUndone topic r r' =
    (r'.members ≡ r.members)
    × ((t : Text) → is_tapped t r' && not (is_tapped t r && not (same topic t)) ≡ false)

module _ (me : Text) (new_id : Text → Text) (now : ℕ) where
  announce_room-IsUndone :
      (topic : Text) (public : Bool) (purpose : Option Text) (e : Envelope) (r : Rooms)
      → (announce_room me new_id now topic public purpose e r).1 ≡ threw mesh_error
      → IsUndone topic r (announce_room me new_id now topic public purpose e r).0
  unfolding announce_room
  announce_room-IsUndone topic public purpose e r h =
      let first = publish_or_untap topic topic e r in
      let second = publish_or_untap topic central_topic e first.0 in
      elim (Bool-cases (publish_or_untap topic topic e r).1) [
        | inr lost ↦
            rw (lost, announce_room)
              (
                members-publish_or_untap topic topic e r,
                λ t. ground (arith, is_tapped-publish_or_untap t topic topic e r),
              )
        | inl sent ↦ elim (Bool-cases public) [
          | inr private ↦ absurd (ground (arith, h, sent, private))
          | inl announced ↦ elim (Bool-cases (publish_or_untap topic central_topic e first.0).1) [
            | inl heard ↦ absurd (ground (arith, h, sent, announced, heard))
            | inr unheard ↦
                rw (sent, announce_room, announced, unheard)
                  (
                    members-publish_or_untap topic central_topic e first.0
                        ∙ members-publish_or_untap topic topic e r,
                    λ t. ground (
                      arith,
                      is_tapped-publish_or_untap t topic topic e r,
                      is_tapped-publish_or_untap t topic central_topic e first.0,
                    ),
                  )
          ]
        ]
      ]

  -- Opening a room that fails on the mesh, at the room's own announcement or at the one on central,
  -- records no membership and leaves no room watched that was not watched before.
  open_room-failed :
      (topic : Text) (purpose : Option Text) (public : Bool) (invited : List Text) (r : Rooms)
      → (open_room me new_id now topic purpose public invited r).1 ≡ threw mesh_error
      → ((open_room me new_id now topic purpose public invited r).0.members ≡ r.members)
        × ((t : Text)
            → is_tapped t (open_room me new_id now topic purpose public invited r).0
                && not (is_tapped t r)
              ≡ false)
  unfolding open_room
  open_room-failed topic purpose public invited r h = elim (Bool-cases (start r).1) [
    | inr off ↦ rw (off, open_room) (members-start r, λ t. ground (arith, is_tapped-start t r))
    | inl on ↦
        elim (Built-cases
          (build_envelope (opening me new_id now topic purpose invited) (new_id topic) now)) [
            | inl (ps, e) ↦ absurd (ground (arith, h, on, e))
            | inr (env, e) ↦
                let tapped = tap_room topic (start r).0 in
                elim (Bool-cases (tap_room topic (start r).0).1) [
                  | inr failed ↦
                      rw (on, open_room, e, failed)
                        (
                          members-tap_room topic (start r).0 ∙ members-start r,
                          λ t.
                              ground (
                                arith,
                                is_tapped-tap_room t topic (start r).0,
                                is_tapped-start t r,
                              ),
                        )
                  | inl ok ↦
                      let (rows, taps) =
                        announce_room-IsUndone topic public purpose env tapped.0
                          (rw (on, open_room, e, ok) at h) in
                      rw (on, open_room, e, ok)
                        (
                          rows ∙ members-tap_room topic (start r).0 ∙ members-start r,
                          λ t. ground (
                            arith,
                            taps t,
                            is_tapped-tap_room t topic (start r).0,
                            is_tapped-start t r,
                            same_iff t topic,
                            same_iff topic t,
                          ),
                        )
                ]
          ]
  ]
