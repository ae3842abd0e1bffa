-- ===== src/Serve/Outcome.antt =====
-- src/ring_agents/serve_rings.ts: the replies of handleRing.
use macula_mcp.Base.{
  ℕ, ◌≡◌, ◌≢◌, refl, true, ◌⊎◌, inl, inr, Option, none, some, List, [], ◌∷◌, Text, same_iff,
  to_lower_case, arith, find, Bool-cases, Option-cases,
}
use macula_mcp.Json.{Value}
use macula_mcp.Ring.{accepted, decided, incoming, has_key}
use macula_mcp.Ring.Wire.{RingArgs, parse_ring_args}
use macula_mcp.Policy.{open_policy, allowlist_policy, ContactPolicy, is_allowlisted}
use macula_mcp.Machine.{Db}
use macula_mcp.Dossier.{new_row, ring_received_in, Transition, run}
use macula_mcp.Dossier.Received.{first_row, find-ring_received_in}
use macula_mcp.Serve.{
  Reason, replied, JoinOutcome, joined, ServeState, decide_ring, addressee_problem, is_ring_answer,
  seed_of, accept_ring, defer_ring, handle_ring_answer, take_ring, address, handle_for, handle_ring,
}

-- The operator's policy lets the caller in.
abbrev pub IsWelcome : ContactPolicy → Text → Type 0
IsWelcome policy from =
    (policy.contact_policy ≡ open_policy)
    ⊎ ((policy.contact_policy ≡ allowlist_policy) × (is_allowlisted policy from ≡ true))

-- The payload is a ring, from its verified caller, to this node.
abbrev pub IsAddressed : Value → Text → Text → RingArgs → Type 0
IsAddressed payload caller node_id ring =
    (parse_ring_args payload ≡ some ring) × (ring.from ≡ to_lower_case caller) × (ring.to ≡ node_id)

-- The ring's row after it was received as accepted: the one it had, if it had been received before,
-- and otherwise a row of exactly this ring with that answer.
abbrev pub IsReceived : RingArgs → Text → ℕ → Db → Db → Type 0
IsReceived ring node_id at before after =
    find (has_key ring.ring_id incoming) after.rings
    ≡ first_row
        (new_row (seed_of node_id ring) incoming at (some (decided accepted)) none (some at))
        (find (has_key ring.ring_id incoming) before.rings)

module _ (policy : ContactPolicy) (join : Text → Text → JoinOutcome) (meanwhile : List Transition)
    (now at : ℕ) where
  take_ring_accepts :
      (node_id caller : Text) (ring : RingArgs) (s : ServeState) (id room : Option Text)
      (reason : Option Reason)
      → (take_ring policy join meanwhile now at node_id caller ring s).1
        ≡ replied id (decided accepted) room reason
      → IsWelcome policy ring.from
        × (join ring.room_topic ring.from ≡ joined)
        × ((take_ring policy join meanwhile now at node_id caller ring s).0.db
            ≡ (ring_received_in
                (seed_of node_id ring)
                (some accepted)
                none
                at
                (run meanwhile s.db)).0)
  unfolding take_ring decide_ring accept_ring defer_ring
  take_ring_accepts node_id caller ring s id room reason h = ground arith

  handle_ring_answer_never_accepts :
      (payload : Value) (node_id caller : Text) (s : ServeState) (id room : Option Text)
      (reason : Option Reason)
      → (handle_ring_answer payload node_id caller at s).1
        ≢ replied id (decided accepted) room reason
  unfolding handle_ring_answer
  handle_ring_answer_never_accepts payload node_id caller s id room reason h = ground arith

  address_accepts :
      (node_id caller : Text) (ring : RingArgs) (s : ServeState) (id room : Option Text)
      (reason : Option Reason)
      → (address policy join meanwhile now at node_id caller ring s).1
        ≡ replied id (decided accepted) room reason
      → (ring.from ≡ caller)
        × (ring.to ≡ node_id)
        × (address policy join meanwhile now at node_id caller ring s
            ≡ take_ring policy join meanwhile now at node_id caller ring s)
  unfolding addressee_problem
  address_accepts node_id caller ring s id room reason h =
      ground (arith, same_iff ring.from caller, same_iff ring.to node_id)

  handle_for_accepts :
      (node_id caller : Text) (payload : Value) (s : ServeState) (id room : Option Text)
      (reason : Option Reason)
      → (handle_for policy join meanwhile now at node_id payload caller s).1
        ≡ replied id (decided accepted) room reason
      → (ring : RingArgs) × (parse_ring_args payload ≡ some ring)
        × (handle_for policy join meanwhile now at node_id payload caller s
            ≡ address policy join meanwhile now at node_id caller ring s)
  handle_for_accepts node_id caller payload s id room reason h =
      elim (Bool-cases (is_ring_answer payload)) [
        | inl answer ↦ absurd (
            handle_ring_answer_never_accepts payload node_id caller s id room reason
              (rw answer at h))
        | inr ring ↦ elim (Option-cases (parse_ring_args payload)) [
          | inl bad ↦ absurd (ground arith)
          | inr (r, parsed) ↦ (r, parsed, rw (ring, parsed))
        ]
      ]

  pub handle_ring_active :
      (payload : Value) (caller node_id : Text) (s : ServeState)
      → node_id ≢ []
      → handle_ring policy join meanwhile now at payload caller (some node_id) s
        ≡ handle_for policy join meanwhile now at node_id payload (to_lower_case caller) s
  unfolding handle_ring
  handle_ring_active payload caller [] s h = absurd (h refl)
  handle_ring_active payload caller (c ∷ cs) s h = refl

  -- A call on an active node is answered `accepted` only if it is a ring from its verified caller
  -- to this node, the operator's policy is open or an allowlist that the caller is on, and the room
  -- of the ring was joined. Then the file is what ringReceived makes of the
  -- file as other sessions left it during the join, and the row of the ring
  -- is one of this ring as received and accepted if no row of it was there; a ring that had been
  -- received before keeps the row it had, whose answer need not be this one.
  pub handle_ring_accepts :
      (payload : Value) (caller node_id : Text) (s : ServeState) (id room : Option Text)
      (reason : Option Reason)
      → node_id ≢ []
      → (handle_ring policy join meanwhile now at payload caller (some node_id) s).1
        ≡ replied id (decided accepted) room reason
      → (ring : RingArgs) × IsAddressed payload caller node_id ring
        × IsWelcome policy ring.from
        × (join ring.room_topic ring.from ≡ joined)
        × ((handle_ring policy join meanwhile now at payload caller (some node_id) s).0.db
            ≡ (ring_received_in
                (seed_of node_id ring)
                (some accepted)
                none
                at
                (run meanwhile s.db)).0)
        × IsReceived ring node_id at
            (run meanwhile s.db)
            (handle_ring policy join meanwhile now at payload caller (some node_id) s).0.db
  handle_ring_accepts payload caller node_id s id room reason active h =
      let h₁ = rw (handle_ring_active payload caller node_id s active) at h in
      let (ring, is_ring, e₁) =
        handle_for_accepts node_id (to_lower_case caller) payload s id room reason h₁ in
      let h₂ = rw e₁ at h₁ in
      let (from, to, e₂) =
        address_accepts node_id (to_lower_case caller) ring s id room reason h₂ in
      let (welcome, in_room, recorded) =
        take_ring_accepts node_id (to_lower_case caller) ring s id room reason (rw e₂ at h₂) in
      (
        ring,
        (is_ring, from, to),
        welcome,
        in_room,
        rw (handle_ring_active payload caller node_id s active, e₁, e₂) recorded,
        rw (handle_ring_active payload caller node_id s active, e₁, e₂, recorded)
            (find-ring_received_in (seed_of node_id ring) (some accepted) none at
              (run meanwhile s.db)),
      )
