-- ===== src/Serve/Received.antt =====
-- src/ring_agents/serve_rings.ts: the writes of handleRing for a ring that arrives.
use macula_mcp.Base.{
  ℕ, ◌≡◌, refl, Bool, true, false, ◌⊎◌, inl, inr, Option, none, some, List, Text, codes, same,
  same_iff, to_lower_case, leb, if◌then◌else◌, arith, Bool-cases,
}
use macula_mcp.Json.{Value}
use macula_mcp.Ring.{Verdict, accepted, declined, outgoing, RingRow}
use macula_mcp.Ring.Pending.{get_ring, pending_summary}
use macula_mcp.Ring.Wire.{RingArgs, RingAnswerArgs, parse_ring_answer_args}
use macula_mcp.Policy.{
  Policy, open_policy, ask_policy, allowlist_policy, closed_policy, ContactPolicy, is_allowlisted,
}
use macula_mcp.Machine.{Db}
use macula_mcp.Dossier.{Transition, receives, apply, run}
use macula_mcp.Serve.{
  Reason, HandleReply, JoinOutcome, joined, at_capacity, join_failed, ServeState, rate_limited,
  decide_ring, closed_to_all, not_on_allowlist, model_will_answer, rate_limited_now,
  already_pending, set_time, max_pending_per_peer, addressee_problem, seed_of, decline_ring,
  accept_ring, defer_ring, after_join, take_ring, address,
}

-- A ring that was taken: nothing is written, or the ring is recorded as received.
abbrev pub IsReceivedOn : Text → RingArgs → ℕ → Db → Db → Type 0
IsReceivedOn node_id ring at db db' =
    (db' ≡ db)
    ⊎ ((v : Option Verdict) × (reason : Option Text) × (db'
          ≡ apply (receives (seed_of node_id ring) v reason at) db))

-- So it is on the file of the call, or on the file as other sessions left it during the join.
abbrev pub IsReceived : List Transition → Text → RingArgs → ℕ → Db → Db → Type 0
IsReceived meanwhile node_id ring at db db' =
    IsReceivedOn node_id ring at db db' ⊎ IsReceivedOn node_id ring at (run meanwhile db) db'

-- The answer to one of this node's own rings, from the node that was rung.
abbrev pub IsAnswerTo : Value → Text → Text → Db → RingAnswerArgs → Type 0
IsAnswerTo payload caller node_id db ans =
    (parse_ring_answer_args payload ≡ some ans)
    × (ans.from ≡ to_lower_case caller)
    × (ans.to ≡ node_id)
    × ((ring : RingRow) × (get_ring ans.ring_id node_id db ≡ some ring)
        × (ring.direction ≡ outgoing)
        × (ring.peer ≡ ans.from)
        × (ring.room_topic ≡ ans.room_topic))

-- A property of every way to decide a ring holds of the decision.
decide_ring_cases {ℓ κ} :
    {A : Type ℓ} (P : A → Type κ) (policy : ContactPolicy) (ring : RingArgs) {accept : A}
    {decline : Reason → Text → A} {defer : Reason → A}
    → P accept
    → ((r : Reason) (t : Text) → P (decline r t))
    → ((r : Reason) → P (defer r))
    → P (decide_ring policy ring accept decline defer)
unfolding decide_ring
decide_ring_cases {A} P policy ring {accept} {decline} {defer} a d f =
    go policy.contact_policy (is_allowlisted policy ring.from)
  where
    go :
        (p : Policy) (listed : Bool)
        → P (elim p [
          | open_policy ↦ accept
          | closed_policy ↦ decline closed_to_all (codes "closed")
          | allowlist_policy ↦
              if listed then accept else decline not_on_allowlist (codes "not on allowlist")
          | ask_policy ↦ defer model_will_answer
        ])
    go open_policy listed = a
    go closed_policy listed = d closed_to_all (codes "closed")
    go ask_policy listed = f model_will_answer
    go allowlist_policy true = a
    go allowlist_policy false = d not_on_allowlist (codes "not on allowlist")

module _ (policy : ContactPolicy) (join : Text → Text → JoinOutcome) (meanwhile : List Transition)
    (now at : ℕ) where
  accept-IsReceived :
      (o : JoinOutcome) (node_id : Text) (ring : RingArgs) (s : ServeState)
      → IsReceivedOn node_id ring at s.db (accept_ring node_id ring at s o).0.db
  unfolding accept_ring apply
  accept-IsReceived joined node_id ring s = inr (some accepted, none, refl)
  accept-IsReceived at_capacity node_id ring s =
      inr (some declined, some (codes "too many joined rooms"), refl)
  accept-IsReceived join_failed node_id ring s = inl refl

  decline-IsReceived :
      (node_id : Text) (ring : RingArgs) (s : ServeState) (reason : Reason) (recorded : Text)
      → IsReceivedOn node_id ring at s.db (decline_ring node_id ring at s reason recorded).0.db
  unfolding decline_ring apply
  decline-IsReceived node_id ring s reason recorded = inr (some declined, some recorded, refl)

  defer-IsReceived :
      (node_id : Text) (ring : RingArgs) (s : ServeState) (reason : Reason)
      → IsReceivedOn node_id ring at s.db (defer_ring node_id ring at s reason).0.db
  unfolding defer_ring apply
  defer-IsReceived node_id ring s reason = inr (none, none, refl)

  take_ring-IsReceived :
      (node_id caller : Text) (ring : RingArgs) (s : ServeState)
      → IsReceived meanwhile node_id ring at s.db
          (take_ring policy join meanwhile now at node_id caller ring s).0.db
  unfolding take_ring
  take_ring-IsReceived node_id caller ring s = elim (Bool-cases (rate_limited caller now s)) [
    | inl limited ↦
        rw (limited, take_ring)
          (inl (decline-IsReceived node_id ring s rate_limited_now (codes "rate limited")))
    | inr free ↦
        let s' = record s { last_ring_at = set_time caller now s.last_ring_at } in
        elim (Bool-cases
          (leb max_pending_per_peer (pending_summary node_id ring.from at s.db).from_peer)) [
            | inl full ↦
                rw (free, take_ring, full)
                  (inl (
                    decline-IsReceived node_id ring s' already_pending
                      (codes "too many pending from this peer")))
            | inr open_slot ↦
                rw (free, take_ring, open_slot)
                  (decide_ring_cases
                    (λ (r : ServeState × HandleReply).
                      IsReceived meanwhile node_id ring at s.db r.0.db)
                    policy ring {decline = decline_ring node_id ring at s'}
                    {defer = defer_ring node_id ring at s'}
                    (inr (
                      accept-IsReceived (join ring.room_topic ring.from) node_id ring
                        (after_join meanwhile s')))
                    (λ r t. inl (decline-IsReceived node_id ring s' r t))
                    (λ r. inl (defer-IsReceived node_id ring s' r)))
          ]
  ]

  address_own :
      (node_id caller : Text) (ring : RingArgs) (s : ServeState)
      → same ring.from caller ≡ true
      → same ring.to node_id ≡ true
      → address policy join meanwhile now at node_id caller ring s
        ≡ take_ring policy join meanwhile now at node_id caller ring s
  unfolding addressee_problem
  address_own node_id caller ring s from to = ground arith

  pub address-IsReceived :
      (node_id caller : Text) (ring : RingArgs) (s : ServeState)
      → ((address policy join meanwhile now at node_id caller ring s).0.db ≡ s.db)
        ⊎ ((ring.from ≡ caller)
            × (ring.to ≡ node_id)
            × IsReceived meanwhile node_id ring at s.db
                (address policy join meanwhile now at node_id caller ring s).0.db)
  unfolding addressee_problem
  address-IsReceived node_id caller ring s = elim (Bool-cases (same ring.from caller)) [
    | inr other ↦ inl (ground arith)
    | inl from ↦ elim (Bool-cases (same ring.to node_id)) [
      | inr other ↦ inl (ground arith)
      | inl to ↦ inr (
        (same_iff ring.from caller).0 from,
        (same_iff ring.to node_id).0 to,
        rw (address_own node_id caller ring s from to) (take_ring-IsReceived node_id caller ring s),
      )
    ]
  ]
