-- ===== src/Presence/Balance.antt =====
-- src/be_present/presence.ts: the subscriptions and timers that the turns leave.
use macula_mcp.Base.{ℕ, ◌+◌, ◌≡◌, Bool, true, false, not, ◌&&◌, List, [], ◌∷◌, Text, is_some, bit}
use macula_mcp.Presence.{
  Turn, subscribing_hello, subscribing_goodbye, observing, announcing, reasserting, leaving,
  Presence, Event, proceeds, step,
}

-- A turn before the presence is up, and one while it is.
abbrev is_before : Turn → Bool
is_before (subscribing_hello auto args) = true
is_before (subscribing_goodbye auto args) = true
is_before (observing auto args) = true
is_before (leaving s) = true
is_before _ = false

abbrev is_during : Turn → Bool
is_during (announcing auto) = true
is_during (reasserting auto) = true
is_during _ = false

-- The subscriptions to hellos and to goodbyes that a turn before the presence holds.
abbrev extra_hello : Turn → ℕ
extra_hello (subscribing_goodbye auto args) = 1
extra_hello (observing auto args) = 1
extra_hello (leaving s) = 1
extra_hello _ = 0

abbrev extra_goodbye : Turn → ℕ
extra_goodbye (observing auto args) = 1
extra_goodbye (leaving s) = 1
extra_goodbye _ = 0

-- A presence that is being announced has no renewal timer yet.
abbrev awaited : Turn → ℕ
awaited (announcing auto) = 1
awaited _ = 0

pub record IsBalanced (p : Presence) : Type 0 where
  pub no_state : is_before p.turn && is_some p.state ≡ false
  pub with_state : is_during p.turn && not (is_some p.state) ≡ false
  pub hello : p.hello ≡ bit (is_some p.state) + extra_hello p.turn
  pub goodbye : p.goodbye ≡ bit (is_some p.state) + extra_goodbye p.turn
  pub heartbeats : p.heartbeats ≡ bit (is_some p.state)
  pub renewals : p.renewals + awaited p.turn ≡ bit (is_some p.state)

-- The observer of the lobby fails to start once both topics are subscribed to.
abbrev pub fails_to_observe : Event → Presence → Bool
fails_to_observe (proceeds false) p = elim p.turn [ observing auto args ↦ not p.lobby | _ ↦ false ]
fails_to_observe _ p = false

module _ (me : Text) where
  abbrev pub observes : List Event → Presence → Bool
  observes [] p = true
  observes (e ∷ es) p = not (fails_to_observe e p) && observes es (step me e p)
