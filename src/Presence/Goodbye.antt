-- ===== src/Presence/Goodbye.antt =====
-- src/be_present/presence.ts: what stays off after a goodbye.
use macula_mcp.Base.{
  ℕ, ◌-◌, ◌≡◌, refl, Bool, true, false, not, ◌&&◌, none, some, List, [], ◌∷◌, ◌++◌, Text, is_some,
  arith, all, any, ◌∙◌,
}
use macula_mcp.Presence.{
  Op, stop, idle, Presence, PresenceState, stop_now, next_turn, proceed, Event, says_hello,
  says_goodbye, proceeds, ensure_presence, step, run,
}

abbrev pub is_hello : Event → Bool
is_hello (says_hello args) = true
is_hello _ = false

abbrev is_stop : Op → Bool
is_stop stop = true
is_stop _ = false

-- Gone, marked as gone, and with nothing but goodbyes in the mailbox.
abbrev pub has_left : Presence → Bool
has_left p =
    p.explicitly_left
    && not (is_some p.state)
    && all is_stop p.mailbox
    && elim p.turn [ idle ↦ true | _ ↦ false ]

all-stop-append : (ops : List Op) → all is_stop ops ≡ true → all is_stop (ops ++ stop ∷ []) ≡ true
all-stop-append [] h = refl
all-stop-append (o ∷ os) h = ground (arith, all-stop-append os)

-- The subscriptions to hellos and to goodbyes, and the timers of the heartbeat and the renewal.
abbrev pub handles : Presence → ℕ × (ℕ × (ℕ × ℕ))
handles p = (p.hello, (p.goodbye, (p.heartbeats, p.renewals)))

module _ (me : Text) where
  step-has_left :
      (e : Event) (p : Presence)
      → is_hello e ≡ false
      → has_left p ≡ true
      → (has_left (step me e p) ≡ true) × (handles (step me e p) ≡ handles p)
  unfolding step proceed stop_now next_turn ensure_presence
  step-has_left e p b h = ground (arith, all-stop-append p.mailbox)

  run-has_left :
      (es : List Event) (p : Presence)
      → any is_hello es ≡ false
      → has_left p ≡ true
      → (has_left (run me es p) ≡ true) × (handles (run me es p) ≡ handles p)
  unfolding run
  run-has_left [] p b h = (h, refl)
  run-has_left (e ∷ es) p b h =
      let (left, kept) = step-has_left e p (ground arith) h in
      let (end, same) = run-has_left es (step me e p) (ground arith) left in (end, same ∙ kept)

  goodbye-has_left :
      (p : Presence) (s : PresenceState) (said done : Bool)
      → p.turn ≡ idle
      → p.mailbox ≡ []
      → p.state ≡ some s
      → let left = run me (says_goodbye ∷ proceeds said ∷ proceeds done ∷ []) p in
        (has_left left ≡ true)
        × (handles left ≡ (p.hello - 1, (p.goodbye - 1, (p.heartbeats - 1, p.renewals - 1))))
  unfolding run step proceed stop_now next_turn
  goodbye-has_left p s said done free empty there = ground arith

  -- A goodbye is honoured until an explicit hello: a present process with an idle and empty mailbox
  -- that says goodbye and gets through the two parts of that turn undisturbed, whether or not the
  -- mesh takes its goodbye, has one subscription fewer to each topic and neither timer, and no
  -- sequence of touches, goodbyes and parts of turns makes it present, subscribe or beat again.
  pub run-goodbye :
      (p : Presence) (s : PresenceState) (said done : Bool) (es : List Event)
      → p.turn ≡ idle
      → p.mailbox ≡ []
      → p.state ≡ some s
      → any is_hello es ≡ false
      → let later = run me (says_goodbye ∷ proceeds said ∷ proceeds done ∷ es) p in
        (later.state ≡ none)
        × (handles later ≡ (p.hello - 1, (p.goodbye - 1, (p.heartbeats - 1, p.renewals - 1))))
  unfolding run
  run-goodbye p s said done es free empty there b =
      let left = run me (says_goodbye ∷ proceeds said ∷ proceeds done ∷ []) p in
      let (gone, held) = goodbye-has_left p s said done free empty there in
      let (end, same) = run-has_left es left b gone in (ground arith, same ∙ held)
