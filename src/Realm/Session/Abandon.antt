-- ===== src/Realm/Session/Abandon.antt =====
-- src/realm.ts: what is left of a join session once a person has dropped it.
use macula_mcp.Base.{
  ℕ, ◌≡◌, Bool, true, false, Option, none, some, List, [], ◌∷◌, Text, ltb, leb, any, ◌∙◌, arith,
}
use macula_mcp.Json.{Value}
use macula_mcp.Realm.Session.{
  Pending, Turn, idle, opening, storing, JoinState, clear_pending, abandon, open_join_session,
  session_answered, poll_pending, poll_threw, apply_poll_outcome, poll_answered, confirmed_join,
  Event, begins, handle, run,
}

abbrev pub is_begin : Event → Bool
is_begin (begins now node realm) = true
is_begin _ = false

abbrev pub is_storing : Turn → Bool
is_storing (storing p c) = true
is_storing _ = false

-- A begin that is opening a session took its mark before now.
abbrev is_marked : ℕ → Turn → Bool
is_marked n (opening node realm epoch) = leb epoch n
is_marked n _ = true

-- Nothing is pending, and what the mailbox is in the middle of can make nothing pending.
abbrev is_dropped : ℕ → Turn → Option Pending → Bool
is_dropped n (opening node realm epoch) none = ltb epoch n
is_dropped n (storing p c) none = false
is_dropped n _ none = true
is_dropped n _ (some p) = false

abandon-is_dropped :
    (s : JoinState)
    → is_storing s.turn ≡ false
    → is_marked s.abandon_epoch s.turn ≡ true
    → is_dropped (abandon s).abandon_epoch (abandon s).turn (abandon s).pending ≡ true
unfolding abandon clear_pending
abandon-is_dropped s quiet h = ground arith

module _ (parse_date : Option Value → Option ℕ) (portal : Text) where
  handle-is_marked :
      (e : Event) (s : JoinState)
      → is_marked s.abandon_epoch s.turn ≡ true
      → let s' = handle parse_date portal e s.turn s in is_marked s'.abandon_epoch s'.turn ≡ true
  unfolding handle abandon clear_pending open_join_session session_answered poll_pending poll_threw
      apply_poll_outcome poll_answered confirmed_join
  handle-is_marked e s h = ground arith

  handle-is_dropped :
      (e : Event) (s : JoinState)
      → is_begin e ≡ false
      → is_dropped s.abandon_epoch s.turn s.pending ≡ true
      → let s' = handle parse_date portal e s.turn s in
        (is_dropped s'.abandon_epoch s'.turn s'.pending ≡ true) × (s'.disk ≡ s.disk)
  unfolding handle abandon clear_pending open_join_session session_answered poll_pending poll_threw
      apply_poll_outcome poll_answered confirmed_join
  handle-is_dropped e s b h = ground arith

  run-is_marked :
      (es : List Event) (s : JoinState)
      → is_marked s.abandon_epoch s.turn ≡ true
      → let s' = run parse_date portal es s in is_marked s'.abandon_epoch s'.turn ≡ true
  unfolding run
  run-is_marked [] s h = h
  run-is_marked (e ∷ es) s h =
      run-is_marked es (handle parse_date portal e s.turn s) (handle-is_marked e s h)

  run-is_dropped :
      (es : List Event) (s : JoinState)
      → any is_begin es ≡ false
      → is_dropped s.abandon_epoch s.turn s.pending ≡ true
      → let s' = run parse_date portal es s in (s'.pending ≡ none) × (s'.disk ≡ s.disk)
  unfolding run
  run-is_dropped [] s b h = ground arith
  run-is_dropped (e ∷ es) s b h =
      let (kept, same_disk) = handle-is_dropped e s (ground arith) h in
      let (gone, end) =
        run-is_dropped es (handle parse_date portal e s.turn s) (ground arith) kept in
      (gone, end ∙ same_disk)

  -- From any state in which the mailbox is idle, after any events and then an abandon: unless a
  -- confirmation was being stored at that moment, no later event but a begin makes a session pending
  -- or changes a credential or the log, whether a session was being opened, a poll or nothing was
  -- out when the person stopped, and whatever the realm still answers to it. A begin is the moment
  -- at which openJoinSession has the node's id and takes the abandon epoch: one that was called
  -- before the abandon and still waits for its turn or for the id counts as later.
  pub run-abandon :
      (before after : List Event) (s : JoinState)
      → s.turn ≡ idle
      → is_storing (run parse_date portal before s).turn ≡ false
      → any is_begin after ≡ false
      → let stopped = abandon (run parse_date portal before s) in
        let later = run parse_date portal after stopped in
        (later.pending ≡ none) × (later.disk ≡ stopped.disk)
  run-abandon before after s free quiet b =
      run-is_dropped after (abandon (run parse_date portal before s)) b (
        abandon-is_dropped (run parse_date portal before s) quiet
          (run-is_marked before s (ground arith)))
