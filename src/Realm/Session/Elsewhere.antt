-- ===== src/Realm/Session/Elsewhere.antt =====
-- src/realm.ts: which credential files the events of a join session reach.
use macula_mcp.Base.{
  ℕ, ◌≡◌, refl, Bool, false, ◌&&◌, ◌||◌, Option, none, some, List, [], ◌∷◌, Text, any, arith, ◌∙◌,
  same,
}
use macula_mcp.Json.{Value}
use macula_mcp.Realm.{
  RealmDisk, RealmCredential, StoreIo, StoreResult, landed, load_credential, store_credential,
  replace, StorePolicy,
}
use macula_mcp.Realm.Stored.{
  load-write_credential_file, Effect, unchanged, written, store_membership-Effect,
}
use macula_mcp.Realm.Replies.{Confirmed}
use macula_mcp.Realm.Session.{
  Pending, Turn, idle, opening, polling, storing, JoinState, clear_pending, abandon, credential_of,
  open_join_session, session_answered, poll_pending, poll_threw, apply_poll_outcome, poll_answered,
  confirmed_join, Event, begins, stores, handle, run,
}

abbrev pub begins_for : Text → Text → Event → Bool
begins_for n r (begins now node realm) = same node n && same realm r
begins_for n r _ = false

abbrev is_at : Text → Text → Option Pending → Bool
is_at n r none = false
is_at n r (some p) = same p.node_id n && same p.realm r

-- The turn is about the membership of `n` in `r`.
abbrev is_about : Text → Text → Turn → Bool
is_about n r idle = false
is_about n r (opening node realm epoch) = same node n && same realm r
is_about n r (polling p) = same p.node_id n && same p.realm r
is_about n r (storing p c) = same p.node_id n && same p.realm r

abbrev pub reaches : Text → Text → JoinState → Bool
reaches n r s = is_at n r s.pending || is_about n r s.turn

Effect-elsewhere :
    (n r : Text) (io : StoreIo) (now : ℕ) (cred : RealmCredential) (realm : Text)
    (policy : StorePolicy) (disk : RealmDisk)
    → (same cred.node_id n && same realm r) ≡ false
    → {after : RealmDisk × StoreResult} → Effect io now cred realm policy disk after
    → load_credential n r after.0.files ≡ load_credential n r disk.files
unfolding landed
Effect-elsewhere n r io now cred realm policy disk miss (unchanged result) = refl
Effect-elsewhere n r io now cred realm policy disk miss (written weaker) =
    rw (load-write_credential_file n r cred.node_id realm cred disk.files, miss) refl

store_credential-elsewhere :
    (n r : Text) (io : StoreIo) (now : ℕ) (cred : RealmCredential) (realm : Text) (disk : RealmDisk)
    → (same cred.node_id n && same realm r) ≡ false
    → load_credential n r (store_credential io now cred realm disk).0.files
      ≡ load_credential n r disk.files
unfolding store_credential
store_credential-elsewhere n r io now cred realm disk miss =
    Effect-elsewhere n r io now cred realm replace disk miss
      (store_membership-Effect io now cred realm replace disk)

module _ (parse_date : Option Value → Option ℕ) (portal : Text) where
  confirmed_join-elsewhere :
      (n r : Text) (io : StoreIo) (message : Text) (now : ℕ) (p : Pending) (c : Confirmed)
      (s : JoinState)
      → (same p.node_id n && same p.realm r) ≡ false
      → is_at n r s.pending ≡ false
      → let s' = confirmed_join parse_date portal io message now p c s in
        (reaches n r s' ≡ false)
        × (load_credential n r s'.disk.files ≡ load_credential n r s.disk.files)
  unfolding confirmed_join clear_pending
  confirmed_join-elsewhere n r io message now p c s away h = ground (
    arith,
    store_credential-elsewhere n r io now (credential_of parse_date portal now p c) p.realm s.disk,
  )

  handle-elsewhere :
      (n r : Text) (e : Event) (turn : Turn) (s : JoinState)
      → begins_for n r e ≡ false
      → turn ≡ s.turn
      → reaches n r s ≡ false
      → let s' = handle parse_date portal e turn s in
        (reaches n r s' ≡ false)
        × (load_credential n r s'.disk.files ≡ load_credential n r s.disk.files)
  unfolding handle abandon clear_pending open_join_session session_answered poll_pending poll_threw
      apply_poll_outcome poll_answered
  handle-elsewhere n r (stores io message now) (storing p c) s b e h =
      confirmed_join-elsewhere n r io message now p c s (ground arith) (ground arith)
  handle-elsewhere n r e turn s b eq h = ground arith

  -- A membership of node `n` in realm `r` that no session of this process is about keeps its
  -- credential through every sequence of events in which no begin is for `n` in `r`: a confirmation
  -- is stored for the node and in the realm that its own session was opened for, and nowhere else.
  pub run-elsewhere :
      (n r : Text) (es : List Event) (s : JoinState)
      → any (begins_for n r) es ≡ false
      → reaches n r s ≡ false
      → load_credential n r (run parse_date portal es s).disk.files
        ≡ load_credential n r s.disk.files
  unfolding run
  run-elsewhere n r [] s b h = refl
  run-elsewhere n r (e ∷ es) s b h =
      let (away, kept) = handle-elsewhere n r e s.turn s (ground arith) refl h in
      run-elsewhere n r es (handle parse_date portal e s.turn s) (ground arith) away ∙ kept
