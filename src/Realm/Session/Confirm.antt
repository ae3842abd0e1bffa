-- ===== src/Realm/Session/Confirm.antt =====
-- src/realm.ts: a session that a person has confirmed, while its credential cannot be stored yet.
use macula_mcp.Base.{
  ℕ, ◌≡◌, refl, Bool, true, false, ◌&&◌, Option, none, some, List, [], ◌∷◌, ◌++◌, Text, any, arith,
}
use macula_mcp.Json.{Value}
use macula_mcp.Realm.{
  RealmDisk, RealmCredential, StoreIo, stored, threw, landed, load_credential, store_credential,
  store_membership, keeps_what_is_stored,
}
use macula_mcp.Realm.Stored.{load-write_self}
use macula_mcp.Realm.Replies.{Confirmed, parse_session_status, confirmed}
use macula_mcp.Realm.Session.{
  Pending, idle, JoinState, clear_pending, credential_of, poll_pending, apply_poll_outcome,
  poll_answered, confirmed_join, Event, polls, answers, stores, handle, run,
}

abbrev pub lets_store : StoreIo → Bool
lets_store io = io.locks && io.writes

store_credential-threw :
    (io : StoreIo) (now : ℕ) (cred : RealmCredential) (realm : Text) (disk : RealmDisk)
    → lets_store io ≡ false
    → store_credential io now cred realm disk ≡ (disk, threw)
unfolding store_credential store_membership keeps_what_is_stored
store_credential-threw io now cred realm disk h = ground arith

store_credential-landed :
    (io : StoreIo) (now : ℕ) (cred : RealmCredential) (realm : Text) (disk : RealmDisk)
    → lets_store io ≡ true
    → store_credential io now cred realm disk ≡ (landed io now cred realm disk, stored)
unfolding store_credential store_membership keeps_what_is_stored
store_credential-landed io now cred realm disk h = ground arith

module _ (parse_date : Option Value → Option ℕ) (portal message : Text) (body : Value) where
  -- A poll that the realm answers with `body`, and the store of what it confirms.
  abbrev pub round : ℕ × StoreIo → List Event
  round (now, io) = polls ∷ answers now 200 body ∷ stores io message now ∷ []

  abbrev pub rounds : List (ℕ × StoreIo) → List Event → List Event
  rounds [] rest = rest
  rounds (r ∷ rs) rest = round r ++ rounds rs rest

  abbrev pub IsWaiting : Pending → JoinState → Type 0
  IsWaiting p s = (s.turn ≡ idle) × (s.pending ≡ some p)

  round-waits :
      (p : Pending) (c : Confirmed) (r : ℕ × StoreIo) (s : JoinState)
      → parse_session_status 200 body ≡ confirmed c
      → lets_store r.1 ≡ false
      → IsWaiting p s
      → IsWaiting p (run parse_date portal (round r) s)
  unfolding run handle poll_pending poll_answered apply_poll_outcome confirmed_join
  round-waits p c (now, io) s told fails (free, there) = ground (
    arith,
    told,
    store_credential-threw io now (credential_of parse_date portal now p c) p.realm s.disk fails,
  )

  round-stores :
      (p : Pending) (c : Confirmed) (now : ℕ) (io : StoreIo) (s : JoinState)
      → parse_session_status 200 body ≡ confirmed c
      → lets_store io ≡ true
      → IsWaiting p s
      → let s' = run parse_date portal (round (now, io)) s in
        (s'.pending ≡ none)
        × (load_credential p.node_id p.realm s'.disk.files
            ≡ some (credential_of parse_date portal now p c))
  unfolding run handle poll_pending poll_answered apply_poll_outcome confirmed_join clear_pending
      landed
  round-stores p c now io s told succeeds (free, there) =
      let cred = credential_of parse_date portal now p c in
      ground (
        arith,
        told,
        store_credential-landed io now cred p.realm s.disk succeeds,
        load-write_self p.node_id p.realm cred s.disk.files,
      )

  run-append :
      (xs ys : List Event) (s : JoinState)
      → run parse_date portal (xs ++ ys) s ≡ run parse_date portal ys (run parse_date portal xs s)
  unfolding run
  run-append [] ys s = refl
  run-append (x ∷ xs) ys s = run-append xs ys (handle parse_date portal x s.turn s)

  -- A membership that a person has confirmed is not lost to a store that fails: while the realm
  -- answers each poll with the confirmation and nobody begins or abandons, any number of polls
  -- whose store loses the lock or cannot write, followed by one whose store can, end with the
  -- session cleared and the confirmed citizen credential on file for its node and in its realm.
  pub run-confirmed :
      (p : Pending) (c : Confirmed) (failing : List (ℕ × StoreIo)) (now : ℕ) (io : StoreIo)
      (s : JoinState)
      → parse_session_status 200 body ≡ confirmed c
      → any (λ r. lets_store r.1) failing ≡ false
      → lets_store io ≡ true
      → IsWaiting p s
      → let s' = run parse_date portal (rounds failing (round (now, io))) s in
        (s'.pending ≡ none)
        × (load_credential p.node_id p.realm s'.disk.files
            ≡ some (credential_of parse_date portal now p c))
  run-confirmed p c [] now io s told fails succeeds w = round-stores p c now io s told succeeds w
  run-confirmed p c (r ∷ rs) now io s told fails succeeds w =
      rw (run-append (round r) (rounds rs (round (now, io))) s) (
        run-confirmed p c rs now io (run parse_date portal (round r) s) told (ground arith) succeeds
          (round-waits p c r s told (ground arith) w))
