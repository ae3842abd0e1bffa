-- ===== src/Realm/Announced.antt =====
-- src/realm.ts: the joins that the node event log holds.
use macula_mcp.Base.{
  ℕ, ◌≡◌, refl, Bool, true, false, ◌&&◌, inl, inr, Option, none, some, List, [], ◌∷◌, ◌++◌, Text,
  same, same_iff, first_some, All, arith, Bool-cases, if◌then◌else◌, to_lower_case,
}
use macula_mcp.NodeEvents.{NodeEvent, EventKind, append_node_event, join_confirmed}
use macula_mcp.Realm.{
  RealmCredential, RealmDisk, load_credential, tier_name, join_event, record_join_confirmed,
  is_new_membership, StoreIo, StorePolicy, landed, StoreResult, store_membership, store_credential,
  store_credential_unless_weaker, store_renewal, Store, joins, auto_joins, renews, apply, run,
  replace, unless_weaker, renewal,
}
use macula_mcp.Realm.Stored.{
  load-write_credential_file, Effect, unchanged, written, store_membership-Effect,
}

abbrev is_join : EventKind → Bool
is_join join_confirmed = true
is_join _ = false

abbrev is_text : Option Text → Text → Bool
is_text none t = false
is_text (some s) t = same s t

abbrev is_join_of : Text → Text → NodeEvent → Bool
is_join_of node realm e = is_join e.kind && same e.self node && is_text e.realm realm

-- What the last join of a node in a realm says: the identity and the tier.
unfoldable pub last_join : Text → Text → List NodeEvent → Option (Option Text × Option Text)
last_join node realm [] = none
last_join node realm (e ∷ es) =
    first_some (last_join node realm es)
      (if is_join_of node realm e then some (e.org_identity, e.tier) else none)

last_join-append :
    (node realm : Text) (e : NodeEvent) (es : List NodeEvent)
    → last_join node realm (es ++ e ∷ [])
      ≡ (if is_join_of node realm e then some (e.org_identity, e.tier) else last_join node realm es)
unfolding last_join
last_join-append node realm e [] = ground arith
last_join-append node realm e (x ∷ xs) = ground (arith, last_join-append node realm e xs)

-- Each credential of the disk is what the log's last join of its node and realm says.
abbrev pub IsAnnounced : RealmDisk → Type 0
IsAnnounced disk =
    (node realm : Text) (c : RealmCredential)
    → load_credential node realm disk.files ≡ some c
    → last_join node realm disk.log.events ≡ some (some c.org_identity, some (tier_name c.tier))

-- The node ids of a history as the program writes them, in lower case, and a log that opens.
abbrev pub IsLogged : Store → Type 0
IsLogged (joins io now cred realm) =
    (to_lower_case cred.node_id ≡ cred.node_id) × (io.log_opens ≡ true)
IsLogged (auto_joins io now cred realm) =
    (to_lower_case cred.node_id ≡ cred.node_id) × (io.log_opens ≡ true)
IsLogged (renews io now held renewed) =
    (to_lower_case renewed.node_id ≡ renewed.node_id) × (io.log_opens ≡ true)

landed-log :
    (n r : Text) (io : StoreIo) (now : ℕ) (cred : RealmCredential) (realm : Text) (disk : RealmDisk)
    → to_lower_case cred.node_id ≡ cred.node_id
    → io.log_opens ≡ true
    → last_join n r (landed io now cred realm disk).log.events ≡ (
        if is_new_membership (load_credential cred.node_id realm disk.files) cred
          && (same cred.node_id n && same realm r)
        then some (some cred.org_identity, some (tier_name cred.tier))
        else last_join n r disk.log.events)
unfolding landed record_join_confirmed append_node_event
landed-log n r io now cred realm disk low opens =
    let news = record (join_event cred realm now) {
      seq = disk.log.next_seq;
      self = to_lower_case cred.node_id;
    } in
    ground (arith, last_join-append n r news disk.log.events, low, opens)

-- What the log says of a credential.
abbrev announcement : RealmCredential → Option (Option Text × Option Text)
announcement c = some (some c.org_identity, some (tier_name c.tier))

old_news :
    (before : Option RealmCredential) (cred : RealmCredential)
    → is_new_membership before cred ≡ false
    → (held : RealmCredential) × (before ≡ some held) × (announcement held ≡ announcement cred)
unfolding is_new_membership
old_news none cred h = cc
old_news (some held) cred h =
    (held, refl, ground (arith, same_iff held.org_identity cred.org_identity))

load-landed :
    (n r : Text) (io : StoreIo) (now : ℕ) (cred : RealmCredential) (realm : Text) (disk : RealmDisk)
    → load_credential n r (landed io now cred realm disk).files
      ≡ (if same cred.node_id n && same realm r then some cred else load_credential n r disk.files)
unfolding landed
load-landed n r io now cred realm disk =
    load-write_credential_file n r cred.node_id realm cred disk.files

landed-IsAnnounced :
    (n r : Text) (io : StoreIo) (now : ℕ) (cred : RealmCredential) (realm : Text) (disk : RealmDisk)
    → to_lower_case cred.node_id ≡ cred.node_id
    → io.log_opens ≡ true
    → IsAnnounced disk
    → (c : RealmCredential) → load_credential n r (landed io now cred realm disk).files ≡ some c
    → last_join n r (landed io now cred realm disk).log.events ≡ announcement c
landed-IsAnnounced n r io now cred realm disk low opens h c e =
    let log = landed-log n r io now cred realm disk low opens in
    let files = load-landed n r io now cred realm disk in
    elim (Bool-cases (same cred.node_id n && same realm r)) [
      | inr miss ↦ ground (arith, log, files, h n r c)
      | inl hit ↦
          elim (Bool-cases
            (is_new_membership (load_credential cred.node_id realm disk.files) cred)) [
              | inl new ↦ ground (arith, log, files)
              | inr old ↦
                  let (held, there, told) =
                    old_news (load_credential cred.node_id realm disk.files) cred old in
                  ground (
                    arith,
                    log,
                    files,
                    told,
                    h cred.node_id realm held there,
                    same_iff cred.node_id n,
                    same_iff realm r,
                  )
            ]
    ]

Effect-IsAnnounced :
    (io : StoreIo) (now : ℕ) (cred : RealmCredential) (realm : Text) (policy : StorePolicy)
    (disk : RealmDisk)
    → to_lower_case cred.node_id ≡ cred.node_id
    → io.log_opens ≡ true
    → IsAnnounced disk
    → {after : RealmDisk × StoreResult} → Effect io now cred realm policy disk after
    → IsAnnounced after.0
Effect-IsAnnounced io now cred realm policy disk low opens h (unchanged result) = h
Effect-IsAnnounced io now cred realm policy disk low opens h (written weaker) =
    λ n r c e. landed-IsAnnounced n r io now cred realm disk low opens h c e

store_membership-IsAnnounced :
    (io : StoreIo) (now : ℕ) (cred : RealmCredential) (realm : Text) (policy : StorePolicy)
    (disk : RealmDisk)
    → to_lower_case cred.node_id ≡ cred.node_id
    → io.log_opens ≡ true
    → IsAnnounced disk
    → IsAnnounced (store_membership io now cred realm policy disk).0
store_membership-IsAnnounced io now cred realm policy disk low opens h =
    Effect-IsAnnounced io now cred realm policy disk low opens h
      (store_membership-Effect io now cred realm policy disk)

apply-IsAnnounced :
    (s : Store) (disk : RealmDisk) → IsLogged s → IsAnnounced disk → IsAnnounced (apply s disk)
unfolding apply store_credential store_credential_unless_weaker store_renewal
apply-IsAnnounced (joins io now cred realm) disk (low, opens) h =
    store_membership-IsAnnounced io now cred realm replace disk low opens h
apply-IsAnnounced (auto_joins io now cred realm) disk (low, opens) h =
    store_membership-IsAnnounced io now cred realm unless_weaker disk low opens h
apply-IsAnnounced (renews io now held renewed) disk (low, opens) h =
    store_membership-IsAnnounced io now renewed held.realm (renewal held.credential.tier) disk low
      opens h

run-IsAnnounced :
    (stores : List Store) (disk : RealmDisk)
    → All IsLogged stores
    → IsAnnounced disk
    → IsAnnounced (run stores disk)
unfolding run
run-IsAnnounced [] disk l h = h
run-IsAnnounced (s ∷ ss) disk (l, ls) h =
    run-IsAnnounced ss (apply s disk) ls (apply-IsAnnounced s disk l h)

-- When the directory and the log agree, in that each credential on file is what the log's last
-- `join_confirmed` of its node and realm says (its organisation identity and its tier), they agree
-- after every sequence of joins, silent joins and renewals by any of the machine's processes,
-- whichever of them lose the lock or fail to write, as long as the log opens and node ids are in
-- lower case: no membership is on file that was not announced.
pub run-last_join :
    (stores : List Store) (disk : RealmDisk) (node realm : Text) (c : RealmCredential)
    → All IsLogged stores
    → IsAnnounced disk
    → load_credential node realm (run stores disk).files ≡ some c
    → last_join node realm (run stores disk).log.events
      ≡ some (some c.org_identity, some (tier_name c.tier))
run-last_join stores disk node realm c l h there =
    run-IsAnnounced stores disk l h node realm c there
