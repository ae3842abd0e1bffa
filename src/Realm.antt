-- ===== src/Realm.antt =====
-- src/realm.ts: the credential files of a machine's realms and the one writer of them. A file is what
-- a read of it gives, so a file that holds no credential holds `none`.
pub mod Stored
pub mod Announced
pub mod Citizen
pub mod Replies
pub mod Renewal
pub mod Session
use macula_mcp.Base.{
  ℕ, ◌≡◌, Bool, true, false, not, ◌&&◌, ◌||◌, Option, none, some, List, [], ◌∷◌, Text, codes, same,
  find, any, ltb, leb, ◌==◌, if◌then◌else◌,
}
use macula_mcp.NodeEvents.{NodeEvent, EventLog, append_node_event, join_confirmed}

pub data RealmTier : Type 0 where
  device citizen : RealmTier

pub record RealmCredential : Type 0 where
  pub node_id : Text
  pub portal : Text
  pub org_identity : Text
  pub account : Option Text
  pub cert_pem : Option Text
  pub refresh_token : Text
  pub joined_at : ℕ
  pub citizen_did : Option Text
  pub ucan : Option Text
  pub tier : RealmTier

-- `<realmDir>/<node_id>/<realm>.json`
pub record CredentialFile : Type 0 where
  pub node_id : Text
  pub realm : Text
  pub contents : Option RealmCredential

abbrev pub credential_path : Text → Text → CredentialFile → Bool
credential_path node realm f = same f.node_id node && same f.realm realm

-- The directory, and the node event log that joins are recorded in.
pub record RealmDisk : Type 0 where
  pub files : List CredentialFile
  pub log : EventLog

abbrev contents_of : Option CredentialFile → Option RealmCredential
contents_of none = none
contents_of (some f) = f.contents

unfoldable pub load_credential : Text → Text → List CredentialFile → Option RealmCredential
load_credential node realm files = contents_of (find (credential_path node realm) files)

unfoldable pub write_credential_file :
    Text → Text → RealmCredential → List CredentialFile → List CredentialFile
write_credential_file node realm cred [] =
    record { node_id = node; realm = realm; contents = some cred } ∷ []
write_credential_file node realm cred (f ∷ fs) =
    let rest = write_credential_file node realm cred fs in
    if credential_path node realm f then record f { contents = some cred } ∷ fs else f ∷ rest

pub record RealmMembership : Type 0 where
  pub realm : Text
  pub credential : RealmCredential

unfoldable pub list_credentials : Text → List CredentialFile → List RealmMembership
list_credentials node [] = []
list_credentials node (f ∷ fs) =
    let rest = list_credentials node fs in
    if same f.node_id node
    then elim f.contents [
      | none ↦ rest
      | some c ↦ record { realm = f.realm; credential = c } ∷ rest
    ]
    else rest

abbrev pub tier_rank : RealmTier → ℕ
tier_rank citizen = 2
tier_rank device = 1

abbrev pub tier_name : RealmTier → Text
tier_name citizen = codes "citizen"
tier_name device = codes "device"

-- before.org_identity !== cred.org_identity || before.tier !== cred.tier
unfoldable pub is_new_membership : Option RealmCredential → RealmCredential → Bool
is_new_membership none cred = true
is_new_membership (some before) cred =
    not (same before.org_identity cred.org_identity)
    || not (tier_rank before.tier == tier_rank cred.tier)

abbrev pub join_event : RealmCredential → Text → ℕ → NodeEvent
join_event cred realm now = record {
  seq = 0;
  self = cred.node_id;
  kind = join_confirmed;
  at = now;
  ring_id = none;
  direction = none;
  peer = none;
  purpose = none;
  room_topic = none;
  answer = none;
  reason = none;
  realm = some realm;
  org_identity = some cred.org_identity;
  tier = some (tier_name cred.tier);
}

-- What the lock, the file system and the log make of one store: whether each of them succeeds.
pub record StoreIo : Type 0 where
  pub locks : Bool
  pub writes : Bool
  pub log_opens : Bool

unfoldable pub record_join_confirmed : StoreIo → ℕ → RealmCredential → Text → EventLog → EventLog
record_join_confirmed io now cred realm log =
    if io.log_opens then append_node_event (join_event cred realm now) log else log

pub data StorePolicy : Type 0 where
  replace unless_weaker : StorePolicy
  renewal : (renewed_from : RealmTier) → StorePolicy

unfoldable pub keeps_what_is_stored : StorePolicy → Option RealmCredential → RealmCredential → Bool
keeps_what_is_stored policy none cred = false
keeps_what_is_stored replace (some held) cred = false
keeps_what_is_stored unless_weaker (some held) cred =
    ltb (tier_rank cred.tier) (tier_rank held.tier)
keeps_what_is_stored (renewal renewed_from) (some held) cred =
    not (leb (tier_rank held.tier) (tier_rank renewed_from))

-- The path, undefined, or an exception.
pub data StoreResult : Type 0 where
  stored kept threw : StoreResult

-- The disk once the write under the lock is done.
unfoldable pub landed : StoreIo → ℕ → RealmCredential → Text → RealmDisk → RealmDisk
landed io now cred realm disk = record {
  files = write_credential_file cred.node_id realm cred disk.files;
  log =
      if is_new_membership (load_credential cred.node_id realm disk.files) cred
      then record_join_confirmed io now cred realm disk.log
      else disk.log;
}

unfoldable pub store_membership :
    StoreIo → ℕ → RealmCredential → Text → StorePolicy → RealmDisk → RealmDisk × StoreResult
store_membership io now cred realm policy disk =
    let held = load_credential cred.node_id realm disk.files in
    if not io.locks
    then (disk, threw)
    else if keeps_what_is_stored policy held cred
    then (disk, kept)
    else if not io.writes
    then (disk, threw)
    else (landed io now cred realm disk, stored)

unfoldable pub store_credential :
    StoreIo → ℕ → RealmCredential → Text → RealmDisk → RealmDisk × StoreResult
store_credential io now cred realm disk = store_membership io now cred realm replace disk

unfoldable pub store_credential_unless_weaker :
    StoreIo → ℕ → RealmCredential → Text → RealmDisk → RealmDisk × StoreResult
store_credential_unless_weaker io now cred realm disk =
    store_membership io now cred realm unless_weaker disk

unfoldable pub store_renewal :
    StoreIo → ℕ → RealmMembership → RealmCredential → RealmDisk → RealmDisk × StoreResult
store_renewal io now held renewed disk =
    store_membership io now renewed held.realm (renewal held.credential.tier) disk

-- One store by any of the processes of the machine, each taken under the lock.
pub data Store : Type 0 where
  joins : StoreIo → ℕ → RealmCredential → (realm : Text) → Store
  auto_joins : StoreIo → ℕ → RealmCredential → (realm : Text) → Store
  renews : StoreIo → ℕ → RealmMembership → RealmCredential → Store

unfoldable pub apply : Store → RealmDisk → RealmDisk
apply (joins io now cred realm) disk = (store_credential io now cred realm disk).0
apply (auto_joins io now cred realm) disk =
    (store_credential_unless_weaker io now cred realm disk).0
apply (renews io now held renewed) disk = (store_renewal io now held renewed disk).0

unfoldable pub run : List Store → RealmDisk → RealmDisk
run [] disk = disk
run (s ∷ ss) disk = run ss (apply s disk)
