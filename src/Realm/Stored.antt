-- ===== src/Realm/Stored.antt =====
-- src/realm.ts: what one store changes of the credential files.
use macula_mcp.Base.{
  ℕ, ◌≡◌, refl, false, ◌&&◌, if◌then◌else◌, inl, inr, some, List, [], ◌∷◌, Text, same, same_refl,
  same_iff, arith, Bool-cases,
}
use macula_mcp.Realm.{
  RealmCredential, CredentialFile, RealmDisk, load_credential, write_credential_file, StoreIo,
  StorePolicy, keeps_what_is_stored, landed, StoreResult, stored, kept, threw, store_membership,
}

pub load-write_self :
    (node realm : Text) (c : RealmCredential) (fs : List CredentialFile)
    → load_credential node realm (write_credential_file node realm c fs) ≡ some c
unfolding load_credential write_credential_file
load-write_self node realm c [] = ground (arith, same_refl node, same_refl realm)
load-write_self node realm c (f ∷ fs) =
    ground (arith, load-write_self node realm c fs, same_refl node, same_refl realm)

pub load-write_other :
    (n r node realm : Text) (c : RealmCredential) (fs : List CredentialFile)
    → (same node n && same realm r) ≡ false
    → load_credential n r (write_credential_file node realm c fs) ≡ load_credential n r fs
unfolding load_credential write_credential_file
load-write_other n r node realm c [] h = ground arith
load-write_other n r node realm c (f ∷ fs) h =
    ground (
      arith,
      load-write_other n r node realm c fs h,
      same_iff f.node_id node,
      same_iff f.realm realm,
    )

pub load-write_credential_file :
    (n r node realm : Text) (c : RealmCredential) (fs : List CredentialFile)
    → load_credential n r (write_credential_file node realm c fs)
      ≡ (if same node n && same realm r then some c else load_credential n r fs)
load-write_credential_file n r node realm c fs = elim (Bool-cases (same node n && same realm r)) [
  | inl hit ↦ ground (arith, load-write_self node realm c fs, same_iff node n, same_iff realm r)
  | inr miss ↦ rw (miss, load-write_other n r node realm c fs miss) refl
]

-- A store throws or keeps and the disk is as it was, or it writes what its policy does not keep.
pub data Effect (io : StoreIo) (now : ℕ) (cred : RealmCredential) (realm : Text)
    (policy : StorePolicy) (disk : RealmDisk) : RealmDisk × StoreResult → Type 0 where
  unchanged : (result : StoreResult) → Effect io now cred realm policy disk (disk, result)
  written :
      keeps_what_is_stored policy (load_credential cred.node_id realm disk.files) cred ≡ false
      → Effect io now cred realm policy disk (landed io now cred realm disk, stored)

pub store_membership-Effect :
    (io : StoreIo) (now : ℕ) (cred : RealmCredential) (realm : Text) (policy : StorePolicy)
    (disk : RealmDisk)
    → Effect io now cred realm policy disk (store_membership io now cred realm policy disk)
unfolding store_membership
store_membership-Effect io now cred realm policy disk = elim (Bool-cases io.locks) [
  | inr busy ↦ rw (busy) (unchanged threw)
  | inl locked ↦
      elim (Bool-cases
        (keeps_what_is_stored policy (load_credential cred.node_id realm disk.files) cred)) [
          | inl stronger ↦ rw (locked, stronger) (unchanged kept)
          | inr weaker ↦ elim (Bool-cases io.writes) [
            | inr full ↦ rw (locked, weaker, full) (unchanged threw)
            | inl done ↦ rw (locked, weaker, done) (written weaker)
          ]
        ]
]
