-- ===== src/Realm/Citizen.antt =====
-- src/realm.ts: the tier of a stored credential over the stores of all processes.
use macula_mcp.Base.{
  ℕ, ◌≡◌, Bool, true, false, not, ◌||◌, ◌&&◌, inl, inr, Option, none, some, List, [], ◌∷◌, Text,
  same, same_iff, all, arith, Bool-cases, ◌==◌,
}
use macula_mcp.Realm.{
  RealmCredential, RealmDisk, load_credential, tier_rank, StoreIo, StorePolicy, replace,
  unless_weaker, renewal, keeps_what_is_stored, landed, StoreResult, store_membership,
  store_credential, store_credential_unless_weaker, store_renewal, Store, joins, auto_joins, renews,
  apply, run,
}
use macula_mcp.Realm.Stored.{
  load-write_credential_file, Effect, unchanged, written, store_membership-Effect,
}

abbrev pub is_citizen : RealmCredential → Bool
is_citizen c = tier_rank c.tier == 2

abbrev pub holds : Option RealmCredential → Bool
holds none = false
holds (some c) = is_citizen c

abbrev pub holds_citizen : Text → Text → RealmDisk → Bool
holds_citizen n r disk = holds (load_credential n r disk.files)

-- A join that a person confirmed, any silent join, and a renewal that was read from a device
-- membership or comes back as a citizen one.
abbrev pub never_lowers : Store → Bool
never_lowers (joins io now cred realm) = is_citizen cred
never_lowers (auto_joins io now cred realm) = true
never_lowers (renews io now held renewed) = not (is_citizen held.credential) || is_citizen renewed

-- A policy that keeps a citizen credential from a device one.
abbrev Guards : StorePolicy → RealmCredential → Type 0
Guards policy cred =
    (held : RealmCredential)
    → is_citizen held ≡ true
    → is_citizen cred ≡ false
    → keeps_what_is_stored policy (some held) cred ≡ true

overwrites :
    (policy : StorePolicy) (cred : RealmCredential) (o : Option RealmCredential)
    → Guards policy cred
    → holds o ≡ true
    → keeps_what_is_stored policy o cred ≡ false
    → is_citizen cred ≡ true
overwrites policy cred (some held) guards u weaker = elim (Bool-cases (is_citizen cred)) [
  | inl c ↦ c
  | inr d ↦ let k = guards held u d in cc
]
overwrites policy cred none guards u weaker = cc

Effect-holds_citizen :
    (n r : Text) (io : StoreIo) (now : ℕ) (cred : RealmCredential) (realm : Text)
    (policy : StorePolicy) (disk : RealmDisk)
    → Guards policy cred
    → holds_citizen n r disk ≡ true
    → {after : RealmDisk × StoreResult} → Effect io now cred realm policy disk after
    → holds_citizen n r after.0 ≡ true
unfolding landed
Effect-holds_citizen n r io now cred realm policy disk guards h (unchanged result) = h
Effect-holds_citizen n r io now cred realm policy disk guards h (written weaker) =
    elim (Bool-cases (same cred.node_id n && same realm r)) [
      | inr miss ↦
          rw (load-write_credential_file n r cred.node_id realm cred disk.files, miss, landed) h
      | inl hit ↦ ground (
        arith,
        load-write_credential_file n r cred.node_id realm cred disk.files,
        same_iff cred.node_id n,
        same_iff realm r,
        overwrites policy cred (load_credential cred.node_id realm disk.files) guards,
      )
    ]

store_membership-holds_citizen :
    (n r : Text) (io : StoreIo) (now : ℕ) (cred : RealmCredential) (realm : Text)
    (policy : StorePolicy) (disk : RealmDisk)
    → Guards policy cred
    → holds_citizen n r disk ≡ true
    → holds_citizen n r (store_membership io now cred realm policy disk).0 ≡ true
store_membership-holds_citizen n r io now cred realm policy disk guards h =
    Effect-holds_citizen n r io now cred realm policy disk guards h
      (store_membership-Effect io now cred realm policy disk)

pub apply-holds_citizen :
    (n r : Text) (s : Store) (disk : RealmDisk)
    → never_lowers s ≡ true
    → holds_citizen n r disk ≡ true
    → holds_citizen n r (apply s disk) ≡ true
unfolding apply store_credential store_credential_unless_weaker store_renewal keeps_what_is_stored
apply-holds_citizen n r (joins io now cred realm) disk c h =
    store_membership-holds_citizen n r io now cred realm replace disk (λ held u v. cc) h
apply-holds_citizen n r (auto_joins io now cred realm) disk c h =
    store_membership-holds_citizen n r io now cred realm unless_weaker disk
      (λ held u v. ground arith) h
apply-holds_citizen n r (renews io now held renewed) disk c h =
    store_membership-holds_citizen n r io now renewed held.realm (renewal held.credential.tier) disk
      (λ there u v. ground arith) h

-- Once the file of a node in a realm holds a citizen credential it holds one after every sequence
-- of stores by any of the machine's processes, of any nodes and realms and whatever the lock, the
-- file system and the log answer, as long as each join that replaces what is stored is a citizen
-- one, and each renewal was read from a device membership or brings a citizen one.
pub run-holds_citizen :
    (n r : Text) (stores : List Store) (disk : RealmDisk)
    → all never_lowers stores ≡ true
    → holds_citizen n r disk ≡ true
    → holds_citizen n r (run stores disk) ≡ true
unfolding run
run-holds_citizen n r [] disk c h = h
run-holds_citizen n r (s ∷ ss) disk c h =
    run-holds_citizen n r ss (apply s disk) (ground arith)
      (apply-holds_citizen n r s disk (ground arith) h)
