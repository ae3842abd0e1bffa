-- ===== src/Realm/Renewal.antt =====
-- src/be_present/device_membership.ts: the silent join and the renewals, on the credential store. A
-- token's claims are decoded by libraries, and so is a reply that is hexadecimal twice; a join is
-- what the realm answered, or none when it failed. An expiry that is no integer is left out.
use macula_mcp.Base.{
  ℕ, ◌+◌, ◌≡◌, refl, Bool, true, false, ◌||◌, Option, none, some, List, [], ◌∷◌, ◌++◌, Text, codes,
  same, trim, starts_with, ltb, all, drop, if◌then◌else◌, to_lower_case, is_some, Bool-cases, inl,
  inr,
}
use macula_mcp.Json.{Value, nat, arr, Items, nil, cons, Fields, get, as_text}
use macula_mcp.Realm.{
  RealmTier, citizen, device, RealmCredential, RealmMembership, RealmDisk, StoreIo, load_credential,
  list_credentials, Store, auto_joins, renews, apply, run,
}
use macula_mcp.Realm.Replies.{fields_of}
use macula_mcp.Realm.Citizen.{holds_citizen, never_lowers, apply-holds_citizen, run-holds_citizen}

abbrev pub renew_before_seconds : ℕ
renew_before_seconds = 3000

-- MACULA_MCP_AUTOJOIN_REALM
unfoldable pub auto_join_realm_name : Option Text → Option Text
auto_join_realm_name none = none
auto_join_realm_name (some v) = elim (trim v) [ [] ↦ none | c ∷ s ↦ some (c ∷ s) ]

pub data UcanReply : Type 0 where
  minted : (citizen_did ucan : Text) → UcanReply
  refused_with : (error : Text) → UcanReply
  unexpected : UcanReply

module _ (decode_hex : Text → Text) where
  unfoldable pub unwrap_double_hex_text : Text → Text
  unwrap_double_hex_text v = if starts_with (codes "0x") v then decode_hex (drop 2 v) else v

  abbrev minted_in : Option Text → Option Text → UcanReply
  minted_in (some did) (some ucan) =
      minted (unwrap_double_hex_text did) (unwrap_double_hex_text ucan)
  minted_in _ _ = unexpected

  unfoldable pub parse_membership_ucan_result : Value → UcanReply
  parse_membership_ucan_result payload = elim (as_text (get (codes "error") (fields_of payload))) [
    | some e ↦ refused_with e
    | none ↦
        minted_in (as_text (get (codes "citizen_did") (fields_of payload)))
          (as_text (get (codes "ucan") (fields_of payload)))
  ]

module _ (claims_of : Text → Option Fields) where
  abbrev expiry_in : Option Value → Option ℕ
  expiry_in (some (nat n)) = some n
  expiry_in _ = none

  unfoldable pub token_expiry : Text → Option ℕ
  token_expiry ucan = elim (claims_of ucan) [
    | none ↦ none
    | some claims ↦ expiry_in (get (codes "exp") claims)
  ]

  abbrev grants_email_verified : Value → Bool
  grants_email_verified c = elim (as_text (get (codes "can") (fields_of c))) [
    | none ↦ false
    | some can ↦ same can (codes "member/email-verified")
  ]

  abbrev some_grant : Items → Bool
  some_grant nil = false
  some_grant (cons c cs) = grants_email_verified c || some_grant cs

  abbrev tier_in : Option Value → RealmTier
  tier_in (some (arr caps)) = if some_grant caps then citizen else device
  tier_in _ = device

  unfoldable pub tier_of : Text → RealmTier
  tier_of ucan = elim (claims_of ucan) [
    | none ↦ device
    | some claims ↦ tier_in (get (codes "cap") claims)
  ]

  unfoldable pub runs_out_soon : Option Text → ℕ → Bool
  runs_out_soon none now_seconds = false
  runs_out_soon (some ucan) now_seconds = elim (token_expiry ucan) [
    | none ↦ false
    | some exp ↦ ltb exp (now_seconds + renew_before_seconds)
  ]

  -- joinDevice, once the realm has minted a token for `citizen_did`.
  unfoldable pub join_device : Text → Text → ℕ → UcanReply → Option RealmCredential
  join_device me realm now (minted citizen_did ucan) =
      if same (to_lower_case citizen_did) me
      then some (record {
        node_id = me;
        portal = realm;
        org_identity = codes "mri:org:" ++ realm;
        account = none;
        cert_pem = none;
        refresh_token = [];
        joined_at = now;
        citizen_did = some citizen_did;
        ucan = some ucan;
        tier = tier_of ucan;
      })
      else none
  join_device me realm now _ = none

  -- What one renewal stores.
  abbrev pub renewed : RealmMembership → RealmCredential → RealmCredential
  renewed held fresh = record (held.credential) {
    citizen_did = fresh.citizen_did;
    ucan = fresh.ucan;
    tier = fresh.tier;
  }

  -- One turn of the loop: the realm answers, others store meanwhile, and the renewal is stored.
  pub record Turn : Type 0 where
    pub reply : UcanReply
    pub meanwhile : List Store
    pub io : StoreIo
    pub now : ℕ

  abbrev pub turn_stores : Text → RealmMembership → Turn → List Store
  turn_stores me held t = elim (join_device me held.realm t.now t.reply) [
    | none ↦ t.meanwhile
    | some fresh ↦ t.meanwhile ++ renews t.io t.now held (renewed held fresh) ∷ []
  ]

  -- The memberships that run out, each with the turn that it gets.
  unfoldable pub renew_each : Text → ℕ → List RealmMembership → List Turn → RealmDisk → RealmDisk
  renew_each me now_seconds [] turns disk = disk
  renew_each me now_seconds (held ∷ rest) [] disk = disk
  renew_each me now_seconds (held ∷ rest) (t ∷ turns) disk =
      if runs_out_soon held.credential.ucan now_seconds
      then renew_each me now_seconds rest turns (run (turn_stores me held t) disk)
      else renew_each me now_seconds rest (t ∷ turns) disk

  unfoldable pub renew_memberships : Text → ℕ → List Turn → RealmDisk → RealmDisk
  renew_memberships me now_seconds turns disk =
      renew_each me now_seconds (list_credentials me disk.files) turns disk

  -- Others store while the realm answers, then what was joined is stored.
  abbrev auto_joined :
      Text → Option RealmCredential → List Store → StoreIo → ℕ → RealmDisk → RealmDisk
  auto_joined realm none meanwhile io now disk = run meanwhile disk
  auto_joined realm (some cred) meanwhile io now disk =
      apply (auto_joins io now cred realm) (run meanwhile disk)

  unfoldable pub ensure_auto_join :
      Option Text → Text → UcanReply → List Store → StoreIo → ℕ → RealmDisk → RealmDisk
  ensure_auto_join none me reply meanwhile io now disk = disk
  ensure_auto_join (some realm) me reply meanwhile io now disk =
      if is_some (load_credential me realm disk.files)
      then disk
      else auto_joined realm (join_device me realm now reply) meanwhile io now disk

  auto_joined-holds_citizen :
      (n r realm : Text) (joined : Option RealmCredential) (meanwhile : List Store) (io : StoreIo)
      (now : ℕ) (disk : RealmDisk)
      → all never_lowers meanwhile ≡ true
      → holds_citizen n r disk ≡ true
      → holds_citizen n r (auto_joined realm joined meanwhile io now disk) ≡ true
  auto_joined-holds_citizen n r realm none meanwhile io now disk ok h =
      run-holds_citizen n r meanwhile disk ok h
  auto_joined-holds_citizen n r realm (some cred) meanwhile io now disk ok h =
      apply-holds_citizen n r (auto_joins io now cred realm) (run meanwhile disk) refl
        (run-holds_citizen n r meanwhile disk ok h)

  -- A silent join never lowers a citizen membership, not even one that a person confirmed while the
  -- realm was answering.
  ensure_auto_join-holds_citizen :
      (n r : Text) (asked : Option Text) (me : Text) (reply : UcanReply) (meanwhile : List Store)
      (io : StoreIo) (now : ℕ) (disk : RealmDisk)
      → all never_lowers meanwhile ≡ true
      → holds_citizen n r disk ≡ true
      → holds_citizen n r (ensure_auto_join asked me reply meanwhile io now disk) ≡ true
  unfolding ensure_auto_join
  ensure_auto_join-holds_citizen n r none me reply meanwhile io now disk ok h = h
  ensure_auto_join-holds_citizen n r (some realm) me reply meanwhile io now disk ok h =
      elim (Bool-cases (is_some (load_credential me realm disk.files))) [
        | inl there ↦ rw (there) h
        | inr away ↦ rw (away) (
            auto_joined-holds_citizen n r realm (join_device me realm now reply) meanwhile io now
              disk ok h)
      ]
