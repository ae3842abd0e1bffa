-- ===== src/Realm/Session/Status.antt =====
-- src/realm.ts: what the tools and the identity resource show of a node's membership.
use macula_mcp.Base.{
  ℕ, ◌≡◌, Bool, true, false, ◌&&◌, Option, none, some, List, [], ◌∷◌, ◌++◌, Text, codes, same,
  arith, ◌==◌, if◌then◌else◌,
}
use macula_mcp.Json.{Value}
use macula_mcp.Realm.{RealmCredential, RealmTier, CredentialFile, load_credential}
use macula_mcp.Realm.Session.{Pending, JoinState, JoinError, failed}

abbrev non_empty : Text → Option Text
non_empty [] = none
non_empty (c ∷ s) = some (c ∷ s)

-- `split("/").pop()`
abbrev last_segment : Text → Text → Text
last_segment seen [] = seen
last_segment seen (c ∷ s) = if c == b'/' then last_segment [] s else last_segment (seen ++ c ∷ []) s

unfoldable pub handle_of : Option Text → Option Text
handle_of none = none
handle_of (some org) = non_empty (last_segment [] org)

abbrev pub default_realm_name : Text
default_realm_name = codes "io.macula"

abbrev organisation : Option RealmCredential → Option Text
organisation none = none
organisation (some cred) = some cred.org_identity

unfoldable pub org_handle : Option Text → List CredentialFile → Option Text
org_handle none files = none
org_handle (some []) files = none
org_handle (some asked) files =
    handle_of (organisation (load_credential asked default_realm_name files))

pub record PendingView : Type 0 where
  pub session_id : Option Text
  pub join_url : Option Text
  pub expires_at : Option Value

-- `credential_path` is the node and the realm that the path is made of.
pub record JoinedView : Type 0 where
  pub org_identity : Text
  pub handle : Option Text
  pub account : Option Text
  pub joined_at : ℕ
  pub credential_path : Text × Text
  pub citizen_did : Option Text
  pub has_ucan : Bool
  pub tier : RealmTier

pub data RealmStatus : Type 0 where
  unknown : RealmStatus
  joined : JoinedView → RealmStatus
  not_joined : (session : Option PendingView) (error : Option JoinError) → RealmStatus

abbrev is_non_empty : Option Text → Bool
is_non_empty (some (c ∷ s)) = true
is_non_empty _ = false

unfoldable pub joined_fields : Text → Text → RealmCredential → JoinedView
joined_fields node realm cred = record {
  org_identity = cred.org_identity;
  handle = handle_of (some cred.org_identity);
  account = cred.account;
  joined_at = cred.joined_at;
  credential_path = (node, realm);
  citizen_did = cred.citizen_did;
  has_ucan = is_non_empty cred.ucan;
  tier = cred.tier;
}

unfoldable pub pending_for : Text → Text → Option Pending → Option Pending
pending_for node realm none = none
pending_for node realm (some p) = if same p.node_id node && same p.realm realm then some p else none

unfoldable pub pending_fields : Bool → Option Pending → Option PendingView
pending_fields redact none = none
pending_fields true (some p) =
    some (record { session_id = none; join_url = none; expires_at = p.expires_at })
pending_fields false (some p) = some (record {
  session_id = some p.session_id;
  join_url = some p.join_url;
  expires_at = p.expires_at;
})

-- `...(lastError ? { error: lastError } : {})`
abbrev shown_error : Option JoinError → Option JoinError
shown_error (some (failed [])) = none
shown_error e = e

unfoldable pub status : Bool → Option Text → Text → JoinState → RealmStatus
status redact none realm s = unknown
status redact (some []) realm s = unknown
status redact (some node) realm s = elim (load_credential node realm s.disk.files) [
  | some cred ↦ joined (joined_fields node realm cred)
  | none ↦
      not_joined (pending_fields redact (pending_for node realm s.pending))
        (shown_error s.last_error)
]

-- The pending session with another link to it.
abbrev pub relink : Text → Text → Option Pending → Option Pending
relink id url none = none
relink id url (some p) = some (record p { session_id = id; join_url = url })

-- A redacted status tells nothing of the pending session's link: it is the same for every session
-- id and every join URL that the session could have, for every node that asks, in every realm, with
-- and without a stored membership and whatever the last error was.
status-relink :
    (asked : Option Text) (realm id url : Text) (s : JoinState)
    → status true asked realm (record s { pending = relink id url s.pending })
      ≡ status true asked realm s
unfolding status pending_fields pending_for
status-relink asked realm id url s = ground arith
