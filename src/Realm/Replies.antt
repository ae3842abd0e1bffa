-- ===== src/Realm/Replies.antt =====
-- src/realm.ts: the realm's answers to a join session's creation and to a poll of it. A body that is
-- not JSON is the empty object, as the callers have it.
use macula_mcp.Base.{
  ℕ, Bool, false, ◌&&◌, ◌||◌, Option, none, some, [], Text, codes, same, ◌==◌, if◌then◌else◌,
  get_or, is_some,
}
use macula_mcp.Json.{Value, obj, Fields, end, get, as_text}

-- `(body ?? {})`, of which only named fields are read.
abbrev pub fields_of : Value → Fields
fields_of (obj fs) = fs
fields_of _ = end

-- `expires_at` is the field itself: the source makes a text of it with `String`.
pub record CreatedSession : Type 0 where
  pub session_id : Text
  pub join_url : Text
  pub expires_at : Option Value

pub data Creation : Type 0 where
  opened : CreatedSession → Creation
  refused : (http_status : ℕ) (body : Value) → Creation

abbrev created_in : ℕ → Value → Option Text → Option Text → Creation
created_in http body (some id) (some url) =
    if http == 201
    then opened (record {
      session_id = id;
      join_url = url;
      expires_at = get (codes "expires_at") (fields_of body);
    })
    else refused http body
created_in http body _ _ = refused http body

unfoldable pub parse_created : ℕ → Value → Creation
parse_created http body =
    let b = fields_of body in
    created_in http body (as_text (get (codes "session_id") b)) (as_text (get (codes "join_url") b))

pub record Confirmed : Type 0 where
  pub refresh_token : Text
  pub org_identity : Text
  pub cert_pem : Option Text
  pub oauth_account : Option Text
  pub oauth_provider : Option Text
  pub citizen_did : Option Text
  pub ucan : Option Text

pub data SessionStatus : Type 0 where
  pending : (expires_at : Option Value) → SessionStatus
  confirmed : Confirmed → SessionStatus
  expired : SessionStatus
  error : (http_status : ℕ) (body : Value) → SessionStatus

-- `b[key] === s`
abbrev says : Text → Text → Fields → Bool
says key s b = elim (as_text (get key b)) [ none ↦ false | some t ↦ same t s ]

unfoldable pub is_expired_reply : ℕ → Fields → Bool
is_expired_reply http b = http == 410 || says (codes "error") (codes "session_expired") b

unfoldable pub is_confirmed_body : Fields → Bool
is_confirmed_body b =
    says (codes "status") (codes "confirmed") b
    && is_some (as_text (get (codes "org_identity") b))
    && (is_some (as_text (get (codes "refresh_token") b))
        || is_some (as_text (get (codes "ucan") b)))

unfoldable pub confirmed_status : Fields → Confirmed
confirmed_status b = record {
  refresh_token = get_or (as_text (get (codes "refresh_token") b)) [];
  org_identity = get_or (as_text (get (codes "org_identity") b)) [];
  cert_pem = as_text (get (codes "cert_pem") b);
  oauth_account = as_text (get (codes "oauth_account") b);
  oauth_provider = as_text (get (codes "oauth_provider") b);
  citizen_did = as_text (get (codes "citizen_did") b);
  ucan = as_text (get (codes "ucan") b);
}

unfoldable pub parse_session_status : ℕ → Value → SessionStatus
parse_session_status http body =
    let b = fields_of body in
    if is_expired_reply http b
    then expired
    else if http == 200 && says (codes "status") (codes "pending") b
    then pending (get (codes "expires_at") b)
    else if http == 200 && is_confirmed_body b
    then confirmed (confirmed_status b)
    else error http body
