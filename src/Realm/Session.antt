-- ===== src/Realm/Session.antt =====
-- src/realm.ts: the one pending join session of a process. The mailbox runs one turn at a time: a
-- begin, or a poll. A turn is cut where the code awaits, so an abandon, which is not queued, falls
-- between any two parts of it. `parse_date` is what `Date.parse` makes of an expiry, in milliseconds
-- since 1970 (an earlier instant is 0), and `portal` is the address of the realm.
pub mod Abandon
pub mod Confirm
pub mod Elsewhere
pub mod Status
use macula_mcp.Base.{
  ℕ, suc, Bool, true, false, not, ◌&&◌, ◌||◌, Option, none, some, List, [], ◌∷◌, Text, same, leb,
  ◌==◌, if◌then◌else◌, is_some,
}
use macula_mcp.Json.{Value}
use macula_mcp.Realm.{
  RealmDisk, RealmCredential, RealmTier, citizen, StoreIo, StoreResult, stored, kept, threw,
  store_credential, load_credential,
}
use macula_mcp.Realm.Replies.{
  CreatedSession, Creation, opened, refused, parse_created, Confirmed, SessionStatus, pending,
  confirmed, expired, error, parse_session_status,
}

-- The object that `pending` refers to; `object` tells one such object from another.
pub record Pending : Type 0 where
  pub object : ℕ
  pub node_id : Text
  pub session_id : Text
  pub join_url : Text
  pub expires_at : Option Value
  pub realm : Text

-- The texts of `lastError`.
pub data JoinError : Type 0 where
  session_expired : JoinError
  realm_answered : (http_status : ℕ) (body : Value) → JoinError
  failed : (message : Text) → JoinError

-- What the mailbox is in the middle of.
pub data Turn : Type 0 where
  idle : Turn
  opening : (node_id realm : Text) (epoch : ℕ) → Turn
  polling : Pending → Turn
  storing : Pending → Confirmed → Turn

pub record JoinState : Type 0 where
  pub pending : Option Pending
  pub last_error : Option JoinError
  pub abandon_epoch : ℕ
  pub next_object : ℕ
  pub turn : Turn
  pub disk : RealmDisk

-- What happens next: a turn starts, the realm or the store answers the turn, or a person stops.
pub data Event : Type 0 where
  begins : (now : ℕ) (node_id realm : Text) → Event
  creates : (http_status : ℕ) (body : Value) → Event
  polls : Event
  throws : (message : Text) → Event
  answers : (now http_status : ℕ) (body : Value) → Event
  stores : StoreIo → (message : Text) (now : ℕ) → Event
  abandons : Event

abbrev pub is_object : Pending → Option Pending → Bool
is_object p none = false
is_object p (some q) = p.object == q.object

unfoldable pub clear_pending : JoinState → JoinState
clear_pending s = record s { pending = none }

unfoldable pub abandon : JoinState → JoinState
abandon s = clear_pending (record s { abandon_epoch = suc s.abandon_epoch })

module _ (parse_date : Option Value → Option ℕ) where
  abbrev pub is_expired : ℕ → Option Value → Bool
  is_expired now expires_at = elim (parse_date expires_at) [ none ↦ false | some t ↦ leb t now ]

  -- The session that a begin hands back.
  abbrev pub is_reusable : ℕ → Text → Text → Option Pending → Bool
  is_reusable now node realm none = false
  is_reusable now node realm (some p) =
      same p.node_id node && same p.realm realm && not (is_expired now p.expires_at)

  -- openJoinSession from where it has the node's id up to its call of the realm: while it awaits its
  -- turn and the id it has read and written nothing, so the event of a begin is the end of that
  -- await.
  unfoldable pub open_join_session : ℕ → Text → Text → JoinState → JoinState
  open_join_session now node realm s =
      if is_reusable now node realm s.pending
      then s
      else clear_pending (record s { turn = opening node realm s.abandon_epoch })

  -- openJoinSession from the realm's answer on.
  unfoldable pub session_answered : Creation → Text → Text → ℕ → JoinState → JoinState
  session_answered (refused http body) node realm epoch s = record s { turn = idle }
  session_answered (opened c) node realm epoch s =
      if s.abandon_epoch == epoch
      then record s {
        turn = idle;
        last_error = none;
        next_object = suc s.next_object;
        pending = some (record {
          object = s.next_object;
          node_id = node;
          session_id = c.session_id;
          join_url = c.join_url;
          expires_at = c.expires_at;
          realm = realm;
        });
      }
      else record s { turn = idle; last_error = none }

  -- pollPending up to its call of the realm.
  unfoldable pub poll_pending : JoinState → JoinState
  poll_pending s = elim s.pending [ none ↦ s | some p ↦ record s { turn = polling p } ]

  unfoldable pub poll_threw : Text → Pending → JoinState → JoinState
  poll_threw message p s =
      if is_object p s.pending
      then record s { turn = idle; last_error = some (failed message) }
      else record s { turn = idle }

  abbrev expire : JoinState → JoinState
  expire s = clear_pending (record s { turn = idle; last_error = some session_expired })

  -- A confirmation goes on to store its credential.
  unfoldable pub apply_poll_outcome : ℕ → Pending → SessionStatus → JoinState → JoinState
  apply_poll_outcome now p (confirmed c) s = record s { turn = storing p c }
  apply_poll_outcome now p expired s = expire s
  apply_poll_outcome now p (error http body) s = record s {
    turn = idle;
    last_error = some (realm_answered http body);
  }
  apply_poll_outcome now p (pending expires_at) s =
      if is_expired now expires_at then expire s else record s { turn = idle }

  unfoldable pub poll_answered : ℕ → Pending → SessionStatus → JoinState → JoinState
  poll_answered now p outcome s =
      if is_object p s.pending then apply_poll_outcome now p outcome s else record s { turn = idle }

  module _ (portal : Text) where
    abbrev pub credential_of : ℕ → Pending → Confirmed → RealmCredential
    credential_of now p c = record {
      node_id = p.node_id;
      portal = portal;
      org_identity = c.org_identity;
      account = c.oauth_account;
      cert_pem = c.cert_pem;
      refresh_token = c.refresh_token;
      joined_at = now;
      citizen_did = c.citizen_did;
      ucan = c.ucan;
      tier = citizen;
    }

    -- The end of confirmedJoin, or the catch of pollPending.
    abbrev pub after_store : Text → RealmDisk × StoreResult → JoinState → JoinState
    after_store message (disk, threw) s = record s {
      turn = idle;
      disk = disk;
      last_error = some (failed message);
    }
    after_store message (disk, _) s =
        clear_pending (record s { turn = idle; disk = disk; last_error = none })

    unfoldable pub confirmed_join : StoreIo → Text → ℕ → Pending → Confirmed → JoinState → JoinState
    confirmed_join io message now p c s =
        after_store message (store_credential io now (credential_of now p c) p.realm s.disk) s

    -- An event that the turn does not wait for does not happen.
    unfoldable pub handle : Event → Turn → JoinState → JoinState
    handle abandons turn s = abandon s
    handle (begins now node realm) idle s = open_join_session now node realm s
    handle polls idle s = poll_pending s
    handle (creates http body) (opening node realm epoch) s =
        session_answered (parse_created http body) node realm epoch s
    handle (throws message) (opening node realm epoch) s = record s { turn = idle }
    handle (throws message) (polling p) s = poll_threw message p s
    handle (answers now http body) (polling p) s =
        poll_answered now p (parse_session_status http body) s
    handle (stores io message now) (storing p c) s = confirmed_join io message now p c s
    handle _ _ s = s

    unfoldable pub run : List Event → JoinState → JoinState
    run [] s = s
    run (e ∷ es) s = run es (handle e s.turn s)
