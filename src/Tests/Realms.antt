-- ===== src/Tests/Realms.antt =====
-- Tests of the realm's credential files and of the pending join session.
use macula_mcp.Base.{
  ℕ, ◌≡◌, refl, true, false, Option, none, some, List, [], ◌∷◌, Text, codes, same, to_lower_case,
}
use macula_mcp.Json.{Value, obj, field, end, text, get}
use macula_mcp.Realm.{
  RealmCredential, RealmMembership, RealmDisk, device, citizen, load_credential,
  write_credential_file, StoreIo, store_membership, keeps_what_is_stored, landed, Store, joins,
  auto_joins, renews, run, store_credential, tier_name,
}
use macula_mcp.Realm.Announced.{run-last_join, last_join, IsAnnounced}
use macula_mcp.Realm.Citizen.{run-holds_citizen, holds_citizen}
use macula_mcp.Realm.Replies.{
  confirmed_status, parse_session_status, is_expired_reply, is_confirmed_body, fields_of,
}
use macula_mcp.Realm.Session
use macula_mcp.Realm.Session.{
  JoinState, Pending, idle, Event, begins, polls, creates, answers, abandon, credential_of, handle,
  open_join_session, clear_pending,
}
use macula_mcp.Realm.Session.Abandon.{run-abandon}
use macula_mcp.Realm.Session.Confirm.{run-confirmed, round, rounds}
use macula_mcp.Realm.Session.Elsewhere.{run-elsewhere}
use macula_mcp.Tests.{alice, bob}

abbrev realm : Text
realm = codes "io.macula"

abbrev of_tier : Text → RealmCredential
of_tier token = record {
  node_id = alice;
  portal = codes "https://realm.macula.io";
  org_identity = codes "mri:org:io.macula/al";
  account = none;
  cert_pem = none;
  refresh_token = token;
  joined_at = 5;
  citizen_did = none;
  ucan = none;
  tier = device;
}

abbrev as_citizen : RealmCredential
as_citizen = record (of_tier (codes "c")) { tier = citizen }

abbrev no_files : RealmDisk
no_files = record { files = []; log = record { events = []; next_seq = 1 } }

abbrev works : StoreIo
works = record { locks = true; writes = true; log_opens = true }

abbrev full_disk : StoreIo
full_disk = record works { writes = false }

abbrev as_held : RealmMembership
as_held = record { realm = realm; credential = of_tier (codes "d") }

-- A silent join, a person's join, and two writes that come late.
abbrev stores : List Store
stores =
    auto_joins works 10 (of_tier (codes "d")) realm
    ∷ joins works 20 as_citizen realm
    ∷ auto_joins works 30 (of_tier (codes "e")) realm
    ∷ renews works 40 as_held (of_tier (codes "f"))
    ∷ []

no_files-IsAnnounced : IsAnnounced no_files
unfolding load_credential
no_files-IsAnnounced = λ node name c e. cc

run-last_join_example :
    last_join alice realm (run stores no_files).log.events
    ≡ some (some as_citizen.org_identity, some (tier_name citizen))
unfolding to_lower_case load_credential run macula_mcp.Realm.apply macula_mcp.Realm.store_renewal
    store_membership keeps_what_is_stored macula_mcp.Realm.store_credential_unless_weaker
    store_credential landed write_credential_file same
run-last_join_example =
    run-last_join stores no_files alice realm as_citizen
      ((refl, refl), ((refl, refl), ((refl, refl), ((refl, refl), tt)))) no_files-IsAnnounced refl

run-holds_citizen_example :
    holds_citizen alice realm (run stores (store_credential works 5 as_citizen realm no_files).0)
    ≡ true
unfolding load_credential store_credential store_membership keeps_what_is_stored landed
    write_credential_file same
run-holds_citizen_example =
    run-holds_citizen alice realm stores (store_credential works 5 as_citizen realm no_files).0 refl
      refl

abbrev no_session : JoinState
no_session = record {
  pending = none;
  last_error = none;
  abandon_epoch = 0;
  next_object = 0;
  turn = idle;
  disk = no_files;
}

abbrev never : Option Value → Option ℕ
never expires_at = none

abbrev created : Value
created = obj (
    field (codes "session_id") (text (codes "s1"))
      (field (codes "join_url") (text (codes "https://realm.macula.io/j/s1")) end))

abbrev portal : Text
portal = codes "https://realm.macula.io"

-- The person stops while the session is being opened, and then the realm answers.
run-abandon_example :
    let stopped = abandon (Session.run never portal (begins 1 alice realm ∷ []) no_session) in
    let later = Session.run never portal (creates 201 created ∷ polls ∷ []) stopped in
    (later.pending ≡ none) × (later.disk ≡ stopped.disk)
unfolding Session.run handle open_join_session clear_pending
run-abandon_example =
    run-abandon never portal (begins 1 alice realm ∷ []) (creates 201 created ∷ polls ∷ [])
      no_session refl refl refl

abbrev session : Pending
session = record {
  object = 0;
  node_id = alice;
  session_id = codes "s1";
  join_url = codes "https://realm.macula.io/j/s1";
  expires_at = none;
  realm = realm;
}

abbrev confirmation : Value
confirmation = obj (
    field (codes "status") (text (codes "confirmed")) (
      field (codes "org_identity") (text (codes "mri:org:io.macula/al"))
        (field (codes "ucan") (text (codes "u")) end)))

abbrev waiting : JoinState
waiting = record no_session { pending = some session }

run-confirmed_example :
    let s =
      Session.run never portal
        (rounds never portal [] confirmation
          ((7, full_disk) ∷ [])
          (round never portal [] confirmation (11, works)))
        waiting in
    (s.pending ≡ none)
    × (load_credential alice realm s.disk.files
        ≡ some (credential_of never portal 11 session (confirmed_status (fields_of confirmation))))
unfolding parse_session_status is_expired_reply get same is_confirmed_body
run-confirmed_example =
    run-confirmed never portal [] confirmation session (confirmed_status (fields_of confirmation))
      ((7, full_disk) ∷ []) 11 works waiting refl refl refl (refl, refl)

run-elsewhere_example :
    load_credential bob realm
      (Session.run never portal
        (begins 1 alice realm ∷ creates 201 created ∷ [])
        no_session).disk.files
    ≡ none
unfolding same load_credential
run-elsewhere_example =
    run-elsewhere never portal bob realm (begins 1 alice realm ∷ creates 201 created ∷ [])
      no_session refl refl
