-- ===== src/Rooms.antt =====
-- src/converse_in_rooms/rooms.ts and watch_lobby.ts: opening, joining and leaving rooms. A call of
-- the mesh (`subscribe`, `publish`) succeeds or fails as the next entry of `outcomes` says, and
-- succeeds once there is none left. One transition is one turn of the membership's mailbox.
-- A tap is one step with its subscription: a call that finds the room's subscription in flight for
-- another, and passes although it then fails, is outside this module (Observer has it).
pub mod Calls
pub mod Entering
pub mod Join
pub mod Leave
pub mod Open
use macula_mcp.Base.{
  ℕ, ◌+◌, Bool, true, false, not, ◌&&◌, Option, none, some, List, [], ◌∷◌, ◌++◌, Text, same, keep,
  any, leb, if◌then◌else◌,
}
use macula_mcp.Envelope.{
  Kind, room_opened, participant_joined, participant_left, room_closed, Envelope, BuildInput, Built,
  built, refused, build_envelope, is_room_topic, central_topic,
}
use macula_mcp.Membership.{
  Membership, memberships, is_joined, room_count, record_membership, forget,
}

-- `observer` is the taps of the lobby observer, or nothing while it is stopped.
pub record Rooms : Type 0 where
  pub members : List Membership
  pub observer : Option (List Text)
  pub sent : List (Text × Envelope)
  pub outcomes : List Bool

-- RoomError, RoomCapacityError, EnvelopeError, and an error of the mesh.
pub data Failure : Type 0 where
  room_error capacity_error envelope_error mesh_error : Failure

pub data Reply : Type 0 where
  opened : Text → (announced : Bool) → Reply
  entered : (already : Bool) → Reply
  left : (closed : Bool) → Reply
  threw : Failure → Reply

-- One call of the mesh.
unfoldable pub attempt : Rooms → Rooms × Bool
attempt r = elim r.outcomes [ [] ↦ (r, true) | o ∷ os ↦ (record r { outcomes = os }, o) ]

abbrev pub topics : Option (List Text) → List Text
topics none = []
topics (some ts) = ts

abbrev pub is_tapped : Text → Rooms → Bool
is_tapped topic r = any (same topic) (topics r.observer)

abbrev set_taps : List Text → Rooms → Rooms
set_taps ts r = record r { observer = some ts }

-- What follows a call that may fail, on success and on failure.
abbrev pub await {ℓ} : {A : Type ℓ} → Rooms × Bool → (Rooms → A) → (Rooms → A) → A
await (r, ok) next failed = if ok then next r else failed r

-- start, doStart: central is subscribed to unless the observer runs.
unfoldable pub start : Rooms → Rooms × Bool
unfolding attempt
start r = elim r.observer [
  | some ts ↦ (r, true)
  | none ↦ await (attempt r) (λ r'. (set_taps [] r', true)) (λ r'. (r', false))
]

unfoldable pub tap_room : Text → Rooms → Rooms × Bool
unfolding attempt
tap_room topic r = elim r.observer [
  | none ↦ (r, false)
  | some ts ↦
      if any (same topic) ts
      then (r, true)
      else await (attempt r) (λ r'. (set_taps (topic ∷ ts) r', true)) (λ r'. (r', false))
]

unfoldable pub untap_room : Text → Rooms → Rooms
untap_room topic r = elim r.observer [
  | none ↦ r
  | some ts ↦ set_taps (keep (λ t. not (same topic t)) ts) r
]

unfoldable pub publish : Text → Envelope → Rooms → Rooms × Bool
unfolding attempt
publish topic e r =
    await (attempt r) (λ r'. (record r' { sent = r'.sent ++ (topic, e) ∷ [] }, true))
      (λ r'. (r', false))

abbrev pub says : Text → Text → Kind → BuildInput
says topic me kind = record {
  room_topic = topic;
  from = me;
  kind = kind;
  text = some [];
  in_reply_to = none;
  refs = none;
  participants = none;
  purpose = none;
  from_citizen = none;
  to = none;
}

-- The publish of joinRoomNow and openRoomNow: a failure takes the tap of the room back.
unfoldable pub publish_or_untap : Text → Text → Envelope → Rooms → Rooms × Bool
unfolding publish untap_room
publish_or_untap room topic e r =
    await (publish topic e r) (λ r'. (r', true)) (λ r'. (untap_room room r', false))

abbrev pub fails_with {ℓ} : {A : Type ℓ} → A → Rooms → Rooms × A
fails_with reply r = (r, reply)

-- `me` is selfNodeId(), `new_id` draws the id of the message to a room, `now` is the clock.
module _ (me : Text) (new_id : Text → Text) (now : ℕ) where
  abbrev pub envelope_to : Text → Kind → Built
  envelope_to topic kind = build_envelope (says topic me kind) (new_id topic) now

  -- The end of ensureTapped, once the room is tapped again.
  unfoldable pub say_rejoined : Text → Rooms → Rooms × Option Failure
  unfolding publish
  say_rejoined topic r = elim (envelope_to topic participant_joined) [
    | refused ps ↦ (r, some envelope_error)
    | built e ↦ await (publish topic e r) (fails_with none) (fails_with (some mesh_error))
  ]

  -- ensureTapped: nothing, or the error it throws.
  unfoldable pub ensure_tapped : Text → Rooms → Rooms × Option Failure
  unfolding start tap_room say_rejoined
  ensure_tapped topic r =
      if is_tapped topic r
      then (r, none)
      else await (start r)
          (λ r₁.
            if is_tapped topic r₁
            then (r₁, none)
            else await (tap_room topic r₁) (say_rejoined topic) (fails_with (some mesh_error)))
          (fails_with (some mesh_error))

  -- resumeWatchingNow with retap: the rooms that were tapped again.
  unfoldable pub resume_rooms : List Membership → Rooms → Rooms × List Text
  unfolding ensure_tapped
  resume_rooms [] r = (r, [])
  resume_rooms (m ∷ ms) r =
      let (r₁, problem) = ensure_tapped m.room_topic r in
      let (r₂, resumed) = resume_rooms ms r₁ in
      (
        r₂,
        (if is_tapped m.room_topic r
            then resumed
            else elim problem [ none ↦ m.room_topic ∷ resumed | some e ↦ resumed ]),
      )

  unfoldable pub resume_watching : Rooms → Rooms × List Text
  unfolding resume_rooms
  resume_watching r = resume_rooms (memberships me r.members) r

  abbrev pub membership_of : Text → Text → Bool → Bool → Option Text → Membership
  membership_of topic opener here public purpose = record {
    self = me;
    room_topic = topic;
    opened_by = opener;
    opened_here = here;
    public = public;
    purpose = purpose;
    joined_at = now;
  }

  abbrev pub admit : Membership → Reply → Rooms → Rooms × Reply
  admit m reply r = (record r { members = record_membership m r.members }, reply)

  -- What openRoomNow does once the envelope is built and the room tapped.
  unfoldable pub announce_room : Text → Bool → Option Text → Envelope → Rooms → Rooms × Reply
  unfolding publish_or_untap
  announce_room topic public purpose e r =
      await (publish_or_untap topic topic e r)
        (λ r₁.
          if public
          then await (publish_or_untap topic central_topic e r₁)
              (admit (membership_of topic me true public purpose) (opened topic public))
              (fails_with (threw mesh_error))
          else admit (membership_of topic me true public purpose) (opened topic public) r₁)
        (fails_with (threw mesh_error))

  abbrev pub opening : Text → Option Text → List Text → BuildInput
  opening topic purpose invited = record (says topic me room_opened) {
    participants = some (me ∷ keep (λ n. not (same n me)) invited);
    purpose = purpose;
  }

  -- openRoom; `topic` is what newRoomTopic() draws.
  unfoldable pub open_room : Text → Option Text → Bool → List Text → Rooms → Rooms × Reply
  unfolding start tap_room announce_room
  open_room topic purpose public invited r =
      await (start r)
        (λ r₁. elim (build_envelope (opening topic purpose invited) (new_id topic) now) [
          | refused ps ↦ (r₁, threw envelope_error)
          | built e ↦
              await (tap_room topic r₁) (announce_room topic public purpose e)
                (fails_with (threw mesh_error))
        ])
        (fails_with (threw mesh_error))

  abbrev pub is_full : Option ℕ → Rooms → Bool
  is_full none r = false
  is_full (some most) r = leb most (room_count me r.members)

  -- The end of joinRoomNow, once the room is tapped.
  unfoldable pub say_joined : Text → Text → Rooms → Rooms × Reply
  unfolding publish_or_untap
  say_joined topic opener r = elim (envelope_to topic participant_joined) [
    | refused ps ↦ (r, threw envelope_error)
    | built e ↦
        await (publish_or_untap topic topic e r)
          (admit (membership_of topic opener false false none) (entered false))
          (fails_with (threw mesh_error))
  ]

  abbrev pub rejoin : Rooms × Option Failure → Rooms × Reply
  rejoin (r, problem) = (r, elim problem [ none ↦ entered true | some e ↦ threw e ])

  -- joinRoomNow, once the observer runs. `opener` is `args.openedBy ?? openerOf(...) ?? ""`.
  unfoldable pub enter_room : Text → Text → Option ℕ → Rooms → Rooms × Reply
  unfolding tap_room ensure_tapped say_joined
  enter_room topic opener most r =
      if is_joined me topic r.members
      then rejoin (ensure_tapped topic r)
      else if is_full most r
      then (r, threw capacity_error)
      else await (tap_room topic r) (say_joined topic opener) (fails_with (threw mesh_error))

  unfoldable pub join_room : Text → Text → Option ℕ → Rooms → Rooms × Reply
  unfolding start enter_room
  join_room topic opener most r =
      if is_room_topic topic
      then await (start r) (enter_room topic opener most) (fails_with (threw mesh_error))
      else (r, threw room_error)

  abbrev pub drop_room : Text → Rooms → Rooms
  drop_room topic r =
      let r' = untap_room topic r in record r' { members = forget me topic r'.members }

  unfoldable pub leave_room : Text → Bool → Rooms → Rooms × Reply
  unfolding publish untap_room
  leave_room topic close r =
      if is_joined me topic r.members
      then elim (envelope_to topic (if close then room_closed else participant_left)) [
        | refused ps ↦ (r, threw envelope_error)
        | built e ↦
            await (publish topic e r) (λ r₁. (drop_room topic r₁, left close))
              (fails_with (threw mesh_error))
      ]
      else (r, threw room_error)

  -- The body of leaveAll's loop: a room that cannot be left is untapped and forgotten.
  abbrev pub leave_or_forget : Membership → Rooms × Reply → Rooms × ℕ
  leave_or_forget m (r, left closed) = (r, 1)
  leave_or_forget m (r, reply) = (drop_room m.room_topic r, 0)

  unfoldable pub leave_rooms : List Membership → Rooms → Rooms × ℕ
  unfolding leave_room
  leave_rooms [] r = (r, 0)
  leave_rooms (m ∷ ms) r =
      let (r₁, n) = leave_or_forget m (leave_room m.room_topic m.opened_here r) in
      let (r₂, k) = leave_rooms ms r₁ in (r₂, n + k)

  unfoldable pub leave_all : Rooms → Rooms × ℕ
  unfolding leave_rooms
  leave_all r = leave_rooms (memberships me r.members) r
