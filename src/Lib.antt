-- ===== src/Lib.antt =====
-- Verification of macula-mcp, an MCP server through which agents meet on the macula mesh.
--
-- Agents find each other, ask for contact by a ring, and talk in rooms. A ring is a mesh call that
-- carries a purpose and a room topic; the callee's server answers it from its operator's contact
-- policy or leaves it to its model, and records it in a file that the sessions of one machine
-- share. An answer that comes later arrives as a call back. Rooms are topics that a server taps,
-- and envelopes are what is published there.
--
-- Base       shared helpers: texts as UTF-16 code units, lists, tests.
-- Json       JSON values, for payloads and files that no one vouches for.
-- Ring       src/ring_agents/rings.ts: Ring/Wire the payloads (buildRingArgs, parseRingArgs,
--            parseRingReply and their problems), Ring/Pending the reads of the table (getRing,
--            listRings, pendingSummary).
-- NodeEvents src/node_events.ts: appendNodeEvent, readNodeEvents and the cursors.
-- Machine    src/machine_transcript.ts: the shared file, as the rows of rings and the event log.
-- Dossier    src/ring_agents/ring_dossier.ts: ringPlaced, ringReceived, ringReply,
--            claimDeferredRing, answerClaimedRing, releaseClaim. `Transition` lists them, `run`
--            plays a history, one database transaction a step.
-- Serve      src/ring_agents/serve_rings.ts: handleRing and handleRingAnswer on the file and the
--            table of rate limits, with the other sessions' writes while a room is joined.
-- Answering  answerPendingRing of the same file: claim, join, answer, and tell the caller.
-- RingWait   waitRing of src/ring_agents/rings.ts, on what each poll finds in the file.
-- Policy     src/policy.ts: parsing, loadContactPolicy, and addToAllowlist and
--            removeFromAllowlist (Policy/Allowlist).
-- Envelope   src/envelope.ts: buildEnvelope, envelopeProblems, parseEnvelope.
-- Threads    threadEnvelopes of the same file.
-- Membership src/converse_in_rooms/room_membership.ts: the table of memberships.
-- Rooms      src/converse_in_rooms/rooms.ts on watch_lobby.ts: openRoom, joinRoom, leaveRoom,
--            leaveAll, resumeWatching.
-- RoomWait   waitForReply and waitRoom of src/converse_in_rooms/rooms.ts, on the transcript's reads.
-- RealmName  src/realm_name.ts: parseRealmName and realmBaseURL.
-- Realm      src/realm.ts: storeCredential, storeCredentialUnlessWeaker and storeRenewal on the
--            credential files (Realm/Stored what one store does, Realm/Announced the log,
--            Realm/Citizen the tiers), Realm/Replies the realm's answers, Realm/Session the pending
--            join session: begin, the poll, and abandon, cut where the code awaits; Realm/Session/
--            Status what status shows of it. Realm/Renewal the silent join and the renewals of
--            src/be_present/device_membership.ts.
-- Lock       src/realm_lock.ts: acquireLock, reclaimAbandonedLock and releaseLock as the moves of
--            actors on two files, one call of the operating system each.
-- Presence   src/be_present/presence.ts: the mailbox of start and stop, ensurePresence and the
--            heartbeat; Presence/Roster src/be_present/roster.ts and src/resolve_node_id.ts;
--            Presence/Heard heardHello and heardGoodbye.
-- Config     src/install/config_merge.ts: mergeEntry and removeEntry; Config/Equal deepEqual.
-- Placing    src/ring_agents/mesh_ring.ts: placeRing and waitForJoin; Placing/Agreed puts the callee's
--            handler of Serve at the other end of the call.
-- Crew       src/crew_redeem_challenge/message.ts and check.ts: the signed bytes and checkChallenge.
-- Secrets    src/secret_scan.ts: findLikelySecret and assertNoLikelySecret, the patterns a parameter.
-- Claims     src/claim_verification.ts: deriveClaimStatus, the patterns a parameter.
-- Transcript src/converse_in_rooms/lobby_transcript.ts: the shared file of facts and losses.
-- Observer   src/converse_in_rooms/watch_lobby.ts and src/dropped_events.ts: start, tapRoom, the
--            announced rooms, untapRoom, stop and dropped, cut where the code awaits; Rooms has its
--            taps with a subscription as one step, so that no other tap of the room is in flight.
-- Hold       src/hold_node_identity.ts: lockedHold and the release as the moves of actors on one
--            socket file; Hold/Address its directory and path.
-- MeshConfig src/mesh_config.ts: seeds, realmTrust, agentName, nodeKeyPath, splitRealmPrefix.
-- Serving    src/serve.ts: serve, unserve and stopAll, cut at the await of the advertisement, and
--            the reply that runExec makes of a command's end.
-- Tests      runs at concrete inputs.
--
-- A function of the source is one of the model, in snake case. A row or a record keeps its fields;
-- a column that may be NULL and an optional key are an Option. A time is its number of
-- milliseconds: the source writes most of them as ISO text, which sorts alike. Random ids, tokens
-- and clocks are arguments. The mesh is not modelled: its verified caller is an argument, and
-- whether its calls succeed is an argument too (`join` in Serve, `outcomes` in Rooms). All loops run
-- over lists but one: the walk of Threads has one unit of fuel for each message of the page and one
-- more, as it goes on only from messages that it has not seen. A wait is a list of what its polls find, so it ends as the source's deadline ends
-- it.
--
-- Left out: timers as such, the tools' texts, the installers, and the crypto, which is a library's.
pub mod Serving
pub mod MeshConfig
pub mod Observer
pub mod Transcript
pub mod Hold
pub mod Claims
pub mod Secrets
pub mod Crew
pub mod Placing
pub mod Config
pub mod Presence
pub mod Lock
pub mod Realm
pub mod Base
pub mod Json
pub mod Ring
pub mod NodeEvents
pub mod Machine
pub mod Dossier
pub mod Envelope
pub mod Policy
pub mod Serve
pub mod Membership
pub mod Answering
pub mod Threads
pub mod RingWait
pub mod RoomWait
pub mod Rooms
pub mod RealmName
pub mod Tests
