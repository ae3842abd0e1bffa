-- ===== src/Tests.antt =====
-- Runs of the models at concrete inputs, and each theorem applied at one. The children hold the
-- tests of one part each; the names here are the inputs that they share.
mod Dossiers
mod Answers
mod Calls
mod Wires
mod Trusts
mod Places
mod Realms
mod Locks
mod Presences
mod Configs
mod Placings
mod Crews
mod Scans
mod Reports
mod Holds
mod Observers
mod Stations
mod Served
use macula_mcp.Base.{ℕ, Option, none, some, List, [], ◌∷◌, Text, codes, refl, ◌≡◌, ◌≢◌, ◌<◌, arith}
use macula_mcp.Ring.{accepted}
use macula_mcp.Dossier.{RingSeed, Transition, places, receives, hears, claims, answers, releases}

abbrev pub alice : Text
alice = codes "aaaaaaaaaaaaaaaaaaaaaaaaaaaaaaaaaaaaaaaaaaaaaaaaaaaaaaaaaaaaaaaa"

abbrev pub bob : Text
bob = codes "bbbbbbbbbbbbbbbbbbbbbbbbbbbbbbbbbbbbbbbbbbbbbbbbbbbbbbbbbbbbbbbb"

abbrev pub ring_1 : Text
ring_1 = codes "0123456789abcdef0123456789abcdef"

abbrev pub room : Text
room = codes "agents.room.0123456789abcdef0123456789abcdef"

-- A ring that alice's node received from bob.
abbrev pub seed : RingSeed
seed = record {
  ring_id = ring_1;
  self = alice;
  peer = bob;
  purpose = codes "pair";
  room_topic = room;
  sent_at = 5;
}

abbrev pub token_1 : Text
token_1 = codes "t1"

abbrev pub token_2 : Text
token_2 = codes "t2"

-- Received and deferred, claimed twice, answered under the first claim and under the second.
abbrev pub history : List Transition
history =
    receives seed none none 10
    ∷ claims ring_1 alice 20 20 token_1
    ∷ claims ring_1 alice 30 30 token_2
    ∷ answers ring_1 token_2 accepted none 35
    ∷ answers ring_1 token_1 accepted none 40
    ∷ []
