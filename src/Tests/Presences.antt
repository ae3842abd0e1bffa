-- ===== src/Tests/Presences.antt =====
-- Tests of the presence and of the roster.
use macula_mcp.Base.{◌≡◌, refl, true, false, none, some, List, [], ◌∷◌, Text, codes, find, keep}
use macula_mcp.Json.{obj, field, end, text}
use macula_mcp.Presence.{
  StartArgs, present, Presence, idle, Event, says_hello, touches, says_goodbye, proceeds, run, step,
  proceed, settle, start_now, stop_now, next_turn, ensure_presence,
}
use macula_mcp.Presence.Goodbye.{run-goodbye, handles}
use macula_mcp.Presence.Heard
use macula_mcp.Presence.Heard.{Delivery, hello, goodbye, hear_all, told_all, is_by, find-hear_all}
use macula_mcp.Presence.Roster.{is_agent}
use macula_mcp.Tests.{alice, bob}

abbrev no_args : StartArgs
no_args = record {
  operator_name = none;
  session_name = none;
  message = none;
  model = none;
  connected_via = none;
  interval_seconds = none;
}

abbrev absent : Presence
absent = record {
  state = none;
  explicitly_left = false;
  start_queued = false;
  mailbox = [];
  turn = idle;
  hello = 0;
  goodbye = 0;
  heartbeats = 0;
  renewals = 0;
  lobby = false;
  ring = false;
  citizen = false;
}

abbrev up : Presence
up = record absent {
  state = some (present alice no_args);
  hello = 1;
  goodbye = 1;
  heartbeats = 1;
  renewals = 1;
  lobby = true;
  ring = true;
  citizen = true;
}

-- A touch, a start whose second subscription fails, a hello, and its start.
abbrev comes_up : List Event
comes_up =
    touches no_args
    ∷ proceeds true
    ∷ proceeds true
    ∷ proceeds false
    ∷ says_hello no_args
    ∷ proceeds true
    ∷ proceeds true
    ∷ proceeds true
    ∷ proceeds true
    ∷ proceeds false
    ∷ []

run-goodbye_example :
    let later =
      run alice
        (says_goodbye ∷ proceeds true ∷ proceeds false ∷ touches no_args ∷ proceeds true ∷ [])
        up in
    (later.state ≡ none) × (handles later ≡ (0, (0, (0, 0))))
run-goodbye_example =
    run-goodbye alice up (present alice no_args) true false (touches no_args ∷ proceeds true ∷ [])
      refl refl refl refl

-- A tool touches the mesh while the goodbye is being said.
abbrev touched_in_goodbye : List Event
touched_in_goodbye =
    says_goodbye
    ∷ proceeds true
    ∷ touches no_args
    ∷ proceeds true
    ∷ proceeds true
    ∷ proceeds true
    ∷ proceeds true
    ∷ proceeds true
    ∷ proceeds true
    ∷ []

touched_in_goodbye_state : (run alice touched_in_goodbye up).state ≡ some (present alice no_args)
unfolding run step proceed ensure_presence next_turn stop_now start_now settle
touched_in_goodbye_state = refl

-- The lobby's observer fails to start, twice.
abbrev unobserved : List Event
unobserved =
    touches no_args
    ∷ proceeds true
    ∷ proceeds true
    ∷ proceeds true
    ∷ proceeds false
    ∷ touches no_args
    ∷ proceeds true
    ∷ proceeds true
    ∷ proceeds true
    ∷ proceeds false
    ∷ []

unobserved_hello : (run alice unobserved absent).hello ≡ 2
unfolding run step proceed ensure_presence next_turn start_now settle
unobserved_hello = refl

abbrev says : Text → Text → Heard.Event
says publisher node = record {
  publisher = publisher;
  payload = obj (field (codes "node_id") (text node) end);
}

-- Bob says hello; Alice says goodbye for Bob, and hello for herself.
abbrev heard : List Delivery
heard = hello (says bob bob) 5 ∷ goodbye (says alice bob) 6 ∷ hello (says alice alice) 7 ∷ []

find-hear_all_example :
    find (is_agent bob) (hear_all heard []) ≡ told_all (keep (is_by bob) heard) none
find-hear_all_example = find-hear_all bob heard []
