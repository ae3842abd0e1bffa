-- ===== src/Tests/Served.antt =====
-- Tests of the procedures that are served by a command.
use macula_mcp.Base.{
  ℕ, ◌≡◌, ◌⊎◌, refl, Bool, true, false, not, Option, none, some, List, [], ◌∷◌, ◌++◌, Text, codes,
  trim, any,
}
use macula_mcp.Json.{Value, text}
use macula_mcp.Serving.{
  ServeArgs, Served, ExecEnd, run_exec, serve, advertised, unserve, stopped, required,
}
use macula_mcp.Serving.Registry.{
  Event, serves, lands, unserves, stop_ends, run, step, is_unique, are_registered,
}
use macula_mcp.Serving.Standing.{run-are_registered}
use macula_mcp.Serving.Replies.{MayReply, run_exec-MayReply}

abbrev in_own_namespace : Text → Text
in_own_namespace name = codes "~me/" ++ name

abbrev echo : ServeArgs
echo = record {
  name = codes "echo";
  exec = codes "cat";
  exec_timeout_seconds = none;
  confidential = none;
}

abbrev add : ServeArgs
add = record {
  name = codes "add";
  exec = codes "bc";
  exec_timeout_seconds = some 3;
  confidential = some required;
}

abbrev nothing_served : Served
nothing_served = record {
  registrations = [];
  flights = [];
  live = [];
  stopping = [];
  next_handle = 0;
}

-- One is served again with another command while the other is advertised, and is withdrawn.
abbrev day : List Event
day =
    serves echo
    ∷ serves add
    ∷ lands 1 true
    ∷ lands 0 true
    ∷ serves (record echo { exec = codes "tac" })
    ∷ unserves (codes "add")
    ∷ stop_ends 1
    ∷ []

run-are_registered_example :
    (is_unique (run in_own_namespace day nothing_served).registrations ≡ true)
    × (are_registered
          (run in_own_namespace day nothing_served).stopping
          (run in_own_namespace day nothing_served).live
          (run in_own_namespace day nothing_served).registrations
        ≡ true)
unfolding step serve macula_mcp.Base.same advertised
run-are_registered_example =
    run-are_registered in_own_namespace day nothing_served
      (refl, (refl, (tt, (tt, (refl, (tt, (tt, tt))))))) refl

only_echo_stands : (run in_own_namespace day nothing_served).live ≡ 0 ∷ []
unfolding run step unserve serve advertised stopped macula_mcp.Base.same
only_echo_stands = refl

-- Two serves of one name before either is advertised: after unserve the first still answers.
abbrev twice : List Event
twice =
    serves echo
    ∷ serves echo
    ∷ lands 0 true
    ∷ lands 1 true
    ∷ unserves (codes "echo")
    ∷ stop_ends 1
    ∷ []

unregistered : (run in_own_namespace twice nothing_served).registrations ≡ []
unfolding run step unserve advertised serve stopped macula_mcp.Base.same
unregistered = refl

still_answers : (run in_own_namespace twice nothing_served).live ≡ 0 ∷ []
unfolding run step unserve advertised serve stopped macula_mcp.Base.same
still_answers = refl

-- Outputs are texts here, and none is a secret.
abbrev as_json : Text → Option Value
as_json s = some (text s)

abbrev nothing_found : Text → Option Text
nothing_found s = none

abbrev finished : ExecEnd
finished = record { timed_out = false; code = some 0; stdout = codes " hi "; stderr = [] }

run_exec-MayReply_example :
    (finished.timed_out ≡ false)
    × (finished.code ≡ some 0)
    × MayReply as_json nothing_found (trim (codes " hi ")) (text (codes "hi"))
unfolding run_exec trim macula_mcp.Secrets.find_likely_secret
run_exec-MayReply_example =
    run_exec-MayReply as_json nothing_found finished (text (codes "hi")) refl
