-- ===== src/Tests/Holds.antt =====
-- Tests of the hold of a node identity.
use macula_mcp.Base.{ℕ, ◌≡◌, refl, true, false, not, none, some, List, ◌∷◌, ◌++◌, ◌==◌}
use macula_mcp.Hold.{
  System, idle, holding, refused, Event, calls, moves, run, step, act, go, acquire_lock, look,
  ask_holder, look_again, bind_socket,
}
use macula_mcp.Hold.Invariant.{is_own, is_bound}
use macula_mcp.Hold.Exclusion.{run-one_holder}
use macula_mcp.Hold.Decision.{move_times, run-decided}
use macula_mcp.Hold.Address.{
  linux, owner_only_directory, owner_only_mode, owner_only_parent, parent_mode,
}

abbrev own_pid : ℕ → ℕ
own_pid a = a

-- The socket of process 9, which is gone.
abbrev leftover : System
leftover = record {
  file = some (record { stamp = 0; owner = 9 });
  lock = none;
  next_stamp = 1;
  alive = λ p. not (p == 9);
  at = λ a. idle;
}

-- Actor 1 reclaims the leftover while 2 waits for the lock, and 2 finds its socket.
abbrev two_newcomers : List Event
two_newcomers = calls 1 ∷ calls 2 ∷ move_times 4 1 ++ (moves 2 ∷ move_times 4 1 ++ move_times 4 2)

refused_by_1 : (run own_pid two_newcomers leftover).at 2 ≡ refused (some 1)
unfolding run step go act acquire_lock look ask_holder look_again bind_socket
refused_by_1 = refl

run-one_holder_example :
    (is_own 1 (run own_pid two_newcomers leftover).file ≡ true)
    × (is_bound ((run own_pid two_newcomers leftover).at 2) ≡ false)
unfolding run step go act acquire_lock look ask_holder look_again bind_socket
run-one_holder_example =
    run-one_holder own_pid two_newcomers leftover 1 2 (λ c. refl) refl refl refl refl

run-decided_example : (run own_pid (calls 1 ∷ move_times 8 1) leftover).at 1 ≡ holding
run-decided_example = run-decided own_pid 1 leftover refl refl refl

open_parent :
    owner_only_directory linux 7
      (record { is_directory = true; uid = 7; mode = 448 })
      (record { is_directory = true; uid = 7; mode = 511 })
    ≡ some (parent_mode 511)
unfolding owner_only_directory owner_only_mode owner_only_parent
open_parent = refl
