-- ===== src/Tests/Locks.antt =====
-- Tests of the lock file: schedules of its calls.
use macula_mcp.Base.{ℕ, ◌≡◌, refl, false, not, ◌&&◌, none, some, List, ◌∷◌, ◌++◌, ◌==◌}
use macula_mcp.Lock.{
  LockFile, System, Pc, out, holding, Event, acquires, moves, gives_up, exits, ticks, run, step,
  act, go, try_create,
}
use macula_mcp.Lock.Invariant.{IsOrderly, has_lock}
use macula_mcp.Lock.Exclusion.{run-exclusive}
use macula_mcp.Lock.Reclaim.{calls}

-- Every actor is a process of its own.
abbrev own_pid : ℕ → ℕ
own_pid a = a

abbrev left_by : ℕ → LockFile
left_by a = record { owner = a; pid = some a; mtime = 0 }

-- The lock of process 9, which is gone.
abbrev crashed : System
crashed = record {
  lock = some (left_by 9);
  marker = none;
  now = 5;
  alive = λ p. not (p == 9);
  at = λ a. out;
}

-- Actor 1 is about to take the marker when 5 reclaims the lock and 2 takes it. Then 1 reads the pid
-- of 2, which releases and exits; 3 takes the lock, 1 finds that 2 is gone and removes it.
abbrev outlived : List Event
outlived =
    acquires 1 ∷ calls 3 1
    ++ (acquires 5 ∷ calls 10 5)
    ++ (acquires 2 ∷ calls 2 2)
    ++ calls 3 1
    ++ calls 3 2
    ++ (exits 2 ∷ acquires 3 ∷ calls 2 3)
    ++ calls 2 1
    ++ (acquires 4 ∷ calls 2 4)

outlived_holders :
    ((run own_pid outlived crashed).at 3 ≡ holding)
    × ((run own_pid outlived crashed).at 4 ≡ holding)
unfolding run step go act try_create macula_mcp.Lock.read_holder macula_mcp.Lock.probe
    macula_mcp.Lock.take_reclaim_marker macula_mcp.Lock.drop_marker macula_mcp.Lock.drop_lock
outlived_holders = (refl, refl)

-- The lock of process 9 and the marker of process 8, both gone for long.
abbrev wedged : System
wedged = record crashed {
  marker = some (left_by 8);
  now = 70000;
  alive = λ p. not (p == 9) && not (p == 8);
}

-- Actors 1 and 2 both find the marker stale. 1 moves it and makes one of its own, which 2 moves.
abbrev moved_twice : List Event
moved_twice =
    acquires 1 ∷ calls 5 1
    ++ (acquires 2 ∷ calls 5 2)
    ++ calls 9 1
    ++ calls 9 2
    ++ calls 1 1
    ++ (acquires 3 ∷ calls 2 3)
    ++ calls 1 2
    ++ (acquires 4 ∷ calls 2 4)

moved_twice_holders :
    ((run own_pid moved_twice wedged).at 3 ≡ holding)
    × ((run own_pid moved_twice wedged).at 4 ≡ holding)
unfolding run step go act try_create macula_mcp.Lock.read_holder macula_mcp.Lock.probe
    macula_mcp.Lock.take_reclaim_marker macula_mcp.Lock.stat_marker
moved_twice_holders = (refl, refl)

-- An actor of process 1 finds the crashed lock, takes it, and an actor of process 2 finds it taken.
abbrev contended : List Event
contended = acquires 1 ∷ acquires 2 ∷ calls 13 1 ++ calls 3 2

contended-IsOrderly : IsOrderly own_pid contended crashed
unfolding step go act try_create macula_mcp.Lock.read_holder macula_mcp.Lock.probe
    macula_mcp.Lock.take_reclaim_marker macula_mcp.Lock.drop_marker
contended-IsOrderly = (
  refl,
  (
    tt,
    (
      refl,
      (
        tt,
        (
          refl,
          (
            tt,
            (
              refl,
              (
                tt,
                (
                  refl,
                  (
                    tt,
                    (
                      refl,
                      (
                        tt,
                        (
                          refl,
                          (
                            tt,
                            (
                              refl,
                              (
                                tt,
                                (
                                  refl,
                                  (
                                    tt,
                                    (
                                      refl,
                                      (
                                        tt,
                                        (
                                          refl,
                                          (
                                            tt,
                                            (
                                              refl,
                                              (
                                                tt,
                                                (
                                                  refl,
                                                  (
                                                    tt,
                                                    (
                                                      refl,
                                                      (
                                                        tt,
                                                        (
                                                          refl,
                                                          (
                                                            tt,
                                                            (
                                                            refl,
                                                            (tt, (refl, (tt, (refl, (tt, tt))))),
                                                            ),
                                                          ),
                                                        ),
                                                      ),
                                                    ),
                                                  ),
                                                ),
                                              ),
                                            ),
                                          ),
                                        ),
                                      ),
                                    ),
                                  ),
                                ),
                              ),
                            ),
                          ),
                        ),
                      ),
                    ),
                  ),
                ),
              ),
            ),
          ),
        ),
      ),
    ),
  ),
)

run-exclusive_example : has_lock ((run own_pid contended crashed).at 2) ≡ false
unfolding run step go act try_create macula_mcp.Lock.read_holder macula_mcp.Lock.probe
    macula_mcp.Lock.take_reclaim_marker macula_mcp.Lock.drop_marker
run-exclusive_example =
    run-exclusive own_pid contended crashed 1 2 (λ c. refl) refl contended-IsOrderly refl refl refl
      refl
