-- ===== src/Hold.antt =====
-- src/hold_node_identity.ts: the hold of a node identity on a socket file, by processes that share
-- the machine. An actor is one call of holdNodeIdentity up to its release; `pid_of` is its process.
-- A move is one call of the operating system, so actors interleave between any two. The lock
-- <socket>.reclaim is here what the module Lock shows of it: one actor has it, and a process that
-- goes leaves it to the next. The lock file of Windows is left out.
pub mod Address
pub mod Invariant
pub mod Steps
pub mod Exclusion
pub mod Decision
use macula_mcp.Base.{
  ℕ, zero, suc, ◌+◌, ◌-◌, ◌≡◌, Bool, true, false, ◌&&◌, Option, none, some, List, [], ◌∷◌, ◌==◌,
  if◌then◌else◌,
}

-- HOLD_ATTEMPTS
abbrev pub hold_attempts : ℕ
hold_attempts = 3

-- A socket file: its device, inode and change time as one stamp, and the actor that bound it.
pub record SocketFile : Type 0 where
  pub stamp : ℕ
  pub owner : ℕ

-- What lockedHold gives, or that it threw.
pub data Outcome : Type 0 where
  hold retry threw : Outcome
  held_by : Option ℕ → Outcome

-- What an actor does next; n is the number of attempts that are left after this one.
pub data Pc : Type 0 where
  idle : Pc
  locking looking binding listening : (n : ℕ) → Pc
  asking rechecking : (n stamp : ℕ) → Pc
  unlinking : (n : ℕ) → Pc
  unlocking : (n : ℕ) → Outcome → Pc
  holding : Pc
  refused : Option ℕ → Pc
  failed : Pc

pub record System : Type 0 where
  pub file : Option SocketFile
  pub lock : Option ℕ
  pub next_stamp : ℕ
  pub alive : ℕ → Bool
  pub at : ℕ → Pc

unfoldable pub go : ℕ → Pc → System → System
go a pc s = record s { at = λ b. if b == a then pc else s.at b }

-- An actor is called, makes its next call, meets an error of the system, or releases its hold; a
-- process goes.
pub data Event : Type 0 where
  calls moves errs releases : (actor : ℕ) → Event
  exits : (pid : ℕ) → Event

abbrev pub is_listening : Pc → Bool
is_listening (unlocking n hold) = true
is_listening holding = true
is_listening _ = false

abbrev pub is_idle : Pc → Bool
is_idle idle = true
is_idle _ = false

module _ (pid_of : ℕ → ℕ) where
  -- acquireLock, taken as a lock that one actor has at a time and that an exit frees: what it is in
  -- the orderly runs of Lock, and not in those that the findings on realm_lock.ts show.
  unfoldable pub acquire_lock : ℕ → ℕ → System → System
  acquire_lock a n s = elim s.lock [
    | some b ↦ s
    | none ↦ go a (looking n) (record s { lock = some a })
  ]

  -- The first fileAt.
  unfoldable pub look : ℕ → ℕ → System → System
  look a n s = elim s.file [ none ↦ go a (binding n) s | some f ↦ go a (asking n f.stamp) s ]

  -- A server answers while its process lives and it listens.
  abbrev pub answers : System → SocketFile → Bool
  answers s f = s.alive (pid_of f.owner) && is_listening (s.at f.owner)

  -- askHolder: the pid that the holder says, or that nobody is there.
  unfoldable pub ask_holder : ℕ → ℕ → ℕ → System → System
  ask_holder a n stamp s = elim s.file [
    | none ↦ go a (rechecking n stamp) s
    | some f ↦
        if answers s f
        then go a (unlocking n (held_by (some (pid_of f.owner)))) s
        else go a (rechecking n stamp) s
  ]

  -- The second fileAt.
  unfoldable pub look_again : ℕ → ℕ → ℕ → System → System
  look_again a n stamp s = elim s.file [
    | none ↦ go a (unlocking n retry) s
    | some f ↦ if f.stamp == stamp then go a (unlinking n) s else go a (unlocking n retry) s
  ]

  -- The bind of listenedHold; EADDRINUSE where a file is.
  unfoldable pub bind_socket : ℕ → ℕ → System → System
  bind_socket a n s = elim s.file [
    | some f ↦ go a (unlocking n retry) s
    | none ↦ go a (listening n) (record s {
      file = some (record { stamp = s.next_stamp; owner = a });
      next_stamp = s.next_stamp + 1;
    })
  ]

  -- Where the loop of holdSocketFile goes on.
  abbrev pub after_attempt : ℕ → Outcome → Pc
  after_attempt n hold = holding
  after_attempt n (held_by who) = refused who
  after_attempt n threw = failed
  after_attempt zero retry = refused none
  after_attempt (suc n) retry = locking n

  unfoldable pub act : ℕ → Pc → System → System
  act a (locking n) s = acquire_lock a n s
  act a (looking n) s = look a n s
  act a (asking n stamp) s = ask_holder a n stamp s
  act a (rechecking n stamp) s = look_again a n stamp s
  act a (unlinking n) s = go a (binding n) (record s { file = none })
  act a (binding n) s = bind_socket a n s
  act a (listening n) s = go a (unlocking n hold) s
  act a (unlocking n o) s = go a (after_attempt n o) (record s { lock = none })
  act a idle s = s
  act a holding s = s
  act a (refused who) s = s
  act a failed s = s

  -- An error of the next call: an ask that fails otherwise is a holder that did not say, a lock
  -- that is not had in time throws, and so does a file that cannot be read, unlinked or bound.
  unfoldable pub fail : ℕ → Pc → System → System
  fail a (locking n) s = go a failed s
  fail a (looking n) s = go a (unlocking n threw) s
  fail a (asking n stamp) s = go a (unlocking n (held_by none)) s
  fail a (rechecking n stamp) s = go a (unlocking n threw) s
  fail a (unlinking n) s = go a (unlocking n threw) s
  fail a (binding n) s = go a (unlocking n threw) s
  fail a pc s = s

  -- server.close(): the socket's path is unlinked, whatever stands there, and nobody listens. A
  -- second release does nothing.
  unfoldable pub release : ℕ → Pc → System → System
  release a holding s = go a idle (record s { file = none })
  release a pc s = s

  abbrev pub freed_by : ℕ → Option ℕ → Option ℕ
  freed_by p none = none
  freed_by p (some a) = if pid_of a == p then none else some a

  unfoldable pub step : Event → System → System
  step (calls a) s =
      if s.alive (pid_of a) && is_idle (s.at a) then go a (locking (hold_attempts - 1)) s else s
  step (moves a) s = if s.alive (pid_of a) then act a (s.at a) s else s
  step (errs a) s = if s.alive (pid_of a) then fail a (s.at a) s else s
  step (releases a) s = if s.alive (pid_of a) then release a (s.at a) s else s
  step (exits p) s = record s {
    alive = λ q. if q == p then false else s.alive q;
    lock = freed_by p s.lock;
  }

  unfoldable pub run : List Event → System → System
  run [] s = s
  run (e ∷ es) s = run es (step e s)
