-- ===== src/Lock.antt =====
-- src/realm_lock.ts: the lock file of a credential, taken by processes that share only the files.
-- An actor is one call of acquireLock up to its release; `pid_of` is its process, and one process
-- may have several. A move is one call of the operating system, so any two actors interleave
-- between any two calls. A process that is gone stays gone, and its actors move no more.
pub mod Invariant
pub mod Exclusion
pub mod Reclaim
use macula_mcp.Base.{
  ℕ, ◌+◌, ◌≡◌, Bool, true, false, not, ◌&&◌, ◌||◌, Option, none, some, List, [], ◌∷◌, ltb, ◌==◌,
  if◌then◌else◌,
}

abbrev pub lock_stale_ms : ℕ
lock_stale_ms = 30000

abbrev pub marker_stale_ms : ℕ
marker_stale_ms = 60000

-- A file of the directory: who created it, the pid that was written into it, and when it changed.
pub record LockFile : Type 0 where
  pub owner : ℕ
  pub pid : Option ℕ
  pub mtime : ℕ

-- What an actor calls next. The Boolean of a check tells whether it is made under the marker.
pub data Pc : Type 0 where
  out trying naming holding dropping unlinking waiting : Pc
  checking aging : (under_marker : Bool) → Pc
  probing : (under_marker : Bool) (pid : ℕ) → Pc
  marking naming_marker aging_marker quarantining removing leaving unmarking : Pc

pub record System : Type 0 where
  pub lock : Option LockFile
  pub marker : Option LockFile
  pub now : ℕ
  pub alive : ℕ → Bool
  pub at : ℕ → Pc

unfoldable pub go : ℕ → Pc → System → System
go a pc s = record s { at = λ b. if b == a then pc else s.at b }

-- O_EXCL: the file as it is created, before its pid is written.
abbrev pub created : ℕ → System → Option LockFile
created a s = some (record { owner = a; pid = none; mtime = s.now })

-- lockHolder
abbrev pub lock_holder : Option LockFile → Option ℕ
lock_holder none = none
lock_holder (some f) = f.pid

abbrev pub is_pid : ℕ → Option ℕ → Bool
is_pid p none = false
is_pid p (some q) = q == p

abbrev pub is_older : ℕ → ℕ → Option LockFile → Bool
is_older age now none = false
is_older age now (some f) = ltb (f.mtime + age) now

-- Where a check of the lock leads: abandonedLock gives true, or false.
abbrev pub abandoned : Bool → Pc
abandoned false = marking
abandoned true = removing

abbrev pub not_abandoned : Bool → Pc
not_abandoned false = waiting
not_abandoned true = leaving

-- An actor starts, makes its next call, or gives up at its deadline; a process goes; time passes.
pub data Event : Type 0 where
  acquires moves gives_up : (actor : ℕ) → Event
  exits : (pid : ℕ) → Event
  ticks : (ms : ℕ) → Event

abbrev is_out : Pc → Bool
is_out out = true
is_out _ = false

abbrev is_waiting : Pc → Bool
is_waiting waiting = true
is_waiting _ = false

module _ (pid_of : ℕ → ℕ) where
  -- writeSync on the descriptor of the actor's own file, wherever that file is now.
  abbrev pub named : ℕ → ℕ → Option LockFile → Option LockFile
  named a now none = none
  named a now (some f) =
      if f.owner == a
      then some (record { owner = f.owner; pid = some (pid_of a); mtime = now })
      else some f

  -- tryCreate, and where it leads when the file is there.
  unfoldable pub try_create : ℕ → System → System
  try_create a s = elim s.lock [
    | none ↦ go a naming (record s { lock = created a s })
    | some f ↦ go a (checking false) s
  ]

  -- The parts of abandonedLock.
  unfoldable pub read_holder : ℕ → Bool → System → System
  read_holder a under s = elim (lock_holder s.lock) [
    | none ↦ go a (aging under) s
    | some d ↦ go a (probing under d) s
  ]

  unfoldable pub probe : ℕ → Bool → ℕ → System → System
  probe a under d s = if s.alive d then go a (aging under) s else go a (abandoned under) s

  unfoldable pub stat_lock : ℕ → Bool → System → System
  stat_lock a under s =
      if is_older lock_stale_ms s.now s.lock
      then go a (abandoned under) s
      else go a (not_abandoned under) s

  -- takeReclaimMarker
  unfoldable pub take_reclaim_marker : ℕ → System → System
  take_reclaim_marker a s = elim s.marker [
    | none ↦ go a naming_marker (record s { marker = created a s })
    | some f ↦ go a aging_marker s
  ]

  unfoldable pub stat_marker : ℕ → System → System
  stat_marker a s =
      if is_older marker_stale_ms s.now s.marker then go a quarantining s else go a waiting s

  -- drop: the pid is read, and the file is unlinked if it is the actor's own.
  unfoldable pub drop_lock : ℕ → System → System
  drop_lock a s = if is_pid (pid_of a) (lock_holder s.lock) then go a unlinking s else go a out s

  unfoldable pub drop_marker : ℕ → System → System
  drop_marker a s =
      if is_pid (pid_of a) (lock_holder s.marker) then go a unmarking s else go a waiting s

  -- The next call of an actor.
  unfoldable pub act : ℕ → Pc → System → System
  act a out s = s
  act a trying s = try_create a s
  act a naming s = go a holding (record s { lock = named a s.now s.lock })
  act a holding s = go a dropping s
  act a dropping s = drop_lock a s
  act a unlinking s = go a out (record s { lock = none })
  act a (checking under) s = read_holder a under s
  act a (probing under d) s = probe a under d s
  act a (aging under) s = stat_lock a under s
  act a marking s = take_reclaim_marker a s
  act a naming_marker s = go a (checking true) (record s { marker = named a s.now s.marker })
  act a aging_marker s = stat_marker a s
  act a quarantining s = go a waiting (record s { marker = none })
  act a removing s = go a leaving (record s { lock = none })
  act a leaving s = drop_marker a s
  act a unmarking s = go a waiting (record s { marker = none })
  act a waiting s = go a trying s

  unfoldable pub step : Event → System → System
  step (acquires a) s = if s.alive (pid_of a) && is_out (s.at a) then go a trying s else s
  step (moves a) s = if s.alive (pid_of a) then act a (s.at a) s else s
  step (gives_up a) s = if s.alive (pid_of a) && is_waiting (s.at a) then go a out s else s
  step (exits p) s = record s { alive = λ q. if q == p then false else s.alive q }
  step (ticks ms) s = record s { now = s.now + ms }

  unfoldable pub run : List Event → System → System
  run [] s = s
  run (e ∷ es) s = run es (step e s)
