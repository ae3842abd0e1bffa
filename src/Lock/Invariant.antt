-- ===== src/Lock/Invariant.antt =====
-- src/realm_lock.ts: what each live actor may rely on, kept by every call of every other.
use macula_mcp.Base.{
  ℕ, ◌≡◌, Bool, true, false, not, ◌&&◌, ◌||◌, Option, none, some, List, [], ◌∷◌, ◌==◌, arith,
}
use macula_mcp.Lock.{
  lock_stale_ms, marker_stale_ms, LockFile, Pc, naming, holding, dropping, unlinking, checking,
  aging, probing, naming_marker, quarantining, removing, leaving, unmarking, System, go, is_older,
  try_create, read_holder, probe, stat_lock, take_reclaim_marker, stat_marker, drop_lock,
  drop_marker, act, Event, acquires, moves, gives_up, exits, ticks, step, run,
}

abbrev pub is_own : ℕ → Option LockFile → Bool
is_own a none = false
is_own a (some f) = f.owner == a

-- From the creation of the lock to its removal.
abbrev pub has_lock : Pc → Bool
has_lock naming = true
has_lock holding = true
has_lock dropping = true
has_lock unlinking = true
has_lock _ = false

module _ (pid_of : ℕ → ℕ) where
  -- The file is there, and the process that created it is gone.
  abbrev pub is_orphan : (ℕ → Bool) → Option LockFile → Bool
  is_orphan alive none = false
  is_orphan alive (some f) = not (alive (pid_of f.owner))

  -- What a live actor relies on: its own files are in place, and a lock that it is about to remove
  -- is an orphan.
  abbrev pub relies : ℕ → Pc → (ℕ → Bool) → Option LockFile → Option LockFile → Bool
  relies a naming alive lock marker = is_own a lock
  relies a holding alive lock marker = is_own a lock
  relies a dropping alive lock marker = is_own a lock
  relies a unlinking alive lock marker = is_own a lock
  relies a naming_marker alive lock marker = is_own a marker
  relies a (checking true) alive lock marker = is_own a marker
  relies a (aging true) alive lock marker = is_own a marker
  relies a (probing true d) alive lock marker = is_own a marker && (alive d || is_orphan alive lock)
  relies a removing alive lock marker = is_own a marker && is_orphan alive lock
  relies a leaving alive lock marker = is_own a marker
  relies a unmarking alive lock marker = is_own a marker
  relies a quarantining alive lock marker = false
  relies a _ alive lock marker = true

  -- The pid in a lock file is that of its creator.
  abbrev pub is_signed : Option LockFile → Bool
  is_signed none = true
  is_signed (some f) = elim f.pid [ none ↦ true | some p ↦ p == pid_of f.owner ]

  -- No lock of a live process is stale, and no marker is.
  abbrev pub is_timely : System → Bool
  is_timely s =
      (not (is_older lock_stale_ms s.now s.lock) || is_orphan s.alive s.lock)
      && not (is_older marker_stale_ms s.now s.marker)

  abbrev pub holds_up : ℕ → System → Bool
  holds_up a s = not (s.alive (pid_of a)) || relies a (s.at a) s.alive s.lock s.marker

  act-relies :
      (p a : ℕ) (pc : Pc) (s : System)
      → s.alive (pid_of p) ≡ true
      → is_timely s ≡ true
      → is_signed s.lock ≡ true
      → relies p pc s.alive s.lock s.marker ≡ true
      → holds_up a s ≡ true
      → holds_up a (act pid_of p pc s) ≡ true
  unfolding act go try_create read_holder probe stat_lock take_reclaim_marker stat_marker drop_lock
      drop_marker
  act-relies p a pc s live timely signed own h = ground arith

  act-is_signed :
      (p : ℕ) (pc : Pc) (s : System)
      → is_signed s.lock ≡ true
      → is_signed (act pid_of p pc s).lock ≡ true
  unfolding act go try_create read_holder probe stat_lock take_reclaim_marker stat_marker drop_lock
      drop_marker
  act-is_signed p pc s h = ground arith

  abbrev is_probing : ℕ → Pc → Bool
  is_probing d (probing true e) = e == d
  is_probing d _ = false

  -- Nobody is between reading a pid under the marker and asking whether its process lives when
  -- that process goes.
  abbrev pub IsQuiet : Event → System → Type 0
  IsQuiet (exits d) s = (a : ℕ) → is_probing d (s.at a) ≡ false
  IsQuiet _ s = Unit

  abbrev pub IsOrderly : List Event → System → Type 0
  IsOrderly [] s = Unit
  IsOrderly (e ∷ es) s = (is_timely s ≡ true) × (IsQuiet e s × IsOrderly es (step pid_of e s))

  abbrev pub IsSound : System → Type 0
  IsSound s = (is_signed s.lock ≡ true) × ((a : ℕ) → holds_up a s ≡ true)

  step-IsSound :
      (e : Event) (s : System)
      → is_timely s ≡ true
      → IsQuiet e s
      → IsSound s
      → IsSound (step pid_of e s)
  unfolding step go
  step-IsSound (acquires p) s timely quiet (signed, h) = (ground arith, λ a. ground (arith, h a))
  step-IsSound (gives_up p) s timely quiet (signed, h) = (ground arith, λ a. ground (arith, h a))
  step-IsSound (ticks ms) s timely quiet (signed, h) = (signed, λ a. h a)
  step-IsSound (exits d) s timely quiet (signed, h) = (signed, λ a. ground (arith, h a, quiet a))
  step-IsSound (moves p) s timely quiet (signed, h) = (
    ground (arith, act-is_signed p (s.at p) s signed),
    λ a. ground (arith, h a, h p, act-relies p a (s.at p) s),
  )

  pub run-IsSound :
      (es : List Event) (s : System) → IsOrderly es s → IsSound s → IsSound (run pid_of es s)
  unfolding run
  run-IsSound [] s o h = h
  run-IsSound (e ∷ es) s (timely, (quiet, rest)) h =
      run-IsSound es (step pid_of e s) rest (step-IsSound e s timely quiet h)
