-- ===== src/Lock/Reclaim.antt =====
-- src/realm_lock.ts: how a lock that a crashed process left is taken again.
use macula_mcp.Base.{ℕ, suc, zero, ◌≡◌, true, false, none, some, List, [], ◌∷◌, arith}
use macula_mcp.Lock.{
  LockFile, trying, holding, System, go, try_create, read_holder, probe, stat_lock,
  take_reclaim_marker, stat_marker, drop_lock, drop_marker, act, Event, moves, step, run,
}

abbrev pub calls : ℕ → ℕ → List Event
calls zero a = []
calls (suc n) a = moves a ∷ calls n a

module _ (pid_of : ℕ → ℕ) where
  -- One waiter that is not interrupted takes a lock that a crashed process left, in thirteen calls.
  run-reclaims :
      (a d : ℕ) (f : LockFile) (s : System)
      → s.at a ≡ trying
      → s.alive (pid_of a) ≡ true
      → s.lock ≡ some f
      → f.pid ≡ some d
      → s.alive d ≡ false
      → s.marker ≡ none
      → (run pid_of (calls 13 a) s).at a ≡ holding
  unfolding run step act go try_create read_holder probe stat_lock take_reclaim_marker stat_marker
      drop_lock drop_marker
  run-reclaims a d f s t live there signed gone free = ground arith
