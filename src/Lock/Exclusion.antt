-- ===== src/Lock/Exclusion.antt =====
-- src/realm_lock.ts: how many live actors hold the lock, and which files they leave.
use macula_mcp.Base.{ℕ, ◌≡◌, true, false, List, ◌==◌, arith}
use macula_mcp.Lock.{out, System, Event, run}
use macula_mcp.Lock.Invariant.{has_lock, is_signed, IsOrderly, IsSound, run-IsSound}

module _ (pid_of : ℕ → ℕ) where
  IsSound-exclusive :
      (a b : ℕ) (s : System)
      → IsSound pid_of s
      → s.alive (pid_of a) ≡ true
      → s.alive (pid_of b) ≡ true
      → (a == b) ≡ false
      → has_lock (s.at a) ≡ true
      → has_lock (s.at b) ≡ false
  IsSound-exclusive a b s (signed, h) live_a live_b other has_a = ground (arith, h a, h b)

  -- Mutual exclusion across processes. From a directory in which a crashed holder may have left its
  -- lock, whatever the processes' calls on the two files interleave to, wherever processes crash and
  -- whichever actors give up, no live actor holds the lock (from its creation to its removal) while
  -- another live actor does. The run is orderly: no lock of a live process passes LOCK_STALE_MS, no
  -- marker passes MARKER_STALE_MS, and no process goes between the two calls by which an actor
  -- that holds the marker reads its pid from the lock and asks whether it lives.
  pub run-exclusive :
      (es : List Event) (s : System) (a b : ℕ)
      → ((c : ℕ) → s.at c ≡ out)
      → is_signed pid_of s.lock ≡ true
      → IsOrderly pid_of es s
      → (run pid_of es s).alive (pid_of a) ≡ true
      → (run pid_of es s).alive (pid_of b) ≡ true
      → (a == b) ≡ false
      → has_lock ((run pid_of es s).at a) ≡ true
      → has_lock ((run pid_of es s).at b) ≡ false
  run-exclusive es s a b outside signed orderly live_a live_b other has_a =
      IsSound-exclusive a b (run pid_of es s)
        (run-IsSound pid_of es s orderly (signed, λ c. ground (arith, outside c))) live_a live_b
        other has_a
