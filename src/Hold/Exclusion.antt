-- ===== src/Hold/Exclusion.antt =====
-- src/hold_node_identity.ts: how many live processes hold an identity.
use macula_mcp.Base.{ℕ, ◌≡◌, true, false, List, ◌==◌, arith}
use macula_mcp.Hold.{holding, idle, System, Event, run}
use macula_mcp.Hold.Invariant.{is_own, is_bound, holds_up, IsSound}
use macula_mcp.Hold.Steps.{run-IsSound}

module _ (pid_of : ℕ → ℕ) where
  pub idle-IsSound : (s : System) → ((c : ℕ) → s.at c ≡ idle) → IsSound pid_of s
  unfolding holds_up
  idle-IsSound s outside a = ground (arith, outside a)

  IsSound-one_holder :
      (s : System) (a b : ℕ)
      → IsSound pid_of s
      → s.alive (pid_of a) ≡ true
      → s.at a ≡ holding
      → s.alive (pid_of b) ≡ true
      → (a == b) ≡ false
      → (is_own a s.file ≡ true) × (is_bound (s.at b) ≡ false)
  unfolding holds_up
  IsSound-one_holder s a b h live_a has live_b other = ground (arith, h a, h b)

  -- A node identity has one holder. From a directory in which a crashed holder may have left its
  -- socket, whatever the calls of any number of processes interleave to, wherever they crash, meet
  -- errors or release, the socket at the address is that of the live holder, so that it answers a
  -- newcomer, and no other live process has bound one, as long as one actor at a time has the lock
  -- of the address.
  pub run-one_holder :
      (es : List Event) (s : System) (a b : ℕ)
      → ((c : ℕ) → s.at c ≡ idle)
      → (run pid_of es s).alive (pid_of a) ≡ true
      → (run pid_of es s).at a ≡ holding
      → (run pid_of es s).alive (pid_of b) ≡ true
      → (a == b) ≡ false
      → (is_own a (run pid_of es s).file ≡ true) × (is_bound ((run pid_of es s).at b) ≡ false)
  run-one_holder es s a b outside live_a has live_b other =
      IsSound-one_holder (run pid_of es s) a b (run-IsSound pid_of es s (idle-IsSound s outside))
        live_a has live_b other
