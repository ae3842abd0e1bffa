-- ===== src/Hold/Invariant.antt =====
-- src/hold_node_identity.ts: what each live actor may rely on, kept by every call of every other.
use macula_mcp.Base.{ℕ, ◌≡◌, Bool, true, false, not, ◌&&◌, ◌||◌, Option, none, some, ◌==◌, arith}
use macula_mcp.Hold.{
  SocketFile, hold, Pc, idle, looking, binding, listening, asking, rechecking, unlinking, unlocking,
  holding, System, go, acquire_lock, answers, bind_socket,
}

abbrev pub is_own : ℕ → Option SocketFile → Bool
is_own a none = false
is_own a (some f) = f.owner == a

abbrev pub has : ℕ → Option ℕ → Bool
has a none = false
has a (some b) = b == a

-- From the bind of the socket to its release.
abbrev pub is_bound : Pc → Bool
is_bound (listening n) = true
is_bound (unlocking n hold) = true
is_bound holding = true
is_bound _ = false

abbrev pub in_lock : Pc → Bool
in_lock (looking n) = true
in_lock (asking n stamp) = true
in_lock (rechecking n stamp) = true
in_lock (unlinking n) = true
in_lock (binding n) = true
in_lock (listening n) = true
in_lock (unlocking n o) = true
in_lock _ = false

-- Such an actor is about to unlink what stands at the address.
abbrev pub about_to_unlink : Pc → Bool
about_to_unlink (rechecking n stamp) = true
about_to_unlink (unlinking n) = true
about_to_unlink _ = false

module _ (pid_of : ℕ → ℕ) where
  -- No live actor has bound the file.
  abbrev pub is_leftover : System → Option SocketFile → Bool
  is_leftover s none = true
  is_leftover s (some f) = not (s.alive (pid_of f.owner) && is_bound (s.at f.owner))

  -- A live actor between its lock and its unlock has the lock, the file that it bound is the one at
  -- the address, and what it is about to unlink is a leftover.
  unfoldable pub holds_up : ℕ → System → Bool
  holds_up a s =
      not (s.alive (pid_of a))
      || (not (in_lock (s.at a)) || has a s.lock)
        && ((not (is_bound (s.at a)) || is_own a s.file)
            && (not (about_to_unlink (s.at a)) || is_leftover s s.file))

  abbrev pub IsSound : System → Type 0
  IsSound s = (a : ℕ) → holds_up a s ≡ true

  -- What an actor has by its place.
  module _ (p : ℕ) (s : System) (live : s.alive (pid_of p) ≡ true) (h : holds_up p s ≡ true) where
    pub has_lock : in_lock (s.at p) ≡ true → has p s.lock ≡ true
    unfolding holds_up
    has_lock e = ground arith

    pub has_file : is_bound (s.at p) ≡ true → is_own p s.file ≡ true
    unfolding holds_up
    has_file e = ground arith

    pub has_leftover : about_to_unlink (s.at p) ≡ true → is_leftover s s.file ≡ true
    unfolding holds_up
    has_leftover e = ground arith

  -- An actor that binds nothing moves.
  pub go-holds_up :
      (p a : ℕ) (pc : Pc) (s : System)
      → is_bound (s.at p) ≡ false
      → is_bound pc ≡ false
      → (not (in_lock pc) || has p s.lock) ≡ true
      → (not (about_to_unlink pc) || is_leftover s s.file) ≡ true
      → holds_up a s ≡ true
      → holds_up a (go p pc s) ≡ true
  unfolding holds_up go
  go-holds_up p a pc s before after l f h = ground arith

  -- Whoever does not answer while another has the lock has bound nothing.
  pub unanswered-is_leftover :
      (p : ℕ) (f : SocketFile) (s : System)
      → has p s.lock ≡ true
      → is_bound (s.at p) ≡ false
      → holds_up f.owner s ≡ true
      → answers pid_of s f ≡ false
      → is_leftover s (some f) ≡ true
  unfolding holds_up
  unanswered-is_leftover p f s l before h u = ground arith

  pub acquire_lock-holds_up :
      (p a n : ℕ) (s : System)
      → is_bound (s.at p) ≡ false
      → holds_up a s ≡ true
      → holds_up a (acquire_lock pid_of p n s) ≡ true
  unfolding holds_up go acquire_lock
  acquire_lock-holds_up p a n s before h = ground arith

  pub unlinked-holds_up :
      (p a n : ℕ) (s : System)
      → is_bound (s.at p) ≡ false
      → has p s.lock ≡ true
      → is_leftover s s.file ≡ true
      → holds_up a s ≡ true
      → holds_up a (go p (binding n) (record s { file = none })) ≡ true
  unfolding holds_up go
  unlinked-holds_up p a n s before l f h = ground arith

  pub bind_socket-holds_up :
      (p a n : ℕ) (s : System)
      → is_bound (s.at p) ≡ false
      → has p s.lock ≡ true
      → holds_up a s ≡ true
      → holds_up a (bind_socket pid_of p n s) ≡ true
  unfolding holds_up go bind_socket
  bind_socket-holds_up p a n s before l h = ground arith

  pub listened-holds_up :
      (p a n : ℕ) (s : System)
      → has p s.lock ≡ true
      → is_own p s.file ≡ true
      → holds_up a s ≡ true
      → holds_up a (go p (unlocking n hold) s) ≡ true
  unfolding holds_up go
  listened-holds_up p a n s l f h = ground arith

  pub unlocked-holds_up :
      (p a : ℕ) (pc : Pc) (s : System)
      → has p s.lock ≡ true
      → in_lock pc ≡ false
      → about_to_unlink pc ≡ false
      → is_bound pc ≡ is_bound (s.at p)
      → (not (is_bound pc) || is_own p s.file) ≡ true
      → holds_up a s ≡ true
      → holds_up a (go p pc (record s { lock = none })) ≡ true
  unfolding holds_up go
  unlocked-holds_up p a pc s l i u b f h = ground arith

  pub closed-holds_up :
      (p a : ℕ) (s : System)
      → is_own p s.file ≡ true
      → holds_up a s ≡ true
      → holds_up a (go p idle (record s { file = none })) ≡ true
  unfolding holds_up go
  closed-holds_up p a s f h = ground arith
