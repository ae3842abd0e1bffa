-- ===== src/Hold/Steps.antt =====
-- src/hold_node_identity.ts: every step of every actor keeps what the live actors rely on.
use macula_mcp.Base.{
  ℕ, ◌≡◌, refl, true, false, none, some, List, [], ◌∷◌, arith, Option-cases, Bool-cases, inl, inr,
}
use macula_mcp.Hold.{
  Outcome, retry, threw, held_by, Pc, idle, locking, looking, binding, listening, asking,
  rechecking, unlinking, unlocking, holding, refused, failed, System, go, Event, calls, moves, errs,
  releases, exits, look, ask_holder, look_again, after_attempt, act, fail, release, step, run,
}
use macula_mcp.Hold.Invariant.{
  is_bound, in_lock, holds_up, IsSound, has_lock, has_file, has_leftover, go-holds_up,
  unanswered-is_leftover, acquire_lock-holds_up, unlinked-holds_up, bind_socket-holds_up,
  listened-holds_up, unlocked-holds_up, closed-holds_up,
}

module _ (pid_of : ℕ → ℕ) (p : ℕ) (s : System) (live : s.alive (pid_of p) ≡ true)
    (sound : IsSound pid_of s) (a : ℕ) where
  pub look-holds_up : (n : ℕ) → s.at p ≡ looking n → holds_up pid_of a (look pid_of p n s) ≡ true
  unfolding look
  look-holds_up n e = elim (Option-cases s.file) [
    | inl away ↦
        ground
          (arith, sound a, has_lock pid_of p s live (sound p), go-holds_up pid_of p a (binding n) s)
    | inr (f, there) ↦ ground (
      arith,
      sound a,
      has_lock pid_of p s live (sound p),
      go-holds_up pid_of p a (asking n f.stamp) s,
    )
  ]

  pub ask_holder-holds_up :
      (n stamp : ℕ)
      → s.at p ≡ asking n stamp
      → holds_up pid_of a (ask_holder pid_of p n stamp s) ≡ true
  unfolding ask_holder
  ask_holder-holds_up n stamp e = elim (Option-cases s.file) [
    | inl away ↦ ground (
      arith,
      sound a,
      has_lock pid_of p s live (sound p),
      go-holds_up pid_of p a (rechecking n stamp) s,
    )
    | inr (f, there) ↦ ground (
      arith,
      sound a,
      has_lock pid_of p s live (sound p),
      unanswered-is_leftover pid_of p f s,
      sound f.owner,
      go-holds_up pid_of p a (rechecking n stamp) s,
      go-holds_up pid_of p a (unlocking n (held_by (some (pid_of f.owner)))) s,
    )
  ]

  pub look_again-holds_up :
      (n stamp : ℕ)
      → s.at p ≡ rechecking n stamp
      → holds_up pid_of a (look_again pid_of p n stamp s) ≡ true
  unfolding look_again
  look_again-holds_up n stamp e = elim (Option-cases s.file) [
    | inl away ↦ ground (
      arith,
      sound a,
      has_lock pid_of p s live (sound p),
      go-holds_up pid_of p a (unlocking n retry) s,
    )
    | inr (f, there) ↦ ground (
      arith,
      sound a,
      has_lock pid_of p s live (sound p),
      has_leftover pid_of p s live (sound p),
      go-holds_up pid_of p a (unlocking n retry) s,
      go-holds_up pid_of p a (unlinking n) s,
    )
  ]

  -- What an actor does after its attempt.
  unlock-holds_up :
      (n : ℕ) (o : Outcome)
      → s.at p ≡ unlocking n o
      → holds_up pid_of a (act pid_of p (unlocking n o) s) ≡ true
  unfolding act
  unlock-holds_up n o e = ground (
    arith,
    sound a,
    has_lock pid_of p s live (sound p),
    has_file pid_of p s live (sound p),
    unlocked-holds_up pid_of p a (after_attempt pid_of n o) s,
  )

  act-holds_up : (pc : Pc) → s.at p ≡ pc → holds_up pid_of a (act pid_of p pc s) ≡ true
  unfolding act
  act-holds_up (locking n) e = acquire_lock-holds_up pid_of p a n s (rw e refl) (sound a)
  act-holds_up (looking n) e = look-holds_up n e
  act-holds_up (asking n stamp) e = ask_holder-holds_up n stamp e
  act-holds_up (rechecking n stamp) e = look_again-holds_up n stamp e
  act-holds_up (unlinking n) e =
      unlinked-holds_up pid_of p a n s (rw e refl) (has_lock pid_of p s live (sound p) (rw e refl))
        (has_leftover pid_of p s live (sound p) (rw e refl)) (sound a)
  act-holds_up (binding n) e =
      bind_socket-holds_up pid_of p a n s (rw e refl)
        (has_lock pid_of p s live (sound p) (rw e refl)) (sound a)
  act-holds_up (listening n) e =
      listened-holds_up pid_of p a n s (has_lock pid_of p s live (sound p) (rw e refl))
        (has_file pid_of p s live (sound p) (rw e refl)) (sound a)
  act-holds_up (unlocking n o) e = unlock-holds_up n o e
  act-holds_up idle e = sound a
  act-holds_up holding e = sound a
  act-holds_up (refused who) e = sound a
  act-holds_up failed e = sound a

  -- An attempt that fails with the lock in hand.
  pub thrown-holds_up :
      (n : ℕ) (o : Outcome)
      → is_bound (s.at p) ≡ false
      → in_lock (s.at p) ≡ true
      → is_bound (unlocking n o) ≡ false
      → holds_up pid_of a (go p (unlocking n o) s) ≡ true
  thrown-holds_up n o before inside after =
      ground (
        arith,
        sound a,
        has_lock pid_of p s live (sound p),
        go-holds_up pid_of p a (unlocking n o) s,
      )

  fail-holds_up : (pc : Pc) → s.at p ≡ pc → holds_up pid_of a (fail pid_of p pc s) ≡ true
  unfolding fail
  fail-holds_up (locking n) e = go-holds_up pid_of p a failed s (rw e refl) refl refl refl (sound a)
  fail-holds_up (looking n) e = thrown-holds_up n threw (rw e refl) (rw e refl) refl
  fail-holds_up (asking n stamp) e = thrown-holds_up n (held_by none) (rw e refl) (rw e refl) refl
  fail-holds_up (rechecking n stamp) e = thrown-holds_up n threw (rw e refl) (rw e refl) refl
  fail-holds_up (unlinking n) e = thrown-holds_up n threw (rw e refl) (rw e refl) refl
  fail-holds_up (binding n) e = thrown-holds_up n threw (rw e refl) (rw e refl) refl
  fail-holds_up (listening n) e = sound a
  fail-holds_up (unlocking n o) e = sound a
  fail-holds_up idle e = sound a
  fail-holds_up holding e = sound a
  fail-holds_up (refused who) e = sound a
  fail-holds_up failed e = sound a

  release-holds_up : (pc : Pc) → s.at p ≡ pc → holds_up pid_of a (release pid_of p pc s) ≡ true
  unfolding release
  release-holds_up holding e =
      closed-holds_up pid_of p a s (has_file pid_of p s live (sound p) (rw e refl)) (sound a)
  release-holds_up pc e = sound a

module _ (pid_of : ℕ → ℕ) where
  called-holds_up :
      (p a : ℕ) (s : System)
      → holds_up pid_of a s ≡ true
      → is_bound (s.at p) ≡ false
      → holds_up pid_of a (go p (locking 2) s) ≡ true
  called-holds_up p a s h before = go-holds_up pid_of p a (locking 2) s before refl refl refl h

  exits-holds_up :
      (p a : ℕ) (s : System)
      → holds_up pid_of a s ≡ true
      → holds_up pid_of a (step pid_of (exits p) s) ≡ true
  unfolding holds_up step
  exits-holds_up p a s h = ground arith

  step-IsSound : (e : Event) (s : System) → IsSound pid_of s → IsSound pid_of (step pid_of e s)
  unfolding step
  step-IsSound (calls p) s h a = ground (arith, h a, called-holds_up p a s (h a))
  step-IsSound (exits p) s h a = unfold step in exits-holds_up p a s (h a)
  step-IsSound (moves p) s h a = elim (Bool-cases (s.alive (pid_of p))) [
    | inl live ↦ rw live (act-holds_up pid_of p s live h a (s.at p) refl)
    | inr gone ↦ rw gone (h a)
  ]
  step-IsSound (errs p) s h a = elim (Bool-cases (s.alive (pid_of p))) [
    | inl live ↦ rw live (fail-holds_up pid_of p s live h a (s.at p) refl)
    | inr gone ↦ rw gone (h a)
  ]
  step-IsSound (releases p) s h a = elim (Bool-cases (s.alive (pid_of p))) [
    | inl live ↦ rw live (release-holds_up pid_of p s live h a (s.at p) refl)
    | inr gone ↦ rw gone (h a)
  ]

  pub run-IsSound :
      (es : List Event) (s : System) → IsSound pid_of s → IsSound pid_of (run pid_of es s)
  unfolding run
  run-IsSound [] s h = h
  run-IsSound (e ∷ es) s h = run-IsSound es (step pid_of e s) (step-IsSound e s h)
