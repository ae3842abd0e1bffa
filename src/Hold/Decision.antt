-- ===== src/Hold/Decision.antt =====
-- src/hold_node_identity.ts: what an undisturbed newcomer is told.
use macula_mcp.Base.{
  ℕ, zero, suc, ◌≡◌, true, false, Option, none, some, List, [], ◌∷◌, arith, Bool-cases, inl, inr,
  if◌then◌else◌,
}
use macula_mcp.Hold.{
  SocketFile, Pc, idle, looking, binding, asking, holding, refused, System, go, Event, calls, moves,
  acquire_lock, look, answers, ask_holder, look_again, bind_socket, act, step, run,
}

abbrev pub move_times : ℕ → ℕ → List Event
move_times zero a = []
move_times (suc n) a = moves a ∷ move_times n a

module _ (pid_of : ℕ → ℕ) (a : ℕ) where
  bound_then_holds :
      (n : ℕ) (s : System)
      → s.alive (pid_of a) ≡ true
      → s.at a ≡ binding n
      → s.file ≡ none
      → (run pid_of (move_times 3 a) s).at a ≡ holding
  unfolding run step act bind_socket go
  bound_then_holds n s live e away = ground arith

  -- The moves of one attempt, each from what the one before it left.
  record Ready (pc : Pc) (file : Option SocketFile) (s t : System) : Type 0 where
    live : t.alive (pid_of a) ≡ true
    place : t.at a ≡ pc
    lock : t.lock ≡ some a
    same_file : t.file ≡ file
    same_answer : (f : SocketFile) → answers pid_of t f ≡ answers pid_of s f

  looks :
      (s : System)
      → s.alive (pid_of a) ≡ true
      → s.at a ≡ idle
      → s.lock ≡ none
      → Ready (looking 2) s.file s (run pid_of (calls a ∷ moves a ∷ []) s)
  unfolding run step act go acquire_lock
  looks s live e free = record {
    live = ground arith;
    place = ground arith;
    lock = ground arith;
    same_file = ground arith;
    same_answer = λ f. ground arith;
  }

  asks :
      (f : SocketFile) (s t : System)
      → Ready (looking 2) (some f) s t
      → Ready (asking 2 f.stamp) (some f) s (run pid_of (moves a ∷ []) t)
  unfolding run step act go look
  asks f s t r = record {
    live = ground arith;
    place = ground arith;
    lock = ground arith;
    same_file = ground arith;
    same_answer = λ g. ground (arith, r.same_answer g);
  }

  -- A holder answers, and the newcomer is refused with its pid.
  answered_then_refused :
      (f : SocketFile) (s t : System)
      → Ready (asking 2 f.stamp) (some f) s t
      → answers pid_of s f ≡ true
      → (run pid_of (move_times 2 a) t).at a ≡ refused (some (pid_of f.owner))
  unfolding run step act go ask_holder
  answered_then_refused f s t r yes_it_does = ground (arith, r.same_answer f)

  -- Nobody answers: the file is the one that was asked, and is unlinked.
  unanswered_then_holds :
      (f : SocketFile) (s t : System)
      → Ready (asking 2 f.stamp) (some f) s t
      → answers pid_of s f ≡ false
      → (run pid_of (move_times 6 a) t).at a ≡ holding
  unfolding run step act go ask_holder look_again
  unanswered_then_holds f s t r mute =
      bound_then_holds 2 (run pid_of (move_times 3 a) t) (ground (arith, r.same_answer f))
        (ground (arith, r.same_answer f)) (ground (arith, r.same_answer f))

  stays_holding :
      (k : ℕ) (s : System) → s.at a ≡ holding → (run pid_of (move_times k a) s).at a ≡ holding
  unfolding run step act
  stays_holding zero s e = e
  stays_holding (suc k) s e = let here = stays_holding k s e in ground arith

  stays_refused :
      (k : ℕ) (who : Option ℕ) (s : System)
      → s.at a ≡ refused who
      → (run pid_of (move_times k a) s).at a ≡ refused who
  unfolding run step act
  stays_refused zero who s e = e
  stays_refused (suc k) who s e = let here = stays_refused k who s e in ground arith

  -- What stands at the address decides.
  abbrev pub decided : System → Option SocketFile → Pc
  decided s none = holding
  decided s (some f) = if answers pid_of s f then refused (some (pid_of f.owner)) else holding

  vacant_then_holds :
      (s t : System) → Ready (looking 2) none s t → (run pid_of (move_times 4 a) t).at a ≡ holding
  unfolding run step act go look
  vacant_then_holds s t r =
      bound_then_holds 2 (run pid_of (move_times 1 a) t) (ground arith) (ground arith)
        (ground arith)

  after_look :
      (s t : System) (file : Option SocketFile)
      → Ready (looking 2) file s t
      → (run pid_of (move_times 7 a) t).at a ≡ decided s file
  unfolding run
  after_look s t none r = stays_holding 3 (run pid_of (move_times 4 a) t) (vacant_then_holds s t r)
  after_look s t (some f) r = elim (Bool-cases (answers pid_of s f)) [
    | inl heard ↦ rw heard (
        stays_refused 4 (some (pid_of f.owner)) (run pid_of (move_times 3 a) t)
          (answered_then_refused f s (run pid_of (moves a ∷ []) t) (asks f s t r) heard))
    | inr mute ↦
        rw mute (unanswered_then_holds f s (run pid_of (moves a ∷ []) t) (asks f s t r) mute)
  ]

  -- A newcomer that nothing disturbs is told within eight calls: it is refused with the pid of the
  -- process that listens on the socket at the address, and holds the identity where there is no
  -- socket or nobody listens on it, when no other call has the lock.
  pub run-decided :
      (s : System)
      → s.alive (pid_of a) ≡ true
      → s.at a ≡ idle
      → s.lock ≡ none
      → (run pid_of (calls a ∷ move_times 8 a) s).at a ≡ decided s s.file
  unfolding run
  run-decided s live e free =
      after_look s (run pid_of (calls a ∷ moves a ∷ []) s) s.file (looks s live e free)
