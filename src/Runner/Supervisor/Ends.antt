-- ===== src/Runner/Supervisor/Ends.antt =====
-- Once the context is done, the supervisor returns after a few moves of its own.
use bunshin.Prelude.{
  ℕ, ◌+◌, ◌≤◌, ◌<◌, Bool, true, false, List, [], ◌∷◌, Option, none, some, ◌≡◌, refl, sym, ap, subst,
  ◌∙◌, inl, inr, arith, Option-cases, if◌then◌else◌,
}
use bunshin.Runner.Supervisor.{
  Phase, checking, starting, ended_run, sleeping, returned, running, terminating, killing, Child,
  State, Move, cancel, exit, start, start_failed, not_cancelled, wait_done, see_cancelled,
  grace_over, slept, act, step, run, sigterm, sigkill,
}

-- Whether a move is one of the goroutine.
abbrev pub is_own : Move → Bool
is_own cancel = false
is_own (exit pid) = false
is_own (start pid) = true
is_own start_failed = true
is_own not_cancelled = true
is_own wait_done = true
is_own see_cancelled = true
is_own grace_over = true
is_own slept = true

unfoldable pub count_own : List Move → ℕ
count_own [] = 0
count_own (m ∷ moves) = (if is_own m then 1 else 0) + count_own moves

-- The moves that the goroutine has at most from a phase, once the context is done.
abbrev pub moves_left : Phase → ℕ
moves_left returned = 0
moves_left checking = 1
moves_left ended_run = 1
moves_left sleeping = 2
moves_left (killing pid) = 2
moves_left (terminating pid) = 3
moves_left (running pid) = 4
moves_left starting = 5

abbrev Falls : Phase → Option State → Type 0
Falls phase none = Unit
Falls phase (some s) = (moves_left s.phase < moves_left phase) × (s.done ≡ true)

act-Falls : (m : Move) (phase : Phase) (s : State) → s.done ≡ true → Falls phase (act m phase s)
unfolding act
act-Falls not_cancelled checking s d = ground arith
act-Falls (start pid) starting s d = ground arith
act-Falls start_failed starting s d = (omega arith, d)
act-Falls see_cancelled checking s d = ground arith
act-Falls wait_done (running pid) s d = ground arith
act-Falls see_cancelled (running pid) s d = ground arith
act-Falls wait_done (terminating pid) s d = ground arith
act-Falls grace_over (terminating pid) s d = (omega arith, d)
act-Falls wait_done (killing pid) s d = ground arith
act-Falls see_cancelled ended_run s d = ground arith
act-Falls not_cancelled ended_run s d = ground arith
act-Falls see_cancelled sleeping s d = ground arith
act-Falls slept sleeping s d = (omega arith, d)
act-Falls _ _ s d = tt

-- One move, counted.
abbrev Spends : ℕ → Phase → Option State → Type 0
Spends n phase none = Unit
Spends n phase (some s) = (n + moves_left s.phase ≤ moves_left phase) × (s.done ≡ true)

Spends-own : (phase : Phase) (o : Option State) → Falls phase o → Spends 1 phase o
Spends-own phase none h = tt
Spends-own phase (some s) h = (omega (arith, h.0), h.1)

step-Spends :
    (m : Move) (s : State) → s.done ≡ true → Spends (if is_own m then 1 else 0) s.phase (step m s)
unfolding step
step-Spends cancel s d = (omega arith, refl)
step-Spends (exit pid) s d = (omega arith, d)
step-Spends (start pid) s d = Spends-own s.phase _ (act-Falls (start pid) s.phase s d)
step-Spends start_failed s d = Spends-own s.phase _ (act-Falls start_failed s.phase s d)
step-Spends not_cancelled s d = Spends-own s.phase _ (act-Falls not_cancelled s.phase s d)
step-Spends wait_done s d = Spends-own s.phase _ (act-Falls wait_done s.phase s d)
step-Spends see_cancelled s d = Spends-own s.phase _ (act-Falls see_cancelled s.phase s d)
step-Spends grace_over s d = Spends-own s.phase _ (act-Falls grace_over s.phase s d)
step-Spends slept s d = Spends-own s.phase _ (act-Falls slept s.phase s d)

phase_left : Option State → ℕ
phase_left none = 0
phase_left (some s) = moves_left s.phase

none_ne_some : {s : State} → ◌≡◌ {A = Option State} none (some s) → ⊥
none_ne_some e = cc

-- In any run from a state in which the context is done, the goroutine makes at most five moves,
-- counting those that it has left at the end.
pub run_ends :
    (moves : List Move) (s s' : State)
    → s.done ≡ true
    → run moves s ≡ some s'
    → count_own moves + moves_left s'.phase ≤ moves_left s.phase
unfolding run count_own phase_left
run_ends [] s s' d e = omega (arith, ap (λ (o : Option State). phase_left o) e)
run_ends (m ∷ moves) s s' d e = elim (Option-cases (step m s)) [
  | inl stuck ↦ absurd (none_ne_some (sym (rw (stuck, run) refl) ∙ e))
  | inr (t, moved) ↦
      let one = subst (Spends (if is_own m then 1 else 0) s.phase) moved (step-Spends m s d) in
      omega (arith, one.0, run_ends moves t s' one.1 (sym (rw (moved, run) refl) ∙ e))
]

-- The goroutine has no move: it has returned, or its child was sent SIGKILL and has not exited.
pub data Rests : State → Type 0 where
  at_end : {s : State} → s.phase ≡ returned → s.children ≡ [] → Rests s
  at_kill :
      {s : State} (pid : ℕ) (c : Child)
      → s.phase ≡ killing pid
      → s.children ≡ c ∷ []
      → c.signals ≡ sigkill ∷ sigterm ∷ []
      → c.exited ≡ false
      → Rests s
