-- ===== src/Runner/Supervisor/Single.antt =====
-- The supervisor never has two children, and leaves none behind.
use bunshin.Prelude.{
  ℕ, Bool, true, false, List, [], ◌∷◌, Option, none, some, ◌≡◌, refl, subst, arith, ==_iff, inl,
  inr, Option-cases,
}
use bunshin.Runner.Supervisor.{
  Phase, checking, starting, ended_run, sleeping, returned, running, terminating, killing, Child,
  State, Move, cancel, exit, start, start_failed, not_cancelled, wait_done, see_cancelled,
  grace_over, slept, sigterm, sigkill, reap, mark_exited, kill, new_child, when, act, step, run,
  supervise,
}

abbrev pub NoChild : List Child → Type 0
NoChild [] = Unit
NoChild (c ∷ children) = ⊥

-- One child, with its pid and the signals that it was sent, the last one first.
abbrev pub OneChild : ℕ → List ℕ → List Child → Type 0
OneChild pid signals [] = ⊥
OneChild pid signals (c ∷ []) = (c.pid ≡ pid) × (c.signals ≡ signals)
OneChild pid signals (c ∷ (d ∷ children)) = ⊥

abbrev pub Holds : Phase → Bool → List Child → Type 0
Holds checking done children = NoChild children
Holds starting done children = NoChild children
Holds ended_run done children = NoChild children
Holds sleeping done children = NoChild children
Holds returned done children = NoChild children × (done ≡ true)
Holds (running pid) done children = OneChild pid [] children
Holds (terminating pid) done children = OneChild pid (sigterm ∷ []) children × (done ≡ true)
Holds (killing pid) done children = OneChild pid (sigkill ∷ sigterm ∷ []) children × (done ≡ true)

abbrev pub IsSupervised : State → Type 0
IsSupervised s = Holds s.phase s.done s.children

pub NoChild-nil : (children : List Child) → NoChild children → children ≡ []
NoChild-nil [] h = refl
NoChild-nil (c ∷ children) h = absurd h

OneChild-reap :
    (pid : ℕ) (signals : List ℕ) (children : List Child)
    → OneChild pid signals children
    → NoChild (reap pid children)
unfolding reap
OneChild-reap pid signals [] h = tt
OneChild-reap pid signals (c ∷ []) h = rw ((==_iff c.pid pid).1 h.0) tt
OneChild-reap pid signals (c ∷ (d ∷ children)) h = absurd h

OneChild-kill :
    (sig pid : ℕ) (signals : List ℕ) (children : List Child)
    → OneChild pid signals children
    → OneChild pid (sig ∷ signals) (kill sig pid children)
unfolding kill
OneChild-kill sig pid signals [] h = absurd h
OneChild-kill sig pid signals (c ∷ []) h = ground arith
OneChild-kill sig pid signals (c ∷ (d ∷ children)) h = absurd h

OneChild-mark_exited :
    (other pid : ℕ) (signals : List ℕ) (children : List Child)
    → OneChild pid signals children
    → OneChild pid signals (mark_exited other children)
unfolding mark_exited
OneChild-mark_exited other pid signals [] h = absurd h
OneChild-mark_exited other pid signals (c ∷ []) h = ground arith
OneChild-mark_exited other pid signals (c ∷ (d ∷ children)) h = absurd h

OneChild-new :
    (pid : ℕ) (children : List Child)
    → NoChild children
    → OneChild pid [] (new_child pid ∷ children)
OneChild-new pid [] h = (refl, refl)
OneChild-new pid (c ∷ children) h = absurd h

-- What a move leaves, if it is possible.
abbrev pub Keeps : Option State → Type 0
Keeps none = Unit
Keeps (some s) = IsSupervised s

Keeps-when : (b : Bool) (s : State) → (b ≡ true → IsSupervised s) → Keeps (when b s)
Keeps-when true s h = h refl
Keeps-when false s h = tt

act-Keeps :
    (m : Move) (phase : Phase) (s : State) → Holds phase s.done s.children → Keeps (act m phase s)
unfolding act
act-Keeps not_cancelled checking s h = Keeps-when _ _ (λ e. h)
act-Keeps (start pid) starting s h = Keeps-when _ _ (λ e. OneChild-new pid s.children h)
act-Keeps start_failed starting s h = h
act-Keeps see_cancelled checking s h =
    Keeps-when s.done (record s { phase = returned }) (λ e. (h, e))
act-Keeps wait_done (running pid) s h = Keeps-when _ _ (λ e. OneChild-reap pid _ s.children h)
act-Keeps see_cancelled (running pid) s h =
    Keeps-when s.done (record s { phase = terminating pid; children = kill sigterm pid s.children })
      (λ e. (OneChild-kill sigterm pid [] s.children h, e))
act-Keeps wait_done (terminating pid) s h = Keeps-when _ _ (λ e. OneChild-reap pid _ s.children h.0)
act-Keeps grace_over (terminating pid) s h = (OneChild-kill sigkill pid _ s.children h.0, h.1)
act-Keeps wait_done (killing pid) s h = Keeps-when _ _ (λ e. OneChild-reap pid _ s.children h.0)
act-Keeps see_cancelled ended_run s h =
    Keeps-when s.done (record s { phase = returned }) (λ e. (h, e))
act-Keeps not_cancelled ended_run s h = Keeps-when _ _ (λ e. h)
act-Keeps see_cancelled sleeping s h =
    Keeps-when s.done (record s { phase = returned }) (λ e. (h, e))
act-Keeps slept sleeping s h = h
act-Keeps _ _ s h = tt

Holds-cancel :
    (phase : Phase) (done : Bool) (children : List Child)
    → Holds phase done children
    → Holds phase true children
Holds-cancel checking done children h = h
Holds-cancel starting done children h = h
Holds-cancel ended_run done children h = h
Holds-cancel sleeping done children h = h
Holds-cancel returned done children h = (h.0, refl)
Holds-cancel (running pid) done children h = h
Holds-cancel (terminating pid) done children h = (h.0, refl)
Holds-cancel (killing pid) done children h = (h.0, refl)

NoChild-mark_exited :
    (pid : ℕ) (children : List Child) → NoChild children → NoChild (mark_exited pid children)
unfolding mark_exited
NoChild-mark_exited pid [] h = tt
NoChild-mark_exited pid (c ∷ children) h = absurd h

Holds-mark_exited :
    (other : ℕ) (phase : Phase) (done : Bool) (children : List Child)
    → Holds phase done children
    → Holds phase done (mark_exited other children)
Holds-mark_exited other checking done children h = NoChild-mark_exited other children h
Holds-mark_exited other starting done children h = NoChild-mark_exited other children h
Holds-mark_exited other ended_run done children h = NoChild-mark_exited other children h
Holds-mark_exited other sleeping done children h = NoChild-mark_exited other children h
Holds-mark_exited other returned done children h = (NoChild-mark_exited other children h.0, h.1)
Holds-mark_exited other (running pid) done children h = OneChild-mark_exited other pid _ children h
Holds-mark_exited other (terminating pid) done children h =
    (OneChild-mark_exited other pid _ children h.0, h.1)
Holds-mark_exited other (killing pid) done children h =
    (OneChild-mark_exited other pid _ children h.0, h.1)

step-Keeps : (m : Move) (s : State) → IsSupervised s → Keeps (step m s)
unfolding step
step-Keeps cancel s h = Holds-cancel s.phase s.done s.children h
step-Keeps (exit pid) s h = Holds-mark_exited pid s.phase s.done s.children h
step-Keeps (start pid) s h = act-Keeps (start pid) s.phase s h
step-Keeps start_failed s h = act-Keeps start_failed s.phase s h
step-Keeps not_cancelled s h = act-Keeps not_cancelled s.phase s h
step-Keeps wait_done s h = act-Keeps wait_done s.phase s h
step-Keeps see_cancelled s h = act-Keeps see_cancelled s.phase s h
step-Keeps grace_over s h = act-Keeps grace_over s.phase s h
step-Keeps slept s h = act-Keeps slept s.phase s h

pub run-Keeps : (moves : List Move) (s : State) → IsSupervised s → Keeps (run moves s)
unfolding run
run-Keeps [] s h = h
run-Keeps (m ∷ moves) s h = elim (Option-cases (step m s)) [
  | inl stuck ↦ rw (stuck, run) tt
  | inr (s', moved) ↦ rw (moved, run) (run-Keeps moves s' (subst Keeps moved (step-Keeps m s h)))
]

-- In every state that the supervisor reaches, however its child exits and whenever the context is
-- done: it has one child that it has not waited for from the start of the child in superviseOnce
-- until it waits for it there, and none otherwise, so it never has two and returns with none. The child has been sent no signal before the
-- context is done, then SIGTERM, and SIGKILL only after that.
pub supervise-IsSupervised :
    (moves : List Move) (s : State) → run moves supervise ≡ some s → IsSupervised s
supervise-IsSupervised moves s e = subst Keeps e (run-Keeps moves supervise tt)
