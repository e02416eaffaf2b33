-- ===== src/Runner/Supervisor.antt =====
-- runner/supervisor.go: the goroutine that keeps one child process running, as a state machine whose
-- moves are those of the goroutine, of the child and of the context.
pub mod Single
pub mod Ends
use bunshin.Prelude.{
  ℕ, Bool, true, false, not, ◌&&◌, ◌||◌, ◌==◌, List, [], ◌∷◌, Option, none, some, if◌then◌else◌,
}

-- Where the goroutine stands. `running` to `killing` are the selects of superviseOnce, with the pid;
-- `checking` is the test of the for loop, `starting` stands before cmd.Start(), `ended_run` before the
-- test behind superviseOnce, `sleeping` is supervisorSleep.
pub data Phase : Type 0 where
  checking starting ended_run sleeping returned : Phase
  running terminating killing : ℕ → Phase

-- A child that has been started and not been waited for: alive, or exited.
pub record Child : Type 0 where
  pub pid : ℕ
  pub exited : Bool
  pub signals : List ℕ

abbrev pub sigterm : ℕ
sigterm = 15

abbrev pub sigkill : ℕ
sigkill = 9

-- The children that have not been waited for, and whether the context is done.
pub record State : Type 0 where
  pub phase : Phase
  pub done : Bool
  pub children : List Child

-- The goroutine's moves, and two of its surroundings: `cancel` ends the context, `exit` a child.
pub data Move : Type 0 where
  cancel : Move
  exit : ℕ → Move
  start : ℕ → Move
  start_failed : Move
  not_cancelled : Move
  wait_done : Move
  see_cancelled : Move
  grace_over : Move
  slept : Move

unfoldable pub has_child : ℕ → List Child → Bool
has_child pid [] = false
has_child pid (c ∷ children) = c.pid == pid || has_child pid children

-- cmd.Wait has returned: the child with this pid has exited.
unfoldable pub has_exited : ℕ → List Child → Bool
has_exited pid [] = false
has_exited pid (c ∷ children) = (c.pid == pid && c.exited) || has_exited pid children

-- The child is waited for.
unfoldable pub reap : ℕ → List Child → List Child
reap pid [] = []
reap pid (c ∷ children) = let rest = reap pid children in if c.pid == pid then rest else c ∷ rest

unfoldable pub mark_exited : ℕ → List Child → List Child
mark_exited pid [] = []
mark_exited pid (c ∷ children) =
    (if c.pid == pid then record c { exited = true } else c) ∷ mark_exited pid children

-- syscall.Kill(-pid, sig).
unfoldable pub kill : ℕ → ℕ → List Child → List Child
kill sig pid [] = []
kill sig pid (c ∷ children) =
    (if c.pid == pid then record c { signals = sig ∷ c.signals } else c) ∷ kill sig pid children

abbrev when : Bool → State → Option State
when true s = some s
when false s = none

abbrev new_child : ℕ → Child
new_child pid = record { pid = pid; exited = false; signals = [] }

-- A move of the goroutine, which is possible at some phases only.
act : Move → Phase → State → Option State
unfolding has_child has_exited reap kill
act not_cancelled checking s = when (not s.done) (record s { phase = starting })
act (start pid) starting s =
    when (not (has_child pid s.children))
      (record s { phase = running pid; children = new_child pid ∷ s.children })
act start_failed starting s = some (record s { phase = ended_run })
act see_cancelled checking s = when s.done (record s { phase = returned })
act wait_done (running pid) s =
    when (has_exited pid s.children)
      (record s { phase = ended_run; children = reap pid s.children })
act see_cancelled (running pid) s =
    when s.done (record s { phase = terminating pid; children = kill sigterm pid s.children })
act wait_done (terminating pid) s =
    when (has_exited pid s.children)
      (record s { phase = ended_run; children = reap pid s.children })
act grace_over (terminating pid) s =
    some (record s { phase = killing pid; children = kill sigkill pid s.children })
act wait_done (killing pid) s =
    when (has_exited pid s.children)
      (record s { phase = ended_run; children = reap pid s.children })
act see_cancelled ended_run s = when s.done (record s { phase = returned })
act not_cancelled ended_run s = when (not s.done) (record s { phase = sleeping })
act see_cancelled sleeping s = when s.done (record s { phase = returned })
act slept sleeping s = some (record s { phase = checking })
act _ _ s = none

-- One move.
unfoldable pub step : Move → State → Option State
unfolding act mark_exited
step cancel s = some (record s { done = true })
step (exit pid) s = some (record s { children = mark_exited pid s.children })
step m s = act m s.phase s

-- A sequence of moves; none if one of them is not possible.
unfoldable pub run : List Move → State → Option State
unfolding step
run [] s = some s
run (m ∷ moves) s = elim (step m s) [ none ↦ none | some s' ↦ run moves s' ]

-- supervise, before its first move.
abbrev pub supervise : State
supervise = record { phase = checking; done = false; children = [] }
