-- ===== src/Runner/Manager/Requests.antt =====
-- What requests that go on do to the shells.
use bunshin.Prelude.{
  ℕ, suc, ◌+◌, ◌<◌, ◌≤◌, List, [], ◌∷◌, ◌≡◌, refl, sym, ap, subst, arith, Option-cases, inl, inr,
}
use bunshin.Text.{Text}
use bunshin.Runner.Manager.{
  ShellRequest, creates, deletes, serve_request, serve_requests, after, Closing, ShellManager,
  Given, given, failing, find_shell, remove_shell, close_shell, create, delete_shell,
}
use bunshin.Runner.Manager.Counts.{times_held, times_in}
use bunshin.Runner.Manager.Closings.{after-close_duplicate, after-close_result}
use bunshin.Runner.Manager.Accounts.{Reachable, create_call, delete_call, Reachable-accounts}

module _ (close : ℕ → Closing) where
  -- A request closes shells and opens none again.
  record GoesOn (m m' : ShellManager) : Type 0 where
    pub later : m.next_shell ≤ m'.next_shell
    pub more : (n : ℕ) → times_in n m.closed ≤ times_in n m'.closed

  GoesOn-closed :
      (shell : ℕ) (m m' : ShellManager)
      → m.next_shell ≤ m'.next_shell
      → m'.closed ≡ m.closed
      → GoesOn m (close_shell shell m')
  GoesOn-closed shell m m' le same = record {
    later = le;
    more = λ n. ground (arith, ap (times_in n) same);
  }

  create-GoesOn :
      (id : Given Text) (started : Given (Unit {0})) (m : ShellManager)
      → GoesOn m (after m (create close id started m))
  unfolding create
  create-GoesOn (failing e) started m = record { later = omega arith; more = λ n. omega arith }
  create-GoesOn (given id) (failing e) m = record { later = omega arith; more = λ n. omega arith }
  create-GoesOn (given id) (given _) m = elim (Option-cases (find_shell id m.shells)) [
    | inl fresh ↦ rw fresh (record { later = omega arith; more = λ n. omega arith })
    | inr (old, found) ↦
        let started : ShellManager = record m { next_shell = suc m.next_shell } in
        rw found (
          subst (GoesOn m) (sym (after-close_duplicate close id m.next_shell started m))
            (GoesOn-closed m.next_shell m started (omega arith) refl))
  ]

  delete_shell-GoesOn :
      (id : Text) (m : ShellManager) → GoesOn m (after m (delete_shell close id m))
  unfolding delete_shell
  delete_shell-GoesOn id m = elim (Option-cases (find_shell id m.shells)) [
    | inl missing ↦
        rw (missing, delete_shell) (record { later = omega arith; more = λ n. omega arith })
    | inr (shell, found) ↦
        let removed : ShellManager = record m { shells = remove_shell id m.shells } in
        rw (found, delete_shell)
          (subst (GoesOn m) (sym (after-close_result close shell removed m))
            (GoesOn-closed shell m removed (omega arith) refl))
  ]

  pub serve_request-Reachable :
      (c : ShellRequest) (m : ShellManager)
      → Reachable close m
      → Reachable close (serve_request close c m)
  serve_request-Reachable (creates id started) m r = create_call id started r
  serve_request-Reachable (deletes id) m r = delete_call id r

  serve_request-GoesOn : (c : ShellRequest) (m : ShellManager) → GoesOn m (serve_request close c m)
  serve_request-GoesOn (creates id started) m = create-GoesOn id started m
  serve_request-GoesOn (deletes id) m = delete_shell-GoesOn id m

  -- A shell that was closed once stays so, whatever requests follow.
  pub serve_requests_once :
      (n : ℕ) (calls : List ShellRequest) (m : ShellManager)
      → Reachable close m
      → n < m.next_shell
      → times_in n m.closed ≡ 1
      → times_in n (serve_requests close calls m).closed ≡ 1
  unfolding serve_requests
  serve_requests_once n [] m r lt once = once
  serve_requests_once n (c ∷ calls) m r lt once =
      let m' = serve_request close c m in
      let r' = serve_request-Reachable c m r in
      let g = serve_request-GoesOn c m in
      let lt' : n < m'.next_shell = omega (arith, lt, g.later) in
      serve_requests_once n calls m' r' lt'
        (ground (arith, once, g.more n, (Reachable-accounts close r').counted n, lt'))

  -- A CloseAll that returns has closed every shell once, if none was left waiting before it.
  pub returned_once :
      (n : ℕ) (m m' : ShellManager)
      → Reachable close m
      → n < m.next_shell
      → m.stranded ≡ []
      → times_in n m'.closed ≡ times_held n m.shells + times_in n m.closed
      → times_in n m'.closed ≡ 1
  returned_once n m m' r lt none_waits each =
      ground (arith, each, ap (times_in n) none_waits, (Reachable-accounts close r).counted n, lt)
