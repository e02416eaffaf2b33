-- ===== src/Runner/Manager/Accounts.antt =====
-- Every shell that was started is in the map, or was closed, or waits for a CloseAll, and once.
use bunshin.Prelude.{
  ℕ, suc, ◌+◌, List, [], ◌∷◌, Option, none, some, ◌≡◌, refl, sym, ap, ◌∙◌, subst, arith, ltb, ◌==◌,
  if◌then◌else◌, Option-cases, inl, inr, ◌≢◌,
}
use bunshin.Text.{Text}
use bunshin.Outcome.{Outcome, ok, err, diverged}
use bunshin.Runner.Manager.{
  after, Closing, never_closes, ManagerError, ShellManager, Given, given, failing, find_shell,
  remove_shell, close_shell, new_shell_manager, create, delete_shell, close_all,
}
use bunshin.Runner.Manager.Counts.{
  times_held, times_in, AreDistinct, times_held-remove, AreDistinct-remove,
}
use bunshin.Runner.Manager.Closings.{
  after-close_duplicate, after-close_result, ClosesAll, close_all-ClosesAll,
}

pub record IsAccounted (m : ShellManager) : Type 0 where
  pub distinct : AreDistinct m.shells
  pub counted :
      (n : ℕ)
      → times_held n m.shells + (times_in n m.closed + times_in n m.stranded)
        ≡ (if ltb n m.next_shell then 1 else 0)

create_counts :
    (m : ShellManager) (shells : List (Text × ℕ)) (closed : List ℕ)
    → IsAccounted m
    → AreDistinct shells
    → ((n : ℕ)
        → times_held n shells + times_in n closed
          ≡ (if m.next_shell == n then 1 else 0) + (times_held n m.shells + times_in n m.closed))
    → IsAccounted (record {
      shells = shells;
      next_shell = suc m.next_shell;
      closed = closed;
      stranded = m.stranded;
    })
create_counts m shells closed a distinct more = record {
  distinct = distinct;
  counted = λ n. ground (arith, more n, a.counted n);
}

module _ (close : ℕ → Closing) where
  create-IsAccounted :
      (id : Given Text) (start : Given (Unit {0})) (m : ShellManager)
      → IsAccounted m
      → IsAccounted (after m (create close id start m))
  unfolding create
  create-IsAccounted (failing e) start m a = a
  create-IsAccounted (given id) (failing e) m a = a
  create-IsAccounted (given id) (given _) m a = elim (Option-cases (find_shell id m.shells)) [
    | inl fresh ↦ rw fresh (
        create_counts m ((id, m.next_shell) ∷ m.shells) m.closed a (fresh, a.distinct)
          (λ n. ground arith))
    | inr (old, found) ↦
        let started : ShellManager = record m { next_shell = suc m.next_shell } in
        rw found (
          subst IsAccounted (sym (after-close_duplicate close id m.next_shell started m))
            (create_counts m m.shells (m.next_shell ∷ m.closed) a a.distinct (λ n. ground arith)))
  ]

  delete_shell-IsAccounted :
      (id : Text) (m : ShellManager)
      → IsAccounted m
      → IsAccounted (after m (delete_shell close id m))
  unfolding delete_shell
  delete_shell-IsAccounted id m a = elim (Option-cases (find_shell id m.shells)) [
    | inl missing ↦ rw (missing, delete_shell) a
    | inr (shell, found) ↦
        let removed : ShellManager = record m { shells = remove_shell id m.shells } in
        let closed_one : IsAccounted (close_shell shell removed) = record {
          distinct = AreDistinct-remove id m.shells a.distinct;
          counted = λ n.
              ground (arith, a.counted n, times_held-remove id n shell m.shells a.distinct found);
        } in
        rw (found, delete_shell)
          (subst IsAccounted (sym (after-close_result close shell removed m)) closed_one)
  ]

  all_closed :
      (m m' : ShellManager)
      → IsAccounted m
      → m'.shells ≡ []
      → m'.next_shell ≡ m.next_shell
      → ((n : ℕ)
          → times_in n m'.closed + times_in n m'.stranded
            ≡ times_held n m.shells + (times_in n m.closed + times_in n m.stranded))
      → IsAccounted m'
  all_closed m m' a emptied same each = record {
    distinct = subst AreDistinct (sym emptied) tt;
    counted = λ n.
        ap (λ x. times_held n x + (times_in n m'.closed + times_in n m'.stranded)) emptied
        ∙ omega (arith, each n, a.counted n)
        ∙ a.counted n
        ∙ ap (λ x. if ltb n x then 1 else 0) (sym same);
  }

  pub ClosesAll-IsAccounted :
      (m : ShellManager) (o : Outcome ShellManager ManagerError (Option (Unit {0})))
      → IsAccounted m
      → ClosesAll close m o
      → IsAccounted (after m o)
  ClosesAll-IsAccounted m (ok none m') a (emptied, same, k, each) =
      all_closed m m' a emptied same each
  ClosesAll-IsAccounted m (ok (some _) m') a (emptied, same, kept, each) =
      all_closed m m' a emptied same (λ n. omega (arith, each n, ap (times_in n) kept))
  ClosesAll-IsAccounted m (err e m') a (emptied, same, kept, each) =
      all_closed m m' a emptied same (λ n. omega (arith, each n, ap (times_in n) kept))
  ClosesAll-IsAccounted m diverged a h = absurd h

  -- The managers that calls lead to, whatever the calls return.
  pub data Reachable : ShellManager → Type 0 where
    start : Reachable new_shell_manager
    create_call :
        {m : ShellManager} (id : Given Text) (started : Given (Unit {0}))
        → Reachable m
        → Reachable (after m (create close id started m))
    delete_call :
        {m : ShellManager} (id : Text) → Reachable m → Reachable (after m (delete_shell close id m))
    close_all_call : {m : ShellManager} → Reachable m → Reachable (after m (close_all close m))

  pub Reachable-accounts : {m : ShellManager} → Reachable m → IsAccounted m
  Reachable-accounts start = record { distinct = tt; counted = λ n. ground arith }
  Reachable-accounts (create_call {m} id started r) =
      create-IsAccounted id started m (Reachable-accounts r)
  Reachable-accounts (delete_call {m} id r) = delete_shell-IsAccounted id m (Reachable-accounts r)
  Reachable-accounts (close_all_call {m} r) =
      ClosesAll-IsAccounted m (close_all close m) (Reachable-accounts r)
        (close_all-ClosesAll close m)

  create-stranded :
      (id : Given Text) (started : Given (Unit {0})) (m : ShellManager)
      → (after m (create close id started m)).stranded ≡ m.stranded
  unfolding create
  create-stranded (failing e) started m = refl
  create-stranded (given id) (failing e) m = refl
  create-stranded (given id) (given _) m = elim (Option-cases (find_shell id m.shells)) [
    | inl fresh ↦ rw fresh refl
    | inr (old, found) ↦ rw found (
        ap (λ (x : ShellManager). x.stranded)
          (after-close_duplicate close id m.next_shell (record m { next_shell = suc m.next_shell })
            m))
  ]

  delete_shell-stranded :
      (id : Text) (m : ShellManager) → (after m (delete_shell close id m)).stranded ≡ m.stranded
  unfolding delete_shell
  delete_shell-stranded id m = elim (Option-cases (find_shell id m.shells)) [
    | inl missing ↦ rw (missing, delete_shell) refl
    | inr (shell, found) ↦
        rw (found, delete_shell)
          (ap (λ (x : ShellManager). x.stranded)
            (after-close_result close shell (record m { shells = remove_shell id m.shells }) m))
  ]

  ClosesAll-stranded :
      (m : ShellManager) (o : Outcome ShellManager ManagerError (Option (Unit {0})))
      → ((k : ℕ) → close k ≢ never_closes)
      → ClosesAll close m o
      → (after m o).stranded ≡ m.stranded
  ClosesAll-stranded m (ok none m') ends (emptied, same, (k, never), each) = absurd (ends k never)
  ClosesAll-stranded m (ok (some _) m') ends (emptied, same, kept, each) = kept
  ClosesAll-stranded m (err e m') ends (emptied, same, kept, each) = kept
  ClosesAll-stranded m diverged ends h = absurd h

  Reachable-stranded :
      ((k : ℕ) → close k ≢ never_closes) → {m : ShellManager} → Reachable m → m.stranded ≡ []
  Reachable-stranded ends start = refl
  Reachable-stranded ends (create_call {m} id started r) =
      create-stranded id started m ∙ Reachable-stranded ends r
  Reachable-stranded ends (delete_call {m} id r) =
      delete_shell-stranded id m ∙ Reachable-stranded ends r
  Reachable-stranded ends (close_all_call {m} r) =
      ClosesAll-stranded m (close_all close m) ends (close_all-ClosesAll close m)
      ∙ Reachable-stranded ends r

  -- In every manager that calls lead to, whatever ids, starts and closes fail or never end, the ids
  -- are distinct, and each shell that was started is in the map once, or its Close has been called
  -- once, or it waits once for a CloseAll that waits for another shell: one of the three, and never
  -- two. If every Close returns, none waits.
  pub Reachable-IsAccounted :
      {m : ShellManager}
      → Reachable m
      → IsAccounted m × (((k : ℕ) → close k ≢ never_closes) → m.stranded ≡ [])
  Reachable-IsAccounted r = (Reachable-accounts r, λ ends. Reachable-stranded ends r)
