-- ===== src/Runner/Manager/Closings.antt =====
-- What Close and CloseAll do to the shells.
use bunshin.Prelude.{ℕ, ◌+◌, List, [], ◌∷◌, Option, none, some, ◌≡◌, refl, arith, inl, inr}
use bunshin.Text.{Text}
use bunshin.Outcome.{Outcome, ok, err, diverged}
use bunshin.Runner.Manager.{
  after, Closing, never_closes, close_duplicate, close_all_result, ManagerError, ShellManager,
  close_shell, close_result, close_each, first_error, close_all,
}
use bunshin.Runner.Manager.Counts.{times_held, times_in, times_in-numbers, closing-cases}

module _ (close : ℕ → Closing) where
  pub after-close_duplicate :
      (id : Text) (shell : ℕ) (m m' : ShellManager)
      → after m' (close_duplicate close id shell m) ≡ close_shell shell m
  after-close_duplicate id shell m m' = elim (closing-cases (close shell)) [
    | inl e ↦ rw (e, close_duplicate, after) refl
    | inr (inl (x, e)) ↦ rw (e, close_duplicate, after) refl
    | inr (inr e) ↦ rw (e, close_duplicate, after) refl
  ]

  pub after-close_result :
      (shell : ℕ) (m m' : ShellManager)
      → after m' (close_result close shell m) ≡ close_shell shell m
  after-close_result shell m m' = elim (closing-cases (close shell)) [
    | inl e ↦ rw (e, close_result, after) refl
    | inr (inl (x, e)) ↦ rw (e, close_result, after) refl
    | inr (inr e) ↦ rw (e, close_result, after) refl
  ]

  -- What closing some shells does, when it returns and when it waits for one of them for ever.
  abbrev pub ClosesEach :
      List (Text × ℕ)
      → ShellManager
      → Outcome ShellManager ManagerError (Option (Option ℕ))
      → Type 0
  ClosesEach shells m (ok (some first) m') =
      (m'.shells ≡ m.shells)
      × (m'.next_shell ≡ m.next_shell)
      × (m'.stranded ≡ m.stranded)
      × ((n : ℕ) → times_in n m'.closed ≡ times_held n shells + times_in n m.closed)
  ClosesEach shells m (ok none m') =
      (m'.shells ≡ m.shells)
      × (m'.next_shell ≡ m.next_shell)
      × ((k : ℕ) × (close k ≡ never_closes))
      × ((n : ℕ)
          → times_in n m'.closed + times_in n m'.stranded
            ≡ times_held n shells + (times_in n m.closed + times_in n m.stranded))
  ClosesEach shells m (err e m') = ⊥
  ClosesEach shells m diverged = ⊥

  pub ClosesEach-cons :
      (id : Text) (shell : ℕ) (shells : List (Text × ℕ)) (m : ShellManager)
      (o : Outcome ShellManager ManagerError (Option (Option ℕ)))
      → ClosesEach shells (close_shell shell m) o
      → ClosesEach ((id, shell) ∷ shells) m o
  ClosesEach-cons id shell shells m (ok (some first) m') (a, b, c, h) =
      (a, b, c, λ n. ground (arith, h n))
  ClosesEach-cons id shell shells m (ok none m') (a, b, k, h) = (a, b, k, λ n. ground (arith, h n))
  ClosesEach-cons id shell shells m (err e m') h = absurd h
  ClosesEach-cons id shell shells m diverged h = absurd h

  pub close_each-ClosesEach :
      (shells : List (Text × ℕ)) (first : Option ℕ) (m : ShellManager)
      → ClosesEach shells m (close_each close shells first m)
  unfolding close_each
  close_each-ClosesEach [] first m = (refl, refl, refl, λ n. omega arith)
  close_each-ClosesEach ((id, shell) ∷ shells) first m = elim (closing-cases (close shell)) [
    | inl e ↦
        rw (e, close_each)
          (ClosesEach-cons id shell shells m (close_each close shells first (close_shell shell m))
            (close_each-ClosesEach shells first (close_shell shell m)))
    | inr (inl (x, e)) ↦
        rw (e, close_each)
          (ClosesEach-cons id shell shells m
            (close_each close shells (first_error first x) (close_shell shell m))
            (close_each-ClosesEach shells (first_error first x) (close_shell shell m)))
    | inr (inr e) ↦
        rw (e, close_each)
          (refl, refl, (shell, e), λ n. ground (arith, times_in-numbers n shells m.stranded))
  ]

  -- What CloseAll does, when it returns and when it waits for a shell for ever.
  abbrev pub ClosesAll :
      ShellManager → Outcome ShellManager ManagerError (Option (Unit {0})) → Type 0
  ClosesAll m (ok none m') =
      (m'.shells ≡ [])
      × (m'.next_shell ≡ m.next_shell)
      × ((k : ℕ) × (close k ≡ never_closes))
      × ((n : ℕ)
          → times_in n m'.closed + times_in n m'.stranded
            ≡ times_held n m.shells + (times_in n m.closed + times_in n m.stranded))
  ClosesAll m (ok (some _) m') =
      (m'.shells ≡ [])
      × (m'.next_shell ≡ m.next_shell)
      × (m'.stranded ≡ m.stranded)
      × ((n : ℕ) → times_in n m'.closed ≡ times_held n m.shells + times_in n m.closed)
  ClosesAll m (err e m') =
      (m'.shells ≡ [])
      × (m'.next_shell ≡ m.next_shell)
      × (m'.stranded ≡ m.stranded)
      × ((n : ℕ) → times_in n m'.closed ≡ times_held n m.shells + times_in n m.closed)
  ClosesAll m diverged = ⊥

  pub ClosesAll-result :
      (m : ShellManager) (o : Outcome ShellManager ManagerError (Option (Option ℕ)))
      → ClosesEach m.shells (record m { shells = [] }) o
      → ClosesAll m (close_all_result o)
  ClosesAll-result m (ok (some none) m') h = h
  ClosesAll-result m (ok (some (some e)) m') h = h
  ClosesAll-result m (ok none m') h = h
  ClosesAll-result m (err e m') h = absurd h
  ClosesAll-result m diverged h = absurd h

  pub close_all-ClosesAll : (m : ShellManager) → ClosesAll m (close_all close m)
  unfolding close_all
  close_all-ClosesAll m =
      ClosesAll-result m (close_each close m.shells none (record m { shells = [] }))
        (close_each-ClosesEach m.shells none (record m { shells = [] }))
