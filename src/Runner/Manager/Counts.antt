-- ===== src/Runner/Manager/Counts.antt =====
-- How often a shell is in the map and among others.
use bunshin.Prelude.{
  some_inj, ℕ, suc, ◌+◌, List, [], ◌∷◌, none, some, ◌≡◌, refl, sym, ap, ◌∙◌, arith, ◌==◌,
  if◌then◌else◌, Bool-cases, inl, inr, ◌⊎◌, ◌++◌,
}
use bunshin.Text.{Text, text_eq}
use bunshin.Text.Laws.{text_eq_iff}
use bunshin.Runner.Manager.{
  shell_numbers, Closing, closes, close_fails, never_closes, find_shell, remove_shell,
}

-- How often a shell is in the map, and in a list.
abbrev pub times_held : ℕ → List (Text × ℕ) → ℕ
times_held n [] = 0
times_held n ((id, shell) ∷ shells) =
    if shell == n then suc (times_held n shells) else times_held n shells

abbrev pub times_in : ℕ → List ℕ → ℕ
times_in n [] = 0
times_in n (m ∷ ms) = if m == n then suc (times_in n ms) else times_in n ms

-- Ids are distinct.
abbrev pub AreDistinct : List (Text × ℕ) → Type 0
AreDistinct [] = Unit
AreDistinct ((id, shell) ∷ shells) = (find_shell id shells ≡ none) × AreDistinct shells

pub remove_missing :
    (id : Text) (shells : List (Text × ℕ))
    → find_shell id shells ≡ none
    → remove_shell id shells ≡ shells
unfolding find_shell remove_shell
remove_missing id [] h = refl
remove_missing id ((key, shell) ∷ shells) h = ground (arith, remove_missing id shells)

pub times_held-remove :
    (id : Text) (n shell : ℕ) (shells : List (Text × ℕ))
    → AreDistinct shells
    → find_shell id shells ≡ some shell
    → times_held n shells ≡ (if shell == n then 1 else 0) + times_held n (remove_shell id shells)
unfolding find_shell remove_shell
times_held-remove id n shell [] d h = cc
times_held-remove id n shell ((key, first) ∷ shells) d h = elim (Bool-cases (text_eq key id)) [
  | inl same ↦
      let e : first ≡ shell = some_inj (sym (rw (same, find_shell) refl) ∙ h) in
      let gone : remove_shell id shells ≡ shells =
        remove_missing id shells
          (ap (λ x. find_shell x shells) (sym ((text_eq_iff key id).0 same)) ∙ d.0) in
      rw (same, remove_shell) (ground (arith, ap (times_held n) gone))
  | inr differs ↦
      let rest : find_shell id shells ≡ some shell = sym (rw (differs, find_shell) refl) ∙ h in
      rw (differs, remove_shell) (ground (arith, times_held-remove id n shell shells d.1 rest))
]

pub find_shell-remove :
    (k id : Text) (shells : List (Text × ℕ))
    → find_shell k shells ≡ none
    → find_shell k (remove_shell id shells) ≡ none
unfolding find_shell remove_shell
find_shell-remove k id [] h = refl
find_shell-remove k id ((key, first) ∷ shells) h = ground (arith, find_shell-remove k id shells)

pub AreDistinct-remove :
    (id : Text) (shells : List (Text × ℕ))
    → AreDistinct shells
    → AreDistinct (remove_shell id shells)
unfolding remove_shell
AreDistinct-remove id [] d = tt
AreDistinct-remove id ((key, first) ∷ shells) d = elim (Bool-cases (text_eq key id)) [
  | inl same ↦ rw (same, remove_shell) (AreDistinct-remove id shells d.1)
  | inr differs ↦
      rw (differs, remove_shell)
        (find_shell-remove key id shells d.0, AreDistinct-remove id shells d.1)
]

pub times_in-numbers :
    (n : ℕ) (shells : List (Text × ℕ)) (ms : List ℕ)
    → times_in n (shell_numbers shells ++ ms) ≡ times_held n shells + times_in n ms
times_in-numbers n [] ms = omega arith
times_in-numbers n ((id, shell) ∷ shells) ms = ground (arith, times_in-numbers n shells ms)

-- A call of Close, however it ends.
pub closing-cases :
    (c : Closing) → (c ≡ closes) ⊎ (((e : ℕ) × (c ≡ close_fails e)) ⊎ (c ≡ never_closes))
closing-cases closes = inl refl
closing-cases (close_fails e) = inr (inl (e, refl))
closing-cases never_closes = inr (inr refl)
