-- ===== src/Runner/AppFile/Slots.antt =====
-- The laws of values by numbers.
use bunshin.Prelude.{
  ℕ, List, [], ◌∷◌, none, some, ◌≡◌, ◌≢◌, ◌⊎◌, inl, inr, refl, arith, ◌==◌, ==_iff, Bool-cases,
  if◌then◌else◌,
}
use bunshin.Runner.AppFile.{get_slot, set_slot, clear_slot}

module _ {A : Type 0} where
  pub get_slot-set_slot :
      (n j : ℕ) (a : A) (slots : List (ℕ × A))
      → get_slot j (set_slot n a slots) ≡ (if n == j then some a else get_slot j slots)
  unfolding get_slot set_slot
  get_slot-set_slot n j a [] = refl
  get_slot-set_slot n j a ((m, b) ∷ slots) = ground (arith, get_slot-set_slot n j a slots)

  pub get_slot-clear_slot :
      (n j : ℕ) (slots : List (ℕ × A))
      → get_slot j (clear_slot n slots) ≡ (if n == j then none else get_slot j slots)
  unfolding get_slot clear_slot
  get_slot-clear_slot n j [] = ground arith
  get_slot-clear_slot n j ((m, b) ∷ slots) = ground (arith, get_slot-clear_slot n j slots)

  pub set_slot-eq-some :
      (n j : ℕ) (a b : A) (slots : List (ℕ × A))
      → get_slot j (set_slot n a slots) ≡ some b
      → ((n ≡ j) × (a ≡ b)) ⊎ ((n ≢ j) × (get_slot j slots ≡ some b))
  set_slot-eq-some n j a b slots e = elim (Bool-cases (n == j)) [
    | inl same ↦ inl ((==_iff n j).0 same, ground (arith, get_slot-set_slot n j a slots))
    | inr apart ↦ inr ((λ x. ground arith), ground (arith, get_slot-set_slot n j a slots))
  ]

  pub clear_slot-eq-some :
      (n j : ℕ) (b : A) (slots : List (ℕ × A))
      → get_slot j (clear_slot n slots) ≡ some b
      → (n ≢ j) × (get_slot j slots ≡ some b)
  clear_slot-eq-some n j b slots e = elim (Bool-cases (n == j)) [
    | inl same ↦ absurd (ground (arith, get_slot-clear_slot n j slots))
    | inr apart ↦ ((λ x. ground arith), ground (arith, get_slot-clear_slot n j slots))
  ]

  pub get_slot-set_self :
      (n : ℕ) (a : A) (slots : List (ℕ × A)) → get_slot n (set_slot n a slots) ≡ some a
  get_slot-set_self n a slots = ground (arith, get_slot-set_slot n n a slots)

  pub get_slot-set_other :
      (n j : ℕ) (a : A) (slots : List (ℕ × A))
      → n ≢ j
      → get_slot j (set_slot n a slots) ≡ get_slot j slots
  get_slot-set_other n j a slots apart = ground (arith, get_slot-set_slot n j a slots)

  pub get_slot-clear_other :
      (n j : ℕ) (slots : List (ℕ × A)) → n ≢ j → get_slot j (clear_slot n slots) ≡ get_slot j slots
  get_slot-clear_other n j slots apart = ground (arith, get_slot-clear_slot n j slots)
