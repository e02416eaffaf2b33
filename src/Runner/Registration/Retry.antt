-- ===== src/Runner/Registration/Retry.antt =====
-- The loop of register: it goes on until a post is answered by 201 or the context is done.
use bunshin.Prelude.{ℕ, zero, suc, Bool, true, false, ◌≡◌, ◌≢◌, inl, inr, arith, Bool-cases}
use bunshin.Outcome.{ok}
use bunshin.Runner.Registration.{RegisterDeps, is_created, register_post, register}

module _ {W : Type 0} (deps : RegisterDeps W) where
  -- The world after the post of a round, and after its wait.
  abbrev pub posted : W → W
  posted w = (deps.http_post (register_post deps) w).1

  abbrev pub answer_is_created : W → Bool
  answer_is_created w = is_created (deps.http_post (register_post deps) w).0

  abbrev pub waited : W → W
  waited w = (deps.wait (posted w)).1

  -- A world before the last post of a run that succeeded.
  pub record LastPost (w' : W) : Type 0 where
    pub before : W
    pub made : answer_is_created before ≡ true
    pub ended : posted before ≡ w'

  pub register-LastPost : (fuel : ℕ) (w w' : W) → register deps fuel w ≡ ok tt w' → LastPost w'
  unfolding register
  register-LastPost zero w w' e = cc
  register-LastPost (suc fuel) w w' e = elim (Bool-cases (answer_is_created w)) [
    | inl made ↦ record { before = w; made = made; ended = ground arith }
    | inr refused ↦ elim (Bool-cases (deps.wait (posted w)).0) [
      | inl fired ↦ register-LastPost fuel (waited w) w' (ground arith)
      | inr stopped ↦ absurd (ground arith)
    ]
  ]

  -- Where a set of worlds has no post that is answered by 201 and is not left, register does not
  -- succeed.
  pub register_stuck :
      (P : W → Type 0)
      → ((w : W) → P w → answer_is_created w ≡ false)
      → ((w : W) → P w → P (waited w))
      → (fuel : ℕ) (w w' : W) → P w
      → register deps fuel w ≢ ok tt w'
  unfolding register
  register_stuck P refused stays zero w w' p e = cc
  register_stuck P refused stays (suc fuel) w w' p e = elim (Bool-cases (deps.wait (posted w)).0) [
    | inl fired ↦
        register_stuck P refused stays fuel (waited w) w' (stays w p) (ground (arith, refused w p))
    | inr stopped ↦ ground (arith, refused w p)
  ]
