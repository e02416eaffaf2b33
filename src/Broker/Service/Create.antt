-- ===== src/Broker/Service/Create.antt =====
-- createSession: what its loop does, round by round, and that it ends.
use bunshin.Prelude.{
  ℕ, zero, suc, ◌<◌, [], none, some, ◌≡◌, ap, ◌∙◌, ◌≢◌, arith, Option-cases, inl, inr,
}
use bunshin.Text.{Text}
use bunshin.Text.Laws.{text_eq_refl}
use bunshin.Outcome.{Outcome, ok, err, diverged, ended, with_ok, with_err, never}
use bunshin.Broker.Model.{Runner}
use bunshin.Broker.Store.{StoreError, Repository}
use bunshin.Broker.Store.Contract.{Contract, SameTable}
use bunshin.Broker.Service.{
  BrokerService, CreateSessionResult, ServiceError, store, context, delete_unhealthy, create_loop,
}

-- What the health checks and the source of session ids may do: end, and leave the table alone.
pub record IsPassive {W : Type 0} {repo : Repository W} (c : Contract repo) (s : BrokerService W)
    : Type 0 where
  pub check_ok :
      (host : Text) (w w' : W)
      → s.check host w ≡ ok tt w'
      → SameTable c.runner_at c.size c.IsSound w w'
  pub check_err :
      (host : Text) (e : ℕ) (w w' : W)
      → s.check host w ≡ err e w'
      → SameTable c.runner_at c.size c.IsSound w w'
  pub check_ends : (host : Text) (w : W) → s.check host w ≢ diverged
  pub session_ok :
      (hex : Text) (w w' : W)
      → s.session_fn w ≡ ok hex w'
      → SameTable c.runner_at c.size c.IsSound w w'
  pub session_ends : (w : W) → s.session_fn w ≢ diverged

module _ {W : Type 0} (repo : Repository W) (s : BrokerService W) (session_id hex : Text) where
  -- The loop as a relation: from a state, through any number of stale runners, to an outcome.
  pub data Creates : W → Outcome W ServiceError CreateSessionResult → Type 0 where
    no_runner :
        {w w₁ : W} {e : StoreError}
        → repo.acquire_idle session_id w ≡ err e w₁
        → Creates w (err (store e) w₁)
    healthy :
        {w w₁ w₂ : W} {r : Runner}
        → repo.acquire_idle session_id w ≡ ok r w₁
        → s.check r.private_host w₁ ≡ ok tt w₂
        → Creates w (ok (record { session_id = session_id; session_hex = hex; runner = r }) w₂)
    cancelled :
        {w w₁ w₂ : W} {r : Runner} {e c : ℕ}
        → repo.acquire_idle session_id w ≡ ok r w₁
        → s.check r.private_host w₁ ≡ err e w₂
        → s.ctx_err w₂ ≡ some c
        → Creates w (err (context c) w₂)
    undeleted :
        {w w₁ w₂ w₃ : W} {r : Runner} {e : ℕ} {e' : StoreError}
        → repo.acquire_idle session_id w ≡ ok r w₁
        → s.check r.private_host w₁ ≡ err e w₂
        → s.ctx_err w₂ ≡ none
        → repo.delete r.runner_id w₂ ≡ err e' w₃
        → Creates w (err (delete_unhealthy r.runner_id e') w₃)
    stale :
        {w w₁ w₂ w₃ : W} {r : Runner} {e : ℕ} {o : Outcome W ServiceError CreateSessionResult}
        → repo.acquire_idle session_id w ≡ ok r w₁
        → s.check r.private_host w₁ ≡ err e w₂
        → s.ctx_err w₂ ≡ none
        → repo.delete r.runner_id w₂ ≡ ok tt w₃
        → Creates w₃ o
        → Creates w o

module _ {W : Type 0} {repo : Repository W} {s : BrokerService W} {session_id hex : Text} where
  pub Creates-ends :
      {w : W} {o : Outcome W ServiceError CreateSessionResult}
      → Creates repo s session_id hex w o
      → o ≢ diverged
  Creates-ends (no_runner acq) e = cc
  Creates-ends (healthy acq chk) e = cc
  Creates-ends (cancelled acq chk stop) e = cc
  Creates-ends (undeleted acq chk live del) e = cc
  Creates-ends (stale acq chk live del rest) e = Creates-ends rest e

module _ {W : Type 0} {repo : Repository W} {s : BrokerService W} (c : Contract repo)
    (p : IsPassive c s) (session_id hex : Text) (filled : session_id ≢ []) where
  -- The runner that is acquired stands in the table as it is returned.
  pub acquired-at :
      (w w₁ : W) (r : Runner)
      → c.IsSound w
      → repo.acquire_idle session_id w ≡ ok r w₁
      → c.runner_at w₁ r.runner_id ≡ some r
  acquired-at w w₁ r sound acq =
      let (q, same, at, idle, after, size, sound₁) =
        c.acquire_ok session_id w w₁ r filled sound acq in
      after r.runner_id ∙ rw (ap (λ (x : Runner). x.runner_id) same, text_eq_refl q.runner_id)

  -- Acquiring a runner and deleting it makes the table smaller.
  abbrev Shrinks : W → W → Type 0
  Shrinks w w' = c.IsSound w' × (c.size w' < c.size w)

  stale-Shrinks :
      (w w₁ w₂ w₃ : W) (r : Runner) (e : ℕ)
      → c.IsSound w
      → repo.acquire_idle session_id w ≡ ok r w₁
      → s.check r.private_host w₁ ≡ err e w₂
      → repo.delete r.runner_id w₂ ≡ ok tt w₃
      → Shrinks w w₃
  stale-Shrinks w w₁ w₂ w₃ r e sound acq chk del =
      let (q, same, at, idle, after, size, sound₁) =
        c.acquire_ok session_id w w₁ r filled sound acq in
      let keep = p.check_err r.private_host e w₁ w₂ chk in
      let (gone, less, le, sound₃) = c.delete_ok r.runner_id w₂ w₃ (keep.still_sound sound₁) del in
      let held : c.runner_at w₂ r.runner_id ≡ some r =
        keep.same_runners r.runner_id ∙ acquired-at w w₁ r sound acq in
      (sound₃, omega (arith, less r held, size, keep.same_size))

  -- From a sound table that is smaller than the fuel and the repository's bound, and with health
  -- checks that end and leave the table alone, the loop of createSession for a session that is not
  -- empty does what the relation Creates says; so it ends.
  pub create_loop-Creates :
      (fuel : ℕ) (w : W)
      → c.IsSound w
      → c.size w < fuel
      → c.size w < c.bound
      → Creates repo s session_id hex w (create_loop repo s fuel session_id hex w)
  unfolding create_loop
  create_loop-Creates zero w sound h k = elim h [ ]
  create_loop-Creates (suc fuel) w sound h k = elim (ended (repo.acquire_idle session_id w)) [
    | never e ↦ absurd (c.acquire_ends session_id w sound k e)
    | with_err e w₁ acq ↦ rw (acq, create_loop) (no_runner acq)
    | with_ok r w₁ acq ↦ elim (ended (s.check r.private_host w₁)) [
      | never e ↦ absurd (p.check_ends _ _ e)
      | with_ok _ w₂ chk ↦ rw (acq, chk, create_loop) (healthy acq chk)
      | with_err e w₂ chk ↦ elim (Option-cases (s.ctx_err w₂)) [
        | inr (x, cancel) ↦ rw (acq, chk, cancel, create_loop) (cancelled acq chk cancel)
        | inl live ↦ elim (ended (repo.delete r.runner_id w₂)) [
          | never e' ↦ absurd (c.delete_ends _ _ e')
          | with_err e' w₃ del ↦ rw (acq, chk, live, del, create_loop) (undeleted acq chk live del)
          | with_ok _ w₃ del ↦
              let (sound₃, less) = stale-Shrinks w w₁ w₂ w₃ r e sound acq chk del in
              rw (acq, chk, live, del, create_loop)
                (stale acq chk live del
                  (create_loop-Creates fuel w₃ sound₃ (omega arith) (omega arith)))
        ]
      ]
    ]
  ]
