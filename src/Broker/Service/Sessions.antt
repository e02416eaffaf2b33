-- ===== src/Broker/Service/Sessions.antt =====
-- What createSession promises of the table: the runner that it returns, and all the others.
use bunshin.Prelude.{ℕ, [], some, ◌≡◌, refl, ap, ◌∙◌, ◌≢◌}
use bunshin.Text.{Text}
use bunshin.Outcome.{Outcome, ok, err}
use bunshin.Broker.Model.{Runner, state_idle}
use bunshin.Broker.Store.{StoreError, no_idle_runner, Repository}
use bunshin.Broker.Store.Contract.{Contract, SameTable}
use bunshin.Broker.Service.{
  BrokerService, CreateSessionResult, ServiceError, store, delete_unhealthy,
}
use bunshin.Broker.Service.Table.{
  Assigns, Drops, ClearedTo, here, next, acquire-Assigns, Assigns-SameTable, Assigns-Drops,
}
use bunshin.Broker.Service.Create.{
  IsPassive, Creates, no_runner, healthy, cancelled, undeleted, stale,
}

module _ {W : Type 0} {repo : Repository W} (c : Contract repo) (s : BrokerService W)
    (session_id hex : Text) where
  -- What a successful createSession has done to the table of `w`.
  pub record IsCreated (w w' : W) (res : CreateSessionResult) : Type 0 where
    pub before : W
    pub cleared : ClearedTo c before w
    pub assigns : Assigns c session_id res.runner before w'
    pub named : (res.session_id ≡ session_id) × (res.session_hex ≡ hex)
    pub checked : (w₁ : W) × (s.check res.runner.private_host w₁ ≡ ok tt w')

  -- What an answer that no runner is idle has established.
  pub record IsExhausted (w w' : W) : Type 0 where
    pub before : W
    pub cleared : ClearedTo c before w
    pub none_idle : (j : Text) (r : Runner) → c.runner_at before j ≡ some r → r.state ≢ state_idle
    pub same : SameTable c.runner_at c.size c.IsSound before w'

  abbrev pub Established : W → Outcome W ServiceError CreateSessionResult → Type 0
  Established w (ok res w') = IsCreated w w' res
  Established w (err (store no_idle_runner) w') = IsExhausted w w'
  Established w (err (delete_unhealthy id e) w') = e ≢ no_idle_runner
  Established w _ = Unit

module _ {W : Type 0} {repo : Repository W} {s : BrokerService W} (c : Contract repo)
    (p : IsPassive c s) (session_id hex : Text) (filled : session_id ≢ []) where
  round-Drops :
      (w w₁ w₂ w₃ : W) (r : Runner) (e : ℕ)
      → c.IsSound w
      → repo.acquire_idle session_id w ≡ ok r w₁
      → s.check r.private_host w₁ ≡ err e w₂
      → repo.delete r.runner_id w₂ ≡ ok tt w₃
      → Drops c w w₃
  round-Drops w w₁ w₂ w₃ r e sound acq chk del =
      Assigns-Drops c session_id r w w₂ w₃
        (Assigns-SameTable c session_id r w w₁ w₂
          (acquire-Assigns c session_id w w₁ r filled sound acq)
          (p.check_err r.private_host e w₁ w₂ chk))
        del

  acquire_err-Established :
      (w w₁ : W) (e : StoreError)
      → c.IsSound w
      → repo.acquire_idle session_id w ≡ err e w₁
      → Established c s session_id hex w (err (store e) w₁)
  acquire_err-Established w w₁ no_idle_runner sound acq =
      let (none_idle, same) = c.acquire_none session_id w w₁ sound acq in
      record { before = w; cleared = here; none_idle = none_idle; same = same }
  acquire_err-Established w w₁ _ sound acq = tt

  Drops-Established :
      (w w₃ : W) (o : Outcome W ServiceError CreateSessionResult)
      → Drops c w w₃
      → Established c s session_id hex w₃ o
      → Established c s session_id hex w o
  Drops-Established w w₃ (ok res w') d i = record {
    before = i.before;
    cleared = next d i.cleared;
    assigns = i.assigns;
    named = i.named;
    checked = i.checked;
  }
  Drops-Established w w₃ (err (store no_idle_runner) w') d i = record {
    before = i.before;
    cleared = next d i.cleared;
    none_idle = i.none_idle;
    same = i.same;
  }
  Drops-Established w w₃ (err (delete_unhealthy id e) w') d i = i
  Drops-Established w w₃ _ d i = tt

  pub Creates-Established :
      {w : W} {o : Outcome W ServiceError CreateSessionResult}
      → c.IsSound w
      → Creates repo s session_id hex w o
      → Established c s session_id hex w o
  Creates-Established sound (no_runner {w} {w₁} {e} acq) = acquire_err-Established w w₁ e sound acq
  Creates-Established sound (healthy {w} {w₁} {w₂} {r} acq chk) = record {
    before = w;
    cleared = here;
    assigns =
        Assigns-SameTable c session_id r w w₁ w₂
          (acquire-Assigns c session_id w w₁ r filled sound acq)
          (p.check_ok r.private_host w₁ w₂ chk);
    named = (refl, refl);
    checked = (w₁, chk);
  }
  Creates-Established sound (cancelled acq chk stop) = tt
  Creates-Established sound (undeleted {w} {w₁} {w₂} {w₃} {r} {e} {e'} acq chk live del) =
      λ same. (c.delete_errors r.runner_id w₂ w₃).1 (del ∙ ap (λ x. err x w₃) same)
  Creates-Established sound (stale {w} {w₁} {w₂} {w₃} {r} {e} {o} acq chk live del rest) =
      let d = round-Drops w w₁ w₂ w₃ r e sound acq chk del in
      Drops-Established w w₃ o d (Creates-Established d.sound rest)
