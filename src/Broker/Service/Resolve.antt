-- ===== src/Broker/Service/Resolve.antt =====
-- ResolveSession, branch by branch.
use bunshin.Prelude.{
  ℕ, ◌<◌, Bool, true, false, [], ◌∷◌, some, ◌≡◌, refl, sym, ap, ◌∙◌, ◌≢◌, arith, Option-cases, inl,
  inr,
}
use bunshin.Text.{Text}
use bunshin.Text.Laws.{cut-append}
use bunshin.Outcome.{Outcome, ok, err, diverged, ended, with_ok, with_err, never}
use bunshin.Broker.Model.{Runner}
use bunshin.Broker.Store.{StoreError, not_found, no_idle_runner, Repository}
use bunshin.Broker.Store.Contract.{Contract, SameTable}
use bunshin.Broker.Service.{
  BrokerService, CreateSessionResult, ServiceError, store, delete_unhealthy, session_id_separator,
  namespaced_session_id, split_namespaced_session_id, create_loop, create_session, resolve_new,
  resolved, resolve_found, resolve_existing, resolve_session,
}
use bunshin.Broker.Service.Table.{
  Assigns-KeepsBusy, Assigns-IsUnique, ClearedTo-KeepsBusy, ClearedTo-IsUnique, ClearedTo-IsFresh,
}
use bunshin.Broker.Service.Create.{IsPassive, Creates-ends, create_loop-Creates}
use bunshin.Broker.Service.Sessions.{Established, Creates-Established}
use bunshin.Broker.Service.Outcomes.{
  eq-of-is_no_idle_runner, Good, SameTable-Narrows, Narrows-trans, Narrows-Good, delete-Narrows,
  namespaced-filled,
}

module _ {W : Type 0} {repo : Repository W} (c : Contract repo) (s : BrokerService W)
    (p : IsPassive c s) where
  Established-Good :
      (old hex : Text) (w w₁ : W) (reassigned : Bool)
      (o : Outcome W ServiceError CreateSessionResult)
      → SameTable c.runner_at c.size c.IsSound w w₁
      → s.session_fn w ≡ ok hex w₁
      → o ≢ diverged
      → Established c s (namespaced_session_id repo s hex) hex w₁ o
      → Good c s old w₁ (resolved reassigned o)
  Established-Good old hex w w₁ reassigned (ok res w') same issued ends e = record {
    owner = res.runner;
    at = e.assigns.at;
    owns = e.assigns.owns ∙ sym e.named.0;
    host = refl;
    checked = e.checked;
    kept = λ j r at busy other.
        Assigns-KeepsBusy c _ res.runner e.before w' e.assigns j r
          (ClearedTo-KeepsBusy c e.cleared j r at busy) busy;
    unique = λ unique fresh.
        Assigns-IsUnique c _ res.runner e.before w' e.assigns
          (ClearedTo-IsFresh c _ w₁ e.before e.cleared (fresh w w₁ hex issued))
          (ClearedTo-IsUnique c w₁ e.before e.cleared unique);
    sound = e.assigns.sound;
    filled = λ h. namespaced-filled c s hex (sym e.named.0 ∙ h);
    splits = λ lacks. (
      s.stack_prefix,
      rw (e.named.0, e.named.1) (cut-append session_id_separator s.stack_prefix hex lacks),
    );
    origin = inr (refl, e.named.0 ∙ ap (namespaced_session_id repo s) (sym e.named.1));
  }
  Established-Good old hex w w₁ reassigned (err (store no_idle_runner) w') same issued ends e =
      λ _ j r at. e.none_idle j r (sym (e.same.same_runners j) ∙ at)
  Established-Good old hex w w₁ reassigned (err (store x) w') same issued ends e =
      λ h j r at idle. cc
  Established-Good old hex w w₁ reassigned (err (delete_unhealthy id x) w') same issued ends e =
      λ h. absurd (e (eq-of-is_no_idle_runner x h))
  Established-Good old hex w w₁ reassigned (err x w') same issued ends e = λ h j r at idle. cc
  Established-Good old hex w w₁ reassigned diverged same issued ends e = ends refl

  create_loop-Established :
      (fuel : ℕ) (hex : Text) (w : W)
      → c.IsSound w
      → c.size w < fuel
      → c.size w < c.bound
      → (create_loop repo s fuel (namespaced_session_id repo s hex) hex w ≢ diverged)
        × Established c s
            (namespaced_session_id repo s hex)
            hex
            w
            (create_loop repo s fuel (namespaced_session_id repo s hex) hex w)
  create_loop-Established fuel hex w sound h k =
      let filled = namespaced-filled c s hex in
      let creates = create_loop-Creates c p _ hex filled fuel w sound h k in
      (Creates-ends creates, Creates-Established c p _ hex filled sound creates)

  resolve_new-Good :
      (fuel : ℕ) (reassigned : Bool) (old : Text) (w : W)
      → c.IsSound w
      → c.size w < fuel
      → c.size w < c.bound
      → Good c s old w (resolve_new repo s fuel reassigned w)
  unfolding resolve_new create_session
  resolve_new-Good fuel reassigned old w sound h k = elim (ended (s.session_fn w)) [
    | never e ↦ absurd (p.session_ends w e)
    | with_err e w₁ issued ↦ rw (issued, resolve_new, create_session) (λ h j r at idle. cc)
    | with_ok hex w₁ issued ↦
        let same = p.session_ok hex w w₁ issued in
        let (ends, established) =
          create_loop-Established fuel hex w₁ (same.still_sound sound)
            (omega (arith, same.same_size)) (omega (arith, same.same_size)) in
        rw (issued, resolve_new, create_session)
          (Narrows-Good c s old w w₁ _ (SameTable-Narrows c s old w w₁ same)
            (Established-Good old hex w w₁ reassigned _ same issued ends established))
  ]

  resolve_found-Good :
      (old : Text) (w u : W) (r : Runner)
      → c.IsSound w
      → c.runner_at w r.runner_id ≡ some r
      → r.current_session_id ≡ old
      → old ≢ []
      → s.check r.private_host u ≡ ok tt w
      → Good c s old w (resolve_found repo s old r w)
  unfolding resolve_found
  resolve_found-Good old w u r sound at owns filled chk =
      elim (Option-cases (split_namespaced_session_id old)) [
        | inl missing ↦ rw (missing, resolve_found) (λ h j r at idle. cc)
        | inr ((prefix, hex), e) ↦
            rw (e, resolve_found)
              (record {
                owner = r;
                at = at;
                owns = owns;
                host = refl;
                checked = (u, chk);
                kept = λ j x at busy other. at;
                unique = λ unique fresh. unique;
                sound = sound;
                filled = filled;
                splits = λ lacks. (prefix, e);
                origin = inl (refl, refl);
              })
      ]

  find_err-Good :
      (fuel : ℕ) (old : Text) (w w₁ : W) (x : StoreError)
      → old ≢ []
      → c.IsSound w
      → c.size w < fuel
      → c.size w < c.bound
      → repo.find_by_session_id old w ≡ err x w₁
      → Good c s old w (resolve_existing repo s fuel old w)
  unfolding resolve_existing
  find_err-Good fuel old w w₁ not_found filled sound h k find =
      let (fresh, same) = c.find_none old w w₁ filled find in
      rw (find, resolve_existing)
        (Narrows-Good c s old w w₁ _ (SameTable-Narrows c s old w w₁ same) (
          resolve_new-Good fuel false old w₁ (same.still_sound sound)
            (omega (arith, same.same_size)) (omega (arith, same.same_size))))
  find_err-Good fuel old w w₁ no_idle_runner filled sound h k find =
      absurd (c.find_errors old w w₁ find)
  find_err-Good fuel old w w₁ _ filled sound h k find =
      rw (find, resolve_existing) (λ h' j r at idle. cc)

  check_err-Good :
      (fuel : ℕ) (old : Text) (w w₁ w₂ : W) (r : Runner) (e : ℕ)
      → c.IsSound w
      → c.size w < fuel
      → c.size w < c.bound
      → repo.find_by_session_id old w ≡ ok r w₁
      → s.check r.private_host w₁ ≡ err e w₂
      → Good c s old w (resolve_existing repo s fuel old w)
  unfolding resolve_existing
  check_err-Good fuel old w w₁ w₂ r e sound h k find chk =
      let (at, owns, same) = c.find_ok old w w₁ r find in
      let keep = p.check_err r.private_host e w₁ w₂ chk in
      let sound₂ = keep.still_sound (same.still_sound sound) in
      let at₂ : c.runner_at w₂ r.runner_id ≡ some r =
        keep.same_runners _ ∙ same.same_runners _ ∙ at in
      elim (Option-cases (s.ctx_err w₂)) [
        | inr (x, stop) ↦ rw (find, chk, stop, resolve_existing) (λ h' j r at idle. cc)
        | inl live ↦ elim (ended (repo.delete r.runner_id w₂)) [
          | never e' ↦ absurd (c.delete_ends _ _ e')
          | with_err e' w₃ del ↦
              rw (find, chk, live, del, resolve_existing)
                (λ h'. absurd (
                  (c.delete_errors r.runner_id w₂ w₃).1
                    (del ∙ ap (λ x. err x w₃) (eq-of-is_no_idle_runner e' h'))))
          | with_ok _ w₃ del ↦
              let (gone, less, le, sound₃) = c.delete_ok r.runner_id w₂ w₃ sound₂ del in
              let narrows =
                Narrows-trans c s old w w₂ w₃
                  (Narrows-trans c s old w w₁ w₂ (SameTable-Narrows c s old w w₁ same)
                    (SameTable-Narrows c s old w₁ w₂ keep))
                  (delete-Narrows c s old w₂ w₃ r sound₂ at₂ owns del) in
              rw (find, chk, live, del, resolve_existing)
                (Narrows-Good c s old w w₃ _ narrows (
                  resolve_new-Good fuel true old w₃ sound₃
                    (omega (arith, same.same_size, keep.same_size))
                    (omega (arith, same.same_size, keep.same_size))))
        ]
      ]

  resolve_existing-Good :
      (fuel : ℕ) (old : Text) (w : W)
      → old ≢ []
      → c.IsSound w
      → c.size w < fuel
      → c.size w < c.bound
      → Good c s old w (resolve_existing repo s fuel old w)
  unfolding resolve_existing
  resolve_existing-Good fuel old w filled sound h k = elim (ended (repo.find_by_session_id old w)) [
    | never e ↦ absurd (c.find_ends old w e)
    | with_err x w₁ find ↦ find_err-Good fuel old w w₁ x filled sound h k find
    | with_ok r w₁ find ↦
        let (at, owns, same) = c.find_ok old w w₁ r find in
        let n₁ = SameTable-Narrows c s old w w₁ same in
        elim (ended (s.check r.private_host w₁)) [
          | never e ↦ absurd (p.check_ends _ _ e)
          | with_ok _ w₂ chk ↦
              let keep = p.check_ok r.private_host w₁ w₂ chk in
              rw (find, chk, resolve_existing)
                (Narrows-Good c s old w w₂ _
                  (Narrows-trans c s old w w₁ w₂ n₁ (SameTable-Narrows c s old w₁ w₂ keep))
                  (resolve_found-Good old w₂ w₁ r (keep.still_sound (same.still_sound sound))
                    (keep.same_runners _ ∙ same.same_runners _ ∙ at) owns filled chk))
          | with_err e w₂ chk ↦ check_err-Good fuel old w w₁ w₂ r e sound h k find chk
        ]
  ]

  pub resolve_session-Good :
      (fuel : ℕ) (old : Text) (w : W)
      → c.IsSound w
      → c.size w < fuel
      → c.size w < c.bound
      → Good c s old w (resolve_session repo s fuel old w)
  unfolding resolve_session
  resolve_session-Good fuel [] w sound h k = resolve_new-Good fuel false [] w sound h k
  resolve_session-Good fuel (x ∷ old) w sound h k =
      resolve_existing-Good fuel (x ∷ old) w (λ e. cc) sound h k
