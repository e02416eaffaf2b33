-- ===== src/Broker/Service/Guarantees.antt =====
-- What the broker service promises to its clients, whichever repository is behind it.
use bunshin.Prelude.{
  ℕ, ◌<◌, true, false, [], ◌∷◌, some, ◌≡◌, refl, sym, ap, ◌∙◌, ◌≢◌, arith, inl, inr, subst,
}
use bunshin.Text.{Text}
use bunshin.Text.Laws.{text_eq_iff, Lacks}
use bunshin.Outcome.{ok, err, diverged}
use bunshin.Broker.Model.{Runner}
use bunshin.Broker.Store.{Repository}
use bunshin.Broker.Store.Contract.{Contract}
use bunshin.Broker.Service.{
  BrokerService, ResolveResult, ServiceError, wraps_no_idle_runner, session_id_separator,
  namespaced_session_id, split_namespaced_session_id, resolve_found, resolve_existing,
  resolve_session, lookup_session, close_session,
}
use bunshin.Broker.Service.Table.{IsUnique, IsFresh}
use bunshin.Broker.Service.Create.{IsPassive}
use bunshin.Broker.Service.Outcomes.{IssuesFresh, KeepsOthers, NoneIdle, IsResolved, Good}
use bunshin.Broker.Service.Resolve.{resolve_session-Good}

resolve_session_found :
    {W : Type 0} (repo : Repository W) (s : BrokerService W) (fuel : ℕ) (session hex prefix : Text)
    (r : Runner) (w w₁ w₂ : W)
    → session ≢ []
    → repo.find_by_session_id session w ≡ ok r w₁
    → s.check r.private_host w₁ ≡ ok tt w₂
    → split_namespaced_session_id session ≡ some (prefix, hex)
    → resolve_session repo s fuel session w
      ≡ ok
          (record {
            session_id = session;
            session_hex = hex;
            runner_host = r.private_host;
            created = false;
            reassigned = false;
          })
          w₂
unfolding resolve_session resolve_existing resolve_found
resolve_session_found repo s fuel [] hex prefix r w w₁ w₂ filled find chk splits =
    absurd (filled refl)
resolve_session_found repo s fuel (x ∷ session) hex prefix r w w₁ w₂ filled find chk splits =
    rw (find, chk, splits, resolve_existing, resolve_found)

module _ {W : Type 0} {repo : Repository W} {s : BrokerService W} (c : Contract repo)
    (p : IsPassive c s) (fuel : ℕ) (old : Text) (w : W) (sound : c.IsSound w)
    (enough : c.size w < fuel) (fits : c.size w < c.bound) where
  -- If the table is sound and smaller than the fuel and than the repository's bound, and the
  -- health checks and the source of ids end and leave the table alone, ResolveSession ends.
  pub resolve_session_ends : resolve_session repo s fuel old w ≢ diverged
  resolve_session_ends e =
      subst (Good c s old w) e (resolve_session-Good c s p fuel old w sound enough fits)

  module _ (res : ResolveResult) (w' : W)
      (done : resolve_session repo s fuel old w ≡ ok res w') where
    pub resolve_session-IsResolved : IsResolved c s old w w' res
    resolve_session-IsResolved =
        subst (Good c s old w) done (resolve_session-Good c s p fuel old w sound enough fits)

    -- If the table is sound and smaller than the fuel and than the repository's bound, and the
    -- health checks and the source of ids end and leave the table alone, then whenever
    -- ResolveSession answers, a runner in the table has the session and the host that it answers
    -- with, and the last step before the answer was a health check that this host passed.
    pub resolve_session-owner :
        (r : Runner) × (c.runner_at w' r.runner_id ≡ some r)
        × (r.current_session_id ≡ res.session_id)
        × (r.private_host ≡ res.runner_host)
        × ((u : W) × (s.check res.runner_host u ≡ ok tt w'))
    resolve_session-owner =
        let g = resolve_session-IsResolved in (g.owner, g.at, g.owns, g.host, g.checked)

    -- If the table is sound and smaller than the fuel and than the repository's bound, and the
    -- health checks and the source of ids end and leave the table alone, then whenever
    -- ResolveSession answers, every runner that was not idle and had a session other than the one
    -- asked for is in the table as it was.
    pub resolve_session-KeepsOthers : KeepsOthers c s old w w'
    resolve_session-KeepsOthers = resolve_session-IsResolved.kept

    -- If the table is sound and smaller than the fuel and than the repository's bound, and the
    -- health checks and the source of ids end and leave the table alone, and no two runners have
    -- the same session and no id that the service issues is in the table, then whenever
    -- ResolveSession answers, no two runners have the same session.
    pub resolve_session-IsUnique : IsUnique c w → IssuesFresh c s w → IsUnique c w'
    resolve_session-IsUnique = resolve_session-IsResolved.unique

    module _ (unique : IsUnique c w) (fresh : IssuesFresh c s w) where
      found-owner :
          (session : Text) (r : Runner) (w₁ : W)
          → session ≡ res.session_id
          → repo.find_by_session_id session w' ≡ ok r w₁
          → r.private_host ≡ res.runner_host
      found-owner session r w₁ e find =
          let g = resolve_session-IsResolved in
          let (at, owns, same) = c.find_ok session w' w₁ r find in
          let id : r.runner_id ≡ g.owner.runner_id =
            g.unique unique fresh r.runner_id g.owner.runner_id r g.owner at g.at
              (owns ∙ e ∙ sym g.owns) (λ h. g.filled (sym e ∙ sym owns ∙ h)) in
          cc (ap (c.runner_at w') id, at, g.at, g.host)

      -- If the table is sound and smaller than the fuel and than the repository's bound, and the
      -- health checks and the source of ids end and leave the table alone, no two runners have the
      -- same session, no id that the service issues is in the table, and the stack prefix has no
      -- '_', then resolving an answered session again, when the search finds a runner and its
      -- check passes, answers the same id, hex and host, as neither created nor reassigned, in the
      -- state that the check left.
      pub resolve_session_sticky :
          (fuel' : ℕ) (r : Runner) (w₁ w₂ : W)
          → Lacks session_id_separator s.stack_prefix
          → repo.find_by_session_id res.session_id w' ≡ ok r w₁
          → s.check r.private_host w₁ ≡ ok tt w₂
          → resolve_session repo s fuel' res.session_id w'
            ≡ ok (record res { created = false; reassigned = false }) w₂
      resolve_session_sticky fuel' r w₁ w₂ lacks find chk =
          let g = resolve_session-IsResolved in
          let (prefix, splits) = g.splits lacks in
          resolve_session_found repo s fuel' res.session_id res.session_hex prefix r w' w₁ w₂
            g.filled find chk splits
          ∙ ap
              (λ host.
                ok (record res { runner_host = host; created = false; reassigned = false }) w₂)
              (found-owner res.session_id r w₁ refl find)

      -- If the table is sound and smaller than the fuel and than the repository's bound, and the
      -- health checks and the source of ids end and leave the table alone, no two runners have the
      -- same session and no id that the service issues is in the table, then for a session that
      -- ResolveSession has made, LookupSession of its hex, when the search finds a runner, answers
      -- the host that ResolveSession answered.
      pub lookup_session-resolve :
          (r : Runner) (w₁ : W)
          → res.created ≡ true
          → repo.find_by_session_id res.session_id w' ≡ ok r w₁
          → lookup_session repo s res.session_hex w'
            ≡ ok (record { runner_host = res.runner_host }) w₁
      unfolding lookup_session
      lookup_session-resolve r w₁ created find =
          let g = resolve_session-IsResolved in
          elim g.origin [
            | inl (reused, _) ↦ cc
            | inr (_, e) ↦
                let find' : repo.find_by_session_id (namespaced_session_id repo s res.session_hex)
                      w'
                    ≡ ok r w₁ =
                  ap (λ x. repo.find_by_session_id x w') (sym e) ∙ find in
                rw (find', lookup_session)
                  (ap (λ host. ok (record { runner_host = host }) w₁)
                    (found-owner res.session_id r w₁ refl find))
          ]

  -- If the table is sound and smaller than the fuel and than the repository's bound, and the
  -- health checks and the source of ids end and leave the table alone, then ResolveSession returns
  -- an error that wraps ErrNoIdleRunner only if no runner in the table that it leaves is idle.
  pub resolve_session_no_idle :
      (e : ServiceError) (w' : W)
      → resolve_session repo s fuel old w ≡ err e w'
      → wraps_no_idle_runner e ≡ true
      → NoneIdle c s w'
  resolve_session_no_idle e w' failed no_idle =
      (subst (Good c s old w) failed (resolve_session-Good c s p fuel old w sound enough fits))
        no_idle

-- CloseSession over the contract of Repository.
module _ {W : Type 0} {repo : Repository W} (c : Contract repo) (s : BrokerService W) where
  close_session-eq-ok :
      (session : Text) (w w' : W)
      → close_session repo s session w ≡ ok tt w'
      → (r : Runner) × (w₁ : W) × (repo.find_by_session_id session w ≡ ok r w₁)
        × (repo.delete r.runner_id w₁ ≡ ok tt w')
  unfolding close_session
  close_session-eq-ok session w w' done = ground arith

  -- In a sound table in which no two runners have the same session, a successful CloseSession of a
  -- session that is not empty leaves no runner with the session and keeps every runner of another
  -- session.
  pub close_session_frees :
      (session : Text) (w w' : W)
      → c.IsSound w
      → IsUnique c w
      → session ≢ []
      → close_session repo s session w ≡ ok tt w'
      → IsFresh c session w'
        × ((j : Text) (r : Runner)
            → c.runner_at w j ≡ some r
            → r.current_session_id ≢ session
            → c.runner_at w' j ≡ some r)
  unfolding close_session
  close_session_frees session w w' sound unique filled done =
      let (r, w₁, find, del) = close_session-eq-ok session w w' done in
      let (at, owns, same) = c.find_ok session w w₁ r find in
      let (gone, less, le, sound') = c.delete_ok r.runner_id w₁ w' (same.still_sound sound) del in
      let before : (j : Text) (x : Runner)
          → c.runner_at w' j ≡ some x
          → (j ≢ r.runner_id) × (c.runner_at w j ≡ some x) =
        λ j x at'. ground (arith, gone j, same.same_runners j, text_eq_iff j r.runner_id) in
      (
        λ j x at' e.
            let (differs, at₀) = before j x at' in
            differs (unique j r.runner_id x r at₀ at (e ∙ sym owns) (λ h. filled (sym e ∙ h))),
        λ j x at' other.
            let differs : j ≢ r.runner_id = λ e. other (cc (ap (c.runner_at w) e)) in
            ground (arith, gone j, same.same_runners j, text_eq_iff j r.runner_id),
      )
