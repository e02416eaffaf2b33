-- ===== src/Broker/Handler/Sessions.antt =====
-- The handlers that look a session up and end it, over the table of runners.
use bunshin.Prelude.{
  ℕ, ◌<◌, true, [], some, ◌≡◌, ◌≢◌, refl, sym, ap, ◌∙◌, arith, Bool-cases, inl, inr,
}
use bunshin.Text.{Text}
use bunshin.Outcome.{Outcome, ok_injective, ok, diverged, ended, with_ok, with_err, never}
use bunshin.Broker.Model.{Runner}
use bunshin.Broker.Store.{Repository}
use bunshin.Broker.Store.Contract.{Contract}
use bunshin.Broker.Service.{
  BrokerService, ResolveResult, ServiceError, wraps_not_found, resolve_session, close_session,
}
use bunshin.Broker.Service.Create.{IsPassive}
use bunshin.Broker.Service.Table.{IsUnique, IsFresh}
use bunshin.Broker.Service.Outcomes.{IssuesFresh}
use bunshin.Broker.Service.Guarantees.{lookup_session-resolve, close_session_frees}
use bunshin.Broker.Handler.{
  Handler, found_app, close_failed, delete_session, look_up_app, get_resolve_app,
}
use bunshin.Broker.Http.{Request, Reply, just_status}
use bunshin.Broker.Handler.Replies.{broker_service}
use bunshin.Broker.Handler.Requests.{IsHostOf, extract_session_hex_iff}

diverged-ne-ok : {W E A : Type 0} {a : A} {w : W} → ◌≡◌ {A = Outcome W E A} diverged (ok a w) → ⊥
diverged-ne-ok e = cc

close_failed_status : (q : Request) (e : ServiceError) → (close_failed q e).status ≢ 204
close_failed_status q e h = elim (Bool-cases (wraps_not_found e)) [
  | inl missing ↦
      let is_404 : (close_failed q e).status ≡ 404 = rw missing refl in omega (arith, is_404, h)
  | inr internal ↦
      let is_500 : (close_failed q e).status ≡ 500 = rw internal refl in omega (arith, is_500, h)
]

module _ {W : Type 0} {repo : Repository W} (c : Contract repo) (s : BrokerService W) (fuel : ℕ)
    (h : Handler) where
  -- In a sound table in which no two runners have the same session, a reply 204 of DeleteSession for
  -- a session that is not empty means that no runner has the session any more, and every runner of
  -- another session is in the table as it was.
  pub delete_session_frees :
      (q : Request) (w w' : W) (reply : Reply)
      → c.IsSound w
      → IsUnique c w
      → q.param ≢ []
      → delete_session h (broker_service repo s fuel) q w ≡ ok reply w'
      → reply.status ≡ 204
      → IsFresh c q.param w'
        × ((j : Text) (r : Runner)
            → c.runner_at w j ≡ some r
            → r.current_session_id ≢ q.param
            → c.runner_at w' j ≡ some r)
  unfolding delete_session
  delete_session_frees q w w' reply sound unique filled e status =
      elim (ended (close_session repo s q.param w)) [
        | never p ↦ absurd (diverged-ne-ok (sym (rw (p, delete_session) refl) ∙ e))
        | with_err x w₁ p ↦
            let (same, same_w) =
              ok_injective {a = close_failed q x} {w = w₁}
                (sym (rw (p, delete_session) refl) ∙ e) in
            absurd (close_failed_status q x (ap (λ (y : Reply). y.status) same ∙ status))
        | with_ok _ w₁ p ↦
            let (same, same_w) =
              ok_injective {a = just_status 204} {w = w₁} (sym (rw (p, delete_session) refl) ∙ e) in
            close_session_frees c s q.param w w' sound unique filled (p ∙ ap (ok tt) same_w)
      ]

  module _ (p : IsPassive c s) (old : Text) (w : W) (sound : c.IsSound w) (enough : c.size w < fuel)
      (fits : c.size w < c.bound) (res : ResolveResult) (w' : W)
      (done : resolve_session repo s fuel old w ≡ ok res w') (unique : IsUnique c w)
      (fresh : IssuesFresh c s w) where
    -- If the table is sound and smaller than the fuel and than the repository's bound, and the
    -- health checks and the source of ids end and leave the table alone, no two runners have the
    -- same session and no id that the service issues is in the table, then for a session that
    -- ResolveSession has made, GetResolveApp for a host that begins with the session's hex, of 32
    -- lowercase hex characters, and a dot replies 200 with the host that ResolveSession answered,
    -- if the search finds a runner.
    pub get_resolve_app_resolved :
        (q : Request) (r : Runner) (w₁ : W)
        → res.created ≡ true
        → IsHostOf res.session_hex q.host
        → repo.find_by_session_id res.session_id w' ≡ ok r w₁
        → get_resolve_app h (broker_service repo s fuel) q w'
          ≡ ok (found_app (record { runner_host = res.runner_host })) w₁
    unfolding get_resolve_app look_up_app
    get_resolve_app_resolved q r w₁ created host find =
        let looked =
          lookup_session-resolve c p fuel old w sound enough fits res w' done unique fresh r w₁
            created find in
        ap (λ o. look_up_app h (broker_service repo s fuel) q o w')
          ((extract_session_hex_iff q.host res.session_hex).1 host)
        ∙ rw (looked, look_up_app) refl
