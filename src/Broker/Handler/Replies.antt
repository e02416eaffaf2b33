-- ===== src/Broker/Handler/Replies.antt =====
-- What the replies of the handlers say of the table of runners.
use bunshin.Prelude.{
  ℕ, ◌<◌, Bool, true, false, [], ◌∷◌, ◌++◌, Option, none, some, ◌≡◌, ◌⊎◌, inl, inr, refl, sym, ap,
  ◌∙◌, arith, if◌then◌else◌, subst, Bool-cases,
}
use bunshin.Text.{Text, lit}
use bunshin.Outcome.{Outcome, ok_injective, ok, err, diverged, ended, with_ok, with_err, never}
use bunshin.Broker.Model.{Runner}
use bunshin.Broker.Store.{Repository}
use bunshin.Broker.Store.Contract.{Contract}
use bunshin.Broker.Service.{
  BrokerService, ResolveResult, ServiceError, wraps_no_idle_runner, resolve_session, lookup_session,
  close_session, register_runner, deregister_runner, list_busy_runners,
}
use bunshin.Broker.Service.Create.{IsPassive}
use bunshin.Broker.Service.Outcomes.{NoneIdle}
use bunshin.Broker.Service.Guarantees.{resolve_session-IsResolved, resolve_session_no_idle}
use bunshin.Broker.Handler.{
  Service, Handler, resolved_headers, session_cookie_of, resolved_reply, resolve_failed,
  get_resolve_session,
}
use bunshin.Broker.Http.{
  Request, Reply, Cookie, runner_host_header, reassigned_header, session_hex_header,
  stack_name_header,
}
use bunshin.Broker.Handler.Fallback.{header_of}

-- BrokerService as the Service of the handlers.
abbrev pub broker_service : {W : Type 0} → Repository W → BrokerService W → ℕ → Service W
broker_service repo s fuel = record {
  close_session = close_session repo s;
  resolve_session = resolve_session repo s fuel;
  lookup_session = lookup_session repo s;
  register_runner = register_runner repo s;
  deregister_runner = deregister_runner repo s;
  list_busy_runners = list_busy_runners repo s;
}

header_of_runner_host :
    (h : Handler) (r : ResolveResult)
    → header_of runner_host_header (resolved_headers h r) ≡ r.runner_host
header_of_runner_host h r = go r.reassigned
  where
    go :
        (b : Bool)
        → header_of runner_host_header (
            (if b then (reassigned_header, lit "true") ∷ [] else [])
            ++ ((session_hex_header, r.session_hex)
                ∷ (stack_name_header, h.stack_self)
                ∷ (runner_host_header, r.runner_host)
                ∷ []))
          ≡ r.runner_host
    go true = refl
    go false = refl

-- A status of GetResolveSession with the outcome of the service that it stands for.
abbrev Answers : {W : Type 0} → Handler → Outcome W ServiceError ResolveResult → Reply → W → Type 0
Answers h o reply w' =
    ((r : ResolveResult) × (o ≡ ok r w')
      × (reply.headers ≡ resolved_headers h r)
      × (reply.cookie ≡ session_cookie_of r)
      × (reply.status ≡ 200))
    ⊎ ((e : ServiceError) × (o ≡ err e w') × (wraps_no_idle_runner e ≡ true) × (reply.status ≡ 503))
    ⊎ ((e : ServiceError) × (o ≡ err e w')
        × (wraps_no_idle_runner e ≡ false)
        × (reply.status ≡ 500))

diverged-ne-ok : {W E A : Type 0} {a : A} {w : W} → ◌≡◌ {A = Outcome W E A} diverged (ok a w) → ⊥
diverged-ne-ok e = cc

get_resolve_session-Answers :
    {W : Type 0} (h : Handler) (svc : Service W) (q : Request) (w w' : W) (reply : Reply)
    → get_resolve_session h svc q w ≡ ok reply w'
    → Answers h (svc.resolve_session q.session_cookie w) reply w'
unfolding get_resolve_session
get_resolve_session-Answers h svc q w w' reply e =
    elim (ended (svc.resolve_session q.session_cookie w)) [
      | never p ↦ absurd (diverged-ne-ok (sym (rw (p, get_resolve_session) refl) ∙ e))
      | with_ok r w₁ p ↦
          let (same, same_w) =
            ok_injective {a = resolved_reply h r} (sym (rw (p, get_resolve_session) refl) ∙ e) in
          inl (
            r,
            p ∙ ap (ok r) same_w,
            ap (λ (x : Reply). x.headers) (sym same),
            ap (λ (x : Reply). x.cookie) (sym same),
            ap (λ (x : Reply). x.status) (sym same),
          )
      | with_err x w₁ p ↦
          let (same, same_w) =
            ok_injective {a = resolve_failed h q x} (sym (rw (p, get_resolve_session) refl) ∙ e) in
          elim (Bool-cases (wraps_no_idle_runner x)) [
            | inl wraps ↦ inr (
                inl (
                  x,
                  p ∙ ap (err x) same_w,
                  wraps,
                  ap (λ (y : Reply). y.status) (sym same) ∙ rw wraps refl,
                ))
            | inr not_idle ↦ inr (
                inr (
                  x,
                  p ∙ ap (err x) same_w,
                  not_idle,
                  ap (λ (y : Reply). y.status) (sym same) ∙ rw not_idle refl,
                ))
          ]
    ]

-- The cookie of a reply for a session id: none if it is the id that the request had, or a new one.
abbrev pub Carries : Text → Text → Option Cookie → Type 0
Carries old session none = session ≡ old
Carries old session (some cookie) =
    (cookie.value ≡ session)
    × (cookie.secure ≡ true)
    × (cookie.http_only ≡ true)
    × (cookie.same_site_strict ≡ true)

module _ {W : Type 0} {repo : Repository W} {s : BrokerService W} (c : Contract repo)
    (p : IsPassive c s) (fuel : ℕ) (h : Handler) (q : Request) (w w' : W) (reply : Reply)
    (sound : c.IsSound w) (enough : c.size w < fuel) (fits : c.size w < c.bound)
    (replied : get_resolve_session h (broker_service repo s fuel) q w ≡ ok reply w') where
  -- If the table is sound and smaller than the fuel and than the repository's bound, and the
  -- health checks and the source of ids end and leave the table alone, then GetResolveSession
  -- replies 503 only if no runner in the table that it leaves is idle.
  pub get_resolve_session_unavailable : reply.status ≡ 503 → NoneIdle c s w'
  get_resolve_session_unavailable status =
      elim (get_resolve_session-Answers h (broker_service repo s fuel) q w w' reply replied) [
        | inl (r, done, heads, cookie, ok_status) ↦ absurd (omega (arith, ok_status, status))
        | inr (inl (e, failed, wraps, unavailable)) ↦
            resolve_session_no_idle c p fuel q.session_cookie w sound enough fits e w' failed wraps
        | inr (inr (e, failed, wraps, internal)) ↦ absurd (omega (arith, internal, status))
      ]

  -- If the table is sound and smaller than the fuel and than the repository's bound, and the
  -- health checks and the source of ids end and leave the table alone, then a reply 200 of
  -- GetResolveSession names in X-Runner-Host the host of a runner in the table, and that runner's
  -- session is the request's cookie if the reply sets none, and otherwise the value of the reply's
  -- cookie, which is Secure, HttpOnly and SameSite=Strict.
  pub get_resolve_session_found :
      reply.status ≡ 200
      → (r : Runner) × (c.runner_at w' r.runner_id ≡ some r)
        × (header_of runner_host_header reply.headers ≡ r.private_host)
        × Carries q.session_cookie r.current_session_id reply.cookie
  get_resolve_session_found status =
      elim (get_resolve_session-Answers h (broker_service repo s fuel) q w w' reply replied) [
        | inl (r, done, heads, cookie, ok_status) ↦
            let g =
              resolve_session-IsResolved c p fuel q.session_cookie w sound enough fits r w' done in
            (
              g.owner,
              g.at,
              ap (header_of runner_host_header) heads ∙ header_of_runner_host h r ∙ sym g.host,
              subst (Carries q.session_cookie g.owner.current_session_id) (sym cookie)
                  (elim g.origin [
                    | inl (reused, same) ↦
                        carries_none q.session_cookie g.owner.current_session_id r reused
                          (g.owns ∙ same)
                    | inr (created, same) ↦
                        carries_new q.session_cookie g.owner.current_session_id r created
                          (sym g.owns)
                  ]),
            )
        | inr (inl (e, failed, wraps, unavailable)) ↦ absurd (omega (arith, unavailable, status))
        | inr (inr (e, failed, wraps, internal)) ↦ absurd (omega (arith, internal, status))
      ]
    where
      carries_none :
          (old session : Text) (r : ResolveResult)
          → r.created ≡ false
          → session ≡ old
          → Carries old session (session_cookie_of r)
      carries_none old session r reused same = rw reused same

      carries_new :
          (old session : Text) (r : ResolveResult)
          → r.created ≡ true
          → r.session_id ≡ session
          → Carries old session (session_cookie_of r)
      carries_new old session r created same = rw created (same, refl, refl, refl)
