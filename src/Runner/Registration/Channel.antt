-- ===== src/Runner/Registration/Channel.antt =====
-- A post to the broker's POST /internal/runners/register over a network that may lose it or its
-- reply.
use bunshin.Prelude.{
  ℕ, true, false, Option, none, some, ◌≡◌, refl, sym, ap, subst, ◌∙◌, inl, inr, arith, Bool-cases,
  ◌==◌,
}
use bunshin.Text.{Text}
use bunshin.Outcome.{Outcome, ok, err, diverged, ok_injective, ended, with_ok, with_err, never}
use bunshin.Broker.Service.{ServiceError}
use bunshin.Broker.Http.{Request, Reply, just_status}
use bunshin.Broker.Handler.{
  Handler, Service, post_register, register_bound, register_checked, register_failed,
  validate_runner_host, wraps_conflict,
}
use bunshin.Runner.Registration.{PostRequest, is_created}

-- What becomes of a post.
pub data Fate : Type 0 where
  request_lost reply_lost delivered : Fate

-- What comes of a post with its fate, from what the broker makes of it.
unfoldable pub after_fate : {W : Type 0} → Fate → Option ℕ × W → W → Option ℕ × W
after_fate request_lost (status, w') w = (none, w)
after_fate reply_lost (status, w') w = (none, w')
after_fate delivered (status, w') w = (status, w')

module _ {W : Type 0} (h : Handler) (svc : Service W) (receive : PostRequest → Request) where
  unfoldable pub served : PostRequest → W → Option ℕ × W
  served p w = elim (post_register h svc (receive p) w) [
    | ok reply w' ↦ (some reply.status, w')
    | err e w' ↦ absurd e
    | diverged ↦ (none, w)
  ]

  -- httpPost to the broker.
  unfoldable pub post_to_broker : (W → Fate) → PostRequest → W → Option ℕ × W
  unfolding served after_fate
  post_to_broker fate p w = after_fate (fate w) (served p w) w

-- Two replies that are the same have the same status, in the same state.
same_reply :
    {W E : Type 0} (x reply : Reply) (w w' : W)
    → ◌≡◌ {A = Outcome W E Reply} (ok x w) (ok reply w')
    → (x.status ≡ reply.status) × (w ≡ w')
same_reply x reply w w' e =
    let (same, at) = ok_injective {a = x} e in (ap (λ (r : Reply). r.status) same, at)

not_created : (n m : ℕ) → n ≡ m → (m == 201) ≡ true → (n == 201) ≡ false → ⊥
not_created n m e h k = ground arith

register_failed-status :
    (q : Request) (x : ServiceError) → ((register_failed q x).status == 201) ≡ false
register_failed-status q x = elim (Bool-cases (wraps_conflict x)) [
  | inl conflicts ↦ rw conflicts refl
  | inr other ↦ rw other refl
]

checked-created :
    {W : Type 0} (h : Handler) (svc : Service W) (q : Request) (id host : Text)
    (refused : Option Text) (w w' : W) (reply : Reply)
    → register_checked h svc q id host refused w ≡ ok reply w'
    → (reply.status == 201) ≡ true
    → svc.register_runner id host w ≡ ok tt w'
unfolding register_checked
checked-created h svc q id host (some why) w w' reply e made =
    absurd (not_created 400 reply.status (same_reply _ reply w w' e).0 made refl)
checked-created h svc q id host none w w' reply e made =
    elim (ended (svc.register_runner id host w)) [
      | never p ↦ absurd (ground arith)
      | with_ok a u p ↦
          p
          ∙ ap (λ x. ok tt x)
              (same_reply (just_status 201) reply u w' (sym (rw (p, register_checked) refl) ∙ e)).1
      | with_err x u p ↦ absurd (
          not_created (register_failed q x).status reply.status
            (same_reply (register_failed q x) reply u w'
              (sym (rw (p, register_checked) refl) ∙ e)).0
            made (register_failed-status q x))
    ]

-- The service's answer for the id and the host of a request.
served-created :
    {W : Type 0} (h : Handler) (svc : Service W) (q : Request) (id host : Text) (w w' : W)
    (reply : Reply)
    → q.register_body ≡ some (id, host)
    → post_register h svc q w ≡ ok reply w'
    → (reply.status == 201) ≡ true
    → svc.register_runner id host w ≡ ok tt w'
unfolding post_register register_bound
served-created h svc q id host w w' reply bound e made =
    checked-created h svc q id host (validate_runner_host host) w w' reply
      (sym (ap (λ b. register_bound h svc q b w) bound) ∙ e) made

module _ {W : Type 0} (h : Handler) (svc : Service W) (receive : PostRequest → Request)
    (p : PostRequest) (id host : Text) (bound : (receive p).register_body ≡ some (id, host))
    (w : W) where
  served-registered :
      is_created (served h svc receive p w).0 ≡ true
      → svc.register_runner id host w ≡ ok tt (served h svc receive p w).1
  unfolding served
  served-registered made = elim (ended (post_register h svc (receive p) w)) [
    | never q ↦ absurd (ground arith)
    | with_err e u q ↦ absurd e
    | with_ok reply u q ↦
        rw (q, served) (served-created h svc (receive p) id host w u reply bound q (ground arith))
  ]

  pub fate-registered :
      (f : Fate)
      → is_created (after_fate f (served h svc receive p w) w).0 ≡ true
      → svc.register_runner id host w ≡ ok tt (after_fate f (served h svc receive p w) w).1
  unfolding after_fate
  fate-registered request_lost made = cc
  fate-registered reply_lost made = cc
  fate-registered delivered made = served-registered made

  -- A post leads to where the registration does, or nowhere.
  module _ (P : W → Type 0) (here : P w)
      (there : (e : ServiceError) (u : W) → svc.register_runner id host w ≡ err e u → P u)
      (made : (u : W) → svc.register_runner id host w ≡ ok tt u → P u) where
    checked-leads :
        (refused : Option Text) (reply : Reply) (w' : W)
        → register_checked h svc (receive p) id host refused w ≡ ok reply w'
        → P w'
    unfolding register_checked
    checked-leads (some why) reply w' e = subst P (same_reply _ reply w w' e).1 here
    checked-leads none reply w' e = elim (ended (svc.register_runner id host w)) [
      | never q ↦ absurd (ground arith)
      | with_ok a u q ↦
          subst P
            (same_reply (just_status 201) reply u w' (sym (rw (q, register_checked) refl) ∙ e)).1
            (made u q)
      | with_err x u q ↦
          subst P
            (same_reply (register_failed (receive p) x) reply u w'
              (sym (rw (q, register_checked) refl) ∙ e)).1
            (there x u q)
    ]

    served-leads : P (served h svc receive p w).1
    unfolding served post_register register_bound
    served-leads = elim (ended (post_register h svc (receive p) w)) [
      | never q ↦ rw (q, served) here
      | with_err e u q ↦ absurd e
      | with_ok reply u q ↦
          rw (q, served)
            (checked-leads (validate_runner_host host) reply u
              (sym (ap (λ b. register_bound h svc (receive p) b w) bound) ∙ q))
    ]

    pub fate-leads : (f : Fate) → P (after_fate f (served h svc receive p w) w).1
    unfolding after_fate
    fate-leads request_lost = here
    fate-leads reply_lost = served-leads
    fate-leads delivered = served-leads
