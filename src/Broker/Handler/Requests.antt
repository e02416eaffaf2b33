-- ===== src/Broker/Handler/Requests.antt =====
-- What the handlers accept of a request.
use bunshin.Prelude.{
  Bool, true, false, ◌&&◌, [], ◌∷◌, ◌++◌, Option, none, some, ◌≡◌, ◌≢◌, ◌↔◌, ◌⊎◌, inl, inr, refl,
  sym, ap, ◌∙◌, arith, if◌then◌else◌, subst, Bool-cases, Option-cases, all, some_inj, length, ◌==◌,
}
use bunshin.Text.{Text, cut}
use bunshin.Text.Laws.{Lacks, cut-append, cut-eq-some}
use bunshin.Outcome.{Outcome, ok_injective, ok, err, diverged, ended, with_ok, with_err, never}
use bunshin.Broker.Store.{is_hex}
use bunshin.Broker.Service.{ServiceError}
use bunshin.Broker.Handler.{
  Service, Handler, is_host_char, validate_runner_host, register_checked, register_bound,
  post_register, extract_session_hex, hex_label, is_session_hex, register_failed, wraps_conflict,
}
use bunshin.Broker.Http.{Request, Reply, just_status}

-- A host that extractSessionHex takes for one of the session.
abbrev pub IsHostOf : Text → Text → Type 0
IsHostOf hex host = (is_session_hex hex ≡ true) × ((rest : Text) × (host ≡ hex ++ (b'.' ∷ rest)))

none-ne-some : {A : Type 0} {a : A} → ◌≡◌ {A = Option A} none (some a) → ⊥
none-ne-some e = cc

and_right : (a b : Bool) → (a && b) ≡ true → b ≡ true
and_right true b h = h
and_right false b h = cc

all_hex-Lacks_dot : (s : Text) → all is_hex s ≡ true → Lacks b'.' s
all_hex-Lacks_dot [] h = tt
all_hex-Lacks_dot (c ∷ s) h = (ground arith, all_hex-Lacks_dot s (ground arith))

-- extractSessionHex accepts a host with the label `hex` if and only if `hex` is 32 lowercase hex
-- characters and the host is `hex`, a dot, and any rest.
pub extract_session_hex_iff :
    (host hex : Text) → (extract_session_hex host ≡ some hex) ↔ IsHostOf hex host
unfolding extract_session_hex
extract_session_hex_iff host hex = (
  λ e. elim (Option-cases (cut b'.' host)) [
    | inl missing ↦ absurd (none-ne-some (sym (ap hex_label missing) ∙ e))
    | inr ((label, rest), found) ↦ elim (Bool-cases (is_session_hex label)) [
      | inr no_hex ↦ absurd (none-ne-some (sym (ap hex_label found ∙ rw no_hex refl) ∙ e))
      | inl is_label ↦
          let same : label ≡ hex = some_inj (sym (ap hex_label found ∙ rw is_label refl) ∙ e) in
          subst (λ x. IsHostOf x host) same
            (is_label, (rest, (cut-eq-some b'.' host label rest found).0))
    ]
  ],
  λ (is_label, (rest, e)).
      ap (λ x. hex_label (cut b'.' x)) e
      ∙ ap hex_label (
          cut-append b'.' hex rest
            (all_hex-Lacks_dot hex (and_right (length hex == 32) (all is_hex hex) is_label)))
      ∙ rw is_label refl,
)

-- What a reply to PostRegister has established.
abbrev pub Registers : {W : Type 0} → Service W → Request → W → W → Reply → Type 0
Registers svc q w w' reply =
    ((reply.status ≡ 400) × (w ≡ w'))
    ⊎ ((runner_id : Text) × (private_host : Text) × (q.register_body
          ≡ some (runner_id, private_host))
        × (private_host ≢ [])
        × (all is_host_char private_host ≡ true)
        × (((reply.status ≡ 201) × (svc.register_runner runner_id private_host w ≡ ok tt w'))
            ⊎ ((e : ServiceError) × (svc.register_runner runner_id private_host w ≡ err e w')
                × (reply.status ≡ (if wraps_conflict e then 409 else 500)))))

validate_runner_host-none :
    (host : Text) → validate_runner_host host ≡ none → (host ≢ []) × (all is_host_char host ≡ true)
unfolding validate_runner_host
validate_runner_host-none [] h = cc
validate_runner_host-none (c ∷ host) h = (λ e. cc, ground arith)

diverged-ne-ok : {W E A : Type 0} {a : A} {w : W} → ◌≡◌ {A = Outcome W E A} diverged (ok a w) → ⊥
diverged-ne-ok e = cc

register_failed_status :
    (q : Request) (e : ServiceError)
    → (register_failed q e).status ≡ (if wraps_conflict e then 409 else 500)
register_failed_status q e = elim (Bool-cases (wraps_conflict e)) [
  | inl clash ↦ rw clash refl
  | inr other ↦ rw other refl
]

module _ {W : Type 0} (h : Handler) (svc : Service W) (q : Request) (w w' : W) (reply : Reply) where
  register_checked-Registers :
      (runner_id private_host : Text) (why : Option Text)
      → q.register_body ≡ some (runner_id, private_host)
      → validate_runner_host private_host ≡ why
      → register_checked h svc q runner_id private_host why w ≡ ok reply w'
      → Registers svc q w w' reply
  unfolding register_checked
  register_checked-Registers runner_id private_host (some why) bound checked e =
      let (same, same_w) = ok_injective e in inl (ap (λ (x : Reply). x.status) (sym same), same_w)
  register_checked-Registers runner_id private_host none bound checked e =
      let (filled, hostname) = validate_runner_host-none private_host checked in
      inr (
        runner_id,
        private_host,
        bound,
        filled,
        hostname,
        elim (ended (svc.register_runner runner_id private_host w)) [
          | never p ↦ absurd (diverged-ne-ok (sym (rw (p, register_checked) refl) ∙ e))
          | with_ok _ w₁ p ↦
              let (same, same_w) =
                ok_injective {a = just_status 201} (sym (rw (p, register_checked) refl) ∙ e) in
              inl (ap (λ (x : Reply). x.status) (sym same), p ∙ ap (ok tt) same_w)
          | with_err x w₁ p ↦
              let (same, same_w) =
                ok_injective {a = register_failed q x} (sym (rw (p, register_checked) refl) ∙ e) in
              inr (
                x,
                p ∙ ap (err x) same_w,
                ap (λ (y : Reply). y.status) (sym same) ∙ register_failed_status q x,
              )
        ],
      )

  register_bound-Registers :
      (body : Option (Text × Text))
      → q.register_body ≡ body
      → register_bound h svc q body w ≡ ok reply w'
      → Registers svc q w w' reply
  unfolding register_bound
  register_bound-Registers none bound e =
      let (same, same_w) = ok_injective e in inl (ap (λ (x : Reply). x.status) (sym same), same_w)
  register_bound-Registers (some (runner_id, private_host)) bound e =
      register_checked-Registers runner_id private_host (validate_runner_host private_host) bound
        refl e

-- PostRegister replies 400 and leaves the state alone, or the body has been bound to an id and a
-- host, the host is not empty and has only letters, digits, '.' and '-', and the reply is 201 when
-- the service has registered the runner, 409 when it reports a conflict, and 500 otherwise.
pub post_register-Registers :
    {W : Type 0} (h : Handler) (svc : Service W) (q : Request) (w w' : W) (reply : Reply)
    → post_register h svc q w ≡ ok reply w'
    → Registers svc q w w' reply
unfolding post_register
post_register-Registers h svc q w w' reply e =
    register_bound-Registers h svc q w w' reply q.register_body refl e
