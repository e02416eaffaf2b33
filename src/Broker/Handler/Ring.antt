-- ===== src/Broker/Handler/Ring.antt =====
-- The chain of fallbacks from a stack that is configured from its environment.
use bunshin.Prelude.{
  ℕ, ◌≤◌, Bool, true, false, List, [], ◌∷◌, ◌++◌, ◌≡◌, ◌≢◌, refl, sym, ap, ◌∙◌, All, All-append,
  length, is_empty, subst, Bool-cases, inl, inr,
}
use bunshin.Text.{Text, lit, trim_space}
use bunshin.Broker.Stacklist.{split_names, parse}
use bunshin.Broker.Stacklist.Rotation.{IsName, split_names-IsName, parse_rotates}
use bunshin.Broker.Config.{
  ConfigError, missing, StackConfig, Setting, configured, refused, listed_config, named_config,
  new_stack_from_env,
}
use bunshin.Broker.Handler.{Handler, fallback_pool}
use bunshin.Broker.Http.{Request}
use bunshin.Broker.Handler.Fallback.{visits, visits_pool}

record Configures (name raw : Text) (cfg : StackConfig) : Type 0 where
  pub self : cfg.self ≡ trim_space name
  pub named : cfg.self ≢ []
  pub parsed : parse raw cfg.self ≡ (cfg.fallbacks, true)

listed_config-Configures :
    (self raw : Text) (result : List Text × Bool) (cfg : StackConfig)
    → listed_config self raw result ≡ configured cfg
    → (cfg.self ≡ self) × (result ≡ (cfg.fallbacks, true))
listed_config-Configures self raw (fallbacks, false) cfg e = cc
listed_config-Configures self raw (fallbacks, true) cfg e =
    let same : record { self = self; fallbacks = fallbacks } ≡ cfg = cc in
    (
      ap (λ (x : StackConfig). x.self) (sym same),
      ap (λ (x : StackConfig). (x.fallbacks, true)) same,
    )

named_config-Configures :
    (name self raw : Text) (cfg : StackConfig)
    → self ≡ trim_space name
    → named_config self raw ≡ configured cfg
    → Configures name raw cfg
named_config-Configures name [] raw cfg s e = cc
named_config-Configures name (c ∷ self) raw cfg s e =
    elim (Bool-cases (is_empty (trim_space raw))) [
      | inl blank ↦
          absurd
            (refused-ne-configured {e = missing (lit "BUNSHIN_STACKS")} (sym (rw blank refl) ∙ e))
      | inr filled ↦
          let (same, parsed) =
            listed_config-Configures (c ∷ self) raw (parse raw (c ∷ self)) cfg
              (sym (rw filled refl) ∙ e) in
          record {
            self = same ∙ s;
            named = λ h. cons-ne-nil (sym same ∙ h);
            parsed = ap (parse raw) same ∙ parsed;
          }
    ]
  where
    cons-ne-nil : {c : ℕ} {s : Text} → ◌≡◌ {A = Text} (c ∷ s) [] → ⊥
    cons-ne-nil e = cc

    refused-ne-configured :
        {e : ConfigError} {cfg : StackConfig}
        → ◌≡◌ {A = Setting StackConfig} (refused e) (configured cfg)
        → ⊥
    refused-ne-configured e = cc

All-left : (P : Text → Type 0) (xs ys : List Text) → All P (xs ++ ys) → All P xs
All-left P [] ys h = tt
All-left P (x ∷ xs) ys h = (h.0, All-left P xs ys h.1)

All-right : (P : Text → Type 0) (xs ys : List Text) → All P (xs ++ ys) → All P ys
All-right P [] ys h = h
All-right P (x ∷ xs) ys h = All-right P xs ys h.1

-- If the settings are accepted and the list names the own stack exactly once, a request that no
-- stack has forwarded yet goes from there to the stacks listed after the own one and then to those
-- listed before it, once each, whatever fallbacks those stacks are configured with.
pub visits_ring :
    (handler_of : Text → Handler) (name raw : Text) (cfg : StackConfig) (before after : List Text)
    (fuel : ℕ) (h : Handler) (q : Request)
    → new_stack_from_env name raw ≡ configured cfg
    → split_names raw ≡ before ++ (cfg.self ∷ after)
    → All (λ x. x ≢ cfg.self) before
    → All (λ x. x ≢ cfg.self) after
    → h.fallback_stacks ≡ cfg.fallbacks
    → q.fallback_stack ≡ []
    → length (after ++ before) ≤ fuel
    → visits handler_of fuel h q ≡ after ++ before
unfolding new_stack_from_env fallback_pool
visits_ring handler_of name raw cfg before after fuel h q accepted listed fresh once stacks direct
      enough =
    let k = named_config-Configures name (trim_space name) raw cfg refl accepted in
    let ring : cfg.fallbacks ≡ after ++ before =
      ap (λ (x : List Text × Bool). x.0)
        (sym k.parsed ∙ parse_rotates raw cfg.self before after listed fresh once) in
    let names = subst (All IsName) listed (split_names-IsName raw) in
    visits_pool handler_of (after ++ before) fuel h q
      (All-append IsName after before (All-right IsName before (cfg.self ∷ after) names).1
        (All-left IsName before (cfg.self ∷ after) names))
      enough (rw direct (stacks ∙ ring))
