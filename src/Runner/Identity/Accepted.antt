-- ===== src/Runner/Identity/Accepted.antt =====
-- resolveIdentity: what a runner registers under is what the broker takes.
use bunshin.Prelude.{
  true, List, [], some, ◌≡◌, refl, sym, ap, subst, ◌∙◌, ◌≢◌, ◌⊎◌, inl, inr, arith, Option-cases,
  length,
}
use bunshin.Text.{lit}
use bunshin.Broker.Store.{valid_runner_id}
use bunshin.Runner.Identity.{
  Addr, Identity, IdentityDeps, Result, value, failure, generate_runner_id, first_ipv4,
  private_host_from_pod_ip, resolve_private_host, resolve_identity, stack_asia_northeast1,
  stack_asia_northeast2, ◌>>=◌,
}
use bunshin.Runner.Identity.Hex.{AreBytes, generate_runner_id-valid}
use bunshin.Runner.Identity.PodIp.{IsFirst, AfterScan, first_ipv4-AfterScan, first_ipv4-ne-nil}

bind-eq-value :
    {A B : Type 0} (m : Result A) (f : A → Result B) {b : B}
    → (m >>= f) ≡ value b
    → (a : A) × (m ≡ value a) × (f a ≡ value b)
bind-eq-value (value a) f e = (a, refl, e)
bind-eq-value (failure x) f e = cc

value_inj : {A : Type 0} {a b : A} → value a ≡ value b → a ≡ b
value_inj e = cc

module _ (deps : IdentityDeps) where
  resolve_identity-parts :
      (i : Identity)
      → resolve_identity deps ≡ value i
      → (generate_runner_id deps.rand_read ≡ value i.runner_id)
        × (resolve_private_host deps ≡ value i.private_host)
  unfolding resolve_identity
  resolve_identity-parts i e =
      let (id, made, rest) = bind-eq-value (generate_runner_id deps.rand_read) _ e in
      let (host, found, whole) = bind-eq-value (resolve_private_host deps) _ rest in
      (
        made ∙ ap (λ x. value x) (ap (λ (j : Identity). j.runner_id) (value_inj whole)),
        found ∙ ap (λ x. value x) (ap (λ (j : Identity). j.private_host) (value_inj whole)),
      )

  -- The stacks whose runners are pods.
  resolve_on_pods :
      (deps.getenv (lit "STACK_NAME") ≡ stack_asia_northeast1)
        ⊎ (deps.getenv (lit "STACK_NAME") ≡ stack_asia_northeast2)
      → resolve_private_host deps ≡ private_host_from_pod_ip deps
  unfolding resolve_private_host
  resolve_on_pods (inl e) = rw e
  resolve_on_pods (inr e) = rw e

  -- What a pod registers under.
  pub record IsPodIdentity (i : Identity) : Type 0 where
    pub valid : valid_runner_id i.runner_id ≡ true
    pub named : i.private_host ≢ []
    pub addrs : List Addr
    pub seen : deps.interface_addrs ≡ some addrs
    pub first : IsFirst addrs i.private_host

  -- Where the random source filled the sixteen bytes of its buffer and STACK_NAME is one of the two
  -- GKE stacks: an identity that resolveIdentity returns has an id and a host that the broker's
  -- Register does not refuse, and the host is the first address of the interfaces, in their order,
  -- that is IPv4 and not a loopback, in dotted decimal form.
  pub resolve_identity-IsPodIdentity :
      (i : Identity)
      → length deps.rand_read.buf ≡ 16
      → AreBytes deps.rand_read.buf
      → (deps.getenv (lit "STACK_NAME") ≡ stack_asia_northeast1)
        ⊎ (deps.getenv (lit "STACK_NAME") ≡ stack_asia_northeast2)
      → resolve_identity deps ≡ value i
      → IsPodIdentity i
  unfolding private_host_from_pod_ip
  resolve_identity-IsPodIdentity i sized bytes pods e =
      let (made, found) = resolve_identity-parts i e in
      let at = sym (resolve_on_pods pods) ∙ found in
      elim (Option-cases deps.interface_addrs) [
        | inl missing ↦ absurd (ground arith)
        | inr (addrs, seen) ↦
            let scanned : first_ipv4 addrs ≡ value i.private_host = ground arith in
            record {
              valid = generate_runner_id-valid deps.rand_read i.runner_id sized bytes made;
              named = first_ipv4-ne-nil addrs i.private_host scanned;
              addrs = addrs;
              seen = seen;
              first = subst (AfterScan addrs) scanned (first_ipv4-AfterScan addrs);
            }
      ]
