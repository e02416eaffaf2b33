-- ===== src/Runner/Identity/PodIp.antt =====
-- privateHostFromPodIP: the first address that is IPv4 and not a loopback.
use bunshin.Prelude.{
  ℕ, zero, suc, ◌-◌, true, false, List, [], ◌∷◌, ◌++◌, none, some, ◌≡◌, refl, sym, ap, subst, ◌∙◌,
  ◌≢◌, ◌⊎◌, inl, inr, arith, All, Bool-cases, Option-cases, length, drop,
}
use bunshin.Text.{Text}
use bunshin.Runner.Identity.{
  Ip, Addr, ip_net, other_addr, Result, value, failure, no_pod_address, to4, is_loopback, decimal,
  dotted, first_ipv4,
}

-- The addresses that the loop passes over.
abbrev pub IsSkipped : Addr → Type 0
IsSkipped (other_addr n) = Unit
IsSkipped (ip_net ip) = (is_loopback ip ≡ true) ⊎ (to4 ip ≡ none)

-- The address that the loop stops at.
pub record IsFirst (addrs : List Addr) (s : Text) : Type 0 where
  pub before : List Addr
  pub ip : Ip
  pub ip4 : Ip
  pub after : List Addr
  pub split : addrs ≡ before ++ (ip_net ip ∷ after)
  pub skipped : All IsSkipped before
  pub outside : is_loopback ip ≡ false
  pub four : to4 ip ≡ some ip4
  pub written : s ≡ dotted ip4

abbrev pub AfterScan : List Addr → Result Text → Type 0
AfterScan addrs (value s) = IsFirst addrs s
AfterScan addrs (failure e) = (e ≡ no_pod_address) × All IsSkipped addrs

AfterScan-cons :
    (addr : Addr) (addrs : List Addr) (o : Result Text)
    → IsSkipped addr
    → AfterScan addrs o
    → AfterScan (addr ∷ addrs) o
AfterScan-cons addr addrs (value s) h a = record {
  before = addr ∷ a.before;
  ip = a.ip;
  ip4 = a.ip4;
  after = a.after;
  split = ap (λ xs. addr ∷ xs) a.split;
  skipped = (h, a.skipped);
  outside = a.outside;
  four = a.four;
  written = a.written;
}
AfterScan-cons addr addrs (failure e) h a = (a.0, (h, a.1))

pub first_ipv4-AfterScan : (addrs : List Addr) → AfterScan addrs (first_ipv4 addrs)
unfolding first_ipv4
first_ipv4-AfterScan [] = (refl, tt)
first_ipv4-AfterScan (other_addr n ∷ addrs) =
    AfterScan-cons (other_addr n) addrs _ tt (first_ipv4-AfterScan addrs)
first_ipv4-AfterScan (ip_net ip ∷ addrs) = elim (Bool-cases (is_loopback ip)) [
  | inl loop ↦
      rw (loop, first_ipv4)
        (AfterScan-cons (ip_net ip) addrs _ (inl loop) (first_ipv4-AfterScan addrs))
  | inr outside ↦ elim (Option-cases (to4 ip)) [
    | inl six ↦
        rw (outside, six, first_ipv4)
          (AfterScan-cons (ip_net ip) addrs _ (inr six) (first_ipv4-AfterScan addrs))
    | inr (ip4, four) ↦
        rw (outside, four, first_ipv4)
          (record {
            before = [];
            ip = ip;
            ip4 = ip4;
            after = addrs;
            split = refl;
            skipped = tt;
            outside = outside;
            four = four;
            written = refl;
          })
  ]
]

length-drop : (n : ℕ) (xs : Ip) → length (drop n xs) ≡ length xs - n
length-drop zero xs = omega arith
length-drop (suc n) [] = omega arith
length-drop (suc n) (x ∷ xs) = omega (arith, length-drop n xs)

to4-length : (ip ip4 : Ip) → to4 ip ≡ some ip4 → length ip4 ≡ 4
unfolding to4
to4-length ip ip4 e = ground (arith, length-drop 12 ip)

dotted-ne-nil : (ip : Ip) → length ip ≡ 4 → dotted ip ≢ []
unfolding dotted decimal
dotted-ne-nil [] h e = absurd (omega (arith, h))
dotted-ne-nil (b ∷ []) h e = absurd (omega (arith, h))
dotted-ne-nil (b ∷ (c ∷ ip)) h e = ground arith

-- The host is not empty.
pub first_ipv4-ne-nil : (addrs : List Addr) (s : Text) → first_ipv4 addrs ≡ value s → s ≢ []
first_ipv4-ne-nil addrs s e empty =
    let first = subst (AfterScan addrs) e (first_ipv4-AfterScan addrs) in
    dotted-ne-nil first.ip4 (to4-length first.ip first.ip4 first.four) (sym first.written ∙ empty)
