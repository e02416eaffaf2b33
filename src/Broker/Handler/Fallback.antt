-- ===== src/Broker/Handler/Fallback.antt =====
-- The chain of stacks that fallback signals lead through.
use bunshin.Prelude.{
  ℕ, zero, suc, ◌≤◌, List, [], ◌∷◌, ◌≡◌, refl, ap, arith, All, length, if◌then◌else◌, is_empty,
}
use bunshin.Text.{Text, text_eq, split, trim_space}
use bunshin.Broker.Stacklist.{split_names}
use bunshin.Broker.Stacklist.Rotation.{IsName, split_names-join}
use bunshin.Broker.Handler.{Handler, fallback_pool, fallback_headers, signal_fallback}
use bunshin.Broker.Http.{Request, fallback_stack_header, fallback_remaining_header}

-- A header's value, "" for a missing one.
abbrev pub header_of : Text → List (Text × Text) → Text
header_of name [] = []
header_of name ((key, value) ∷ headers) = if text_eq key name then value else header_of name headers

-- The request as it is forwarded to the next stack, with the headers of the signal.
abbrev pub forwarded : Request → List (Text × Text) → Request
forwarded q headers = record q {
  fallback_stack = header_of fallback_stack_header headers;
  fallback_remaining = header_of fallback_remaining_header headers;
}

-- The stacks that a request is forwarded to, in order, when each answers that none is idle.
unfoldable pub visits : (Text → Handler) → ℕ → Handler → Request → List Text
visits handler_of zero h q = []
visits handler_of (suc fuel) h q =
    let headers = signal_fallback h q in
    let first = header_of fallback_stack_header headers in
    if is_empty first
    then []
    else first ∷ visits handler_of fuel (handler_of first) (forwarded q headers)

module _ (handler_of : Text → Handler) where
  visits_more :
      (fuel : ℕ) (h : Handler) (q : Request) (c : ℕ) (first : Text) (pool : List Text)
      → signal_fallback h q ≡ fallback_headers ((c ∷ first) ∷ pool)
      → visits handler_of fuel
          (handler_of (c ∷ first))
          (forwarded q (fallback_headers ((c ∷ first) ∷ pool)))
        ≡ pool
      → visits handler_of (suc fuel) h q ≡ (c ∷ first) ∷ pool
  unfolding visits fallback_headers
  visits_more fuel h q c first [] e rest = rw (e, visits) (ap (◌∷◌ (c ∷ first)) rest)
  visits_more fuel h q c first (second ∷ pool) e rest = rw (e, visits) (ap (◌∷◌ (c ∷ first)) rest)

  pool_of_forwarded :
      (h : Handler) (q : Request) (c : ℕ) (first : Text) (pool : List Text)
      → All IsName pool
      → fallback_pool h (forwarded q (fallback_headers ((c ∷ first) ∷ pool))) ≡ pool
  unfolding fallback_pool fallback_headers split_names split trim_space
  pool_of_forwarded h q c first [] names = refl
  pool_of_forwarded h q c first (second ∷ pool) names = split_names-join (second ∷ pool) names

  -- A request whose pool is a list of names is forwarded to each of them once, in their order, and
  -- then to none, whatever fallbacks those stacks are configured with.
  pub visits_pool :
      (pool : List Text) (fuel : ℕ) (h : Handler) (q : Request)
      → All IsName pool
      → length pool ≤ fuel
      → fallback_pool h q ≡ pool
      → visits handler_of fuel h q ≡ pool
  unfolding visits signal_fallback fallback_headers
  visits_pool [] zero h q names enough e = refl
  visits_pool [] (suc fuel) h q names enough e = rw (e, visits) refl
  visits_pool (first ∷ pool) zero h q names enough e = absurd (omega arith)
  visits_pool ([] ∷ pool) (suc fuel) h q names enough e = absurd (names.0.filled refl)
  visits_pool ((c ∷ first) ∷ pool) (suc fuel) h q names enough e =
      visits_more fuel h q c first pool (ap fallback_headers e) (
        visits_pool pool fuel (handler_of (c ∷ first)) _ names.1 (omega arith)
          (pool_of_forwarded (handler_of (c ∷ first)) q c first pool names.1))
