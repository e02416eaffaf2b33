-- ===== src/Broker/HealthCheck/Port.antt =====
-- The URL of a health check: its port is the number that the settings gave.
use bunshin.Prelude.{
  ℕ, zero, suc, ◌+◌, ◌*◌, ◌-◌, ◌/◌, ◌%◌, ◌<◌, [], ◌∷◌, some, ◌≡◌, refl, ap, ◌∙◌, ◌≢◌, inl, inr,
  arith, Bool-cases, ltb,
}
use bunshin.Text.{Text}
use bunshin.Text.Numbers.{digits, digits_from}
use bunshin.Broker.HealthCheck.{decimal, decimal_before}

digits_from-digit :
    (m d : ℕ) (s : Text) → d < 10 → digits_from m ((d + 48) ∷ s) ≡ digits_from (m * 10 + d) s
unfolding digits_from
digits_from-digit m d s h =
    let value : m * 10 + (d + 48 - 48) ≡ m * 10 + d = omega arith in
    ground (arith, ap (λ k. digits_from k s) value)

digits_from-decimal_before :
    (fuel n : ℕ) (s : Text) → n < fuel → digits_from 0 (decimal_before fuel n s) ≡ digits_from n s
unfolding decimal_before digits_from
digits_from-decimal_before zero n s h = elim h [ ]
digits_from-decimal_before (suc fuel) n s h = elim (Bool-cases (ltb n 10)) [
  | inl one ↦
      rw (one, decimal_before)
        (digits_from-digit 0 (n % 10) s (omega arith) ∙ ap (λ k. digits_from k s) (ground arith))
  | inr many ↦
      rw (many, decimal_before)
        (digits_from-decimal_before fuel (n / 10) ((n % 10 + 48) ∷ s) (ground arith)
          ∙ digits_from-digit (n / 10) (n % 10) s (omega arith)
          ∙ ap (λ k. digits_from k s) (omega arith))
]

decimal_before-ne-nil : (fuel n c : ℕ) (s : Text) → decimal_before fuel n (c ∷ s) ≢ []
unfolding decimal_before
decimal_before-ne-nil zero n c s e = cc
decimal_before-ne-nil (suc fuel) n c s e = elim (Bool-cases (ltb n 10)) [
  | inl one ↦ ground arith
  | inr many ↦ decimal_before-ne-nil fuel (n / 10) (n % 10 + 48) (c ∷ s) (ground arith)
]

digits-digits_from : (s : Text) → s ≢ [] → digits s ≡ digits_from 0 s
unfolding digits
digits-digits_from [] h = absurd (h refl)
digits-digits_from (c ∷ s) h = refl

decimal-ne-nil : (n : ℕ) → decimal n ≢ []
unfolding decimal decimal_before
decimal-ne-nil n e = elim (Bool-cases (ltb n 10)) [
  | inl one ↦ ground arith
  | inr many ↦ decimal_before-ne-nil n (n / 10) (n % 10 + 48) [] (ground arith)
]

-- The decimal form of a number is read back as that number.
pub digits-decimal : (n : ℕ) → digits (decimal n) ≡ some n
unfolding digits_from
digits-decimal n =
    digits-digits_from (decimal n) (decimal-ne-nil n)
    ∙ unfold decimal in digits_from-decimal_before (suc n) n [] (omega arith)
