-- ===== src/Text/Numbers.antt =====
-- strconv.Atoi on 64-bit machines.
use bunshin.Prelude.{
  zero, suc, ℕ, ◌+◌, Bool, ◌&&◌, [], ◌∷◌, Option, none, some, leb, ltb, ◌==◌, if◌then◌else◌,
}
use bunshin.Text.{Text}
use Prim.Native.Nat.{◌*◌, ◌-◌}

-- An int: `negsuc n` is -(n + 1).
pub data ℤ : Type 0 where
  pos negsuc : ℕ → ℤ

abbrev is_digit : ℕ → Bool
is_digit c = leb b'0' c && leb c b'9'

-- The value of the digits behind those that have the value `n`.
unfoldable pub digits_from : ℕ → Text → Option ℕ
digits_from n [] = some n
digits_from n (c ∷ s) =
    let rest = digits_from (n * 10 + (c - b'0')) s in if is_digit c then rest else none

unfoldable pub digits : Text → Option ℕ
unfolding digits_from
digits [] = none
digits (c ∷ s) = digits_from 0 (c ∷ s)

abbrev pub negated : ℕ → ℤ
negated zero = pos 0
negated (suc n) = negsuc n

abbrev pub below : ℕ → (ℕ → ℤ) → Option ℕ → Option ℤ
below limit sign none = none
below limit sign (some n) = if ltb n limit then some (sign n) else none

-- strconv.Atoi; `none` is its error.
unfoldable pub atoi : Text → Option ℤ
unfolding digits
atoi [] = none
atoi (c ∷ s) =
    if c == b'-'
    then below 9223372036854775809 negated (digits s)
    else if c == b'+'
    then below 9223372036854775808 pos (digits s)
    else below 9223372036854775808 pos (digits (c ∷ s))
