-- ===== src/Runner/Identity/Hex.antt =====
-- generateRunnerID: the ids have the form that the broker asks for.
use bunshin.Prelude.{
  ℕ, ◌<◌, ◌*◌, ◌/◌, ◌%◌, true, ◌&&◌, List, [], ◌∷◌, ◌≡◌, refl, subst, arith, All, all, length, ◌==◌,
}
use bunshin.Text.{Text}
use bunshin.Broker.Store.{is_hex, valid_runner_id}
use bunshin.Runner.Identity.{hex_digit, encode_hex, RandRead, value, generate_runner_id}

abbrev pub AreBytes : List ℕ → Type 0
AreBytes = All (λ (b : ℕ). b < 256)

hex_digit-is_hex : (n : ℕ) → n < 16 → is_hex (hex_digit n) ≡ true
hex_digit-is_hex n h = ground arith

length-encode_hex : (bytes : List ℕ) → length (encode_hex bytes) ≡ 2 * length bytes
unfolding encode_hex
length-encode_hex [] = refl
length-encode_hex (b ∷ bytes) = omega (arith, length-encode_hex bytes)

encode_hex-is_hex : (bytes : List ℕ) → AreBytes bytes → all is_hex (encode_hex bytes) ≡ true
unfolding encode_hex
encode_hex-is_hex [] h = refl
encode_hex-is_hex (b ∷ bytes) h =
    rw (hex_digit-is_hex (b / 16) (omega (arith, h.0)), hex_digit-is_hex (b % 16) (omega arith))
      (encode_hex-is_hex bytes h.1)

-- An id that is made of sixteen random bytes is one that the broker takes.
pub generate_runner_id-valid :
    (r : RandRead) (id : Text)
    → length r.buf ≡ 16
    → AreBytes r.buf
    → generate_runner_id r ≡ value id
    → valid_runner_id id ≡ true
unfolding generate_runner_id valid_runner_id
generate_runner_id-valid r id sized bytes e =
    let is : encode_hex r.buf ≡ id = ground arith in
    let long : length (encode_hex r.buf) ≡ 32 = omega (arith, length-encode_hex r.buf, sized) in
    subst (λ s. (length s == 32 && all is_hex s) ≡ true) is
      (rw (long, encode_hex-is_hex r.buf bytes))
