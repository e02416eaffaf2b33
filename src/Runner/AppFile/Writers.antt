-- ===== src/Runner/AppFile/Writers.antt =====
-- The requests that write the handler's file, each into a temporary file of its own.
use bunshin.Prelude.{
  ℕ, zero, suc, ◌≤◌, List, [], ◌∷◌, ◌++◌, append_assoc, some, ◌≡◌, refl, sym, ap, subst, ◌∙◌, inl,
  inr, arith, take, drop, some_inj,
}
use bunshin.Text.{Text}
use bunshin.Runner.AppFile.{get_slot, set_slot, clear_slot, Writer}
use bunshin.Runner.AppFile.Slots.{
  set_slot-eq-some, clear_slot-eq-some, get_slot-set_self, get_slot-set_other, get_slot-clear_other,
}

take-drop : (n : ℕ) (xs : Text) → take n xs ++ drop n xs ≡ xs
take-drop zero xs = refl
take-drop (suc n) [] = refl
take-drop (suc n) (x ∷ xs) = ap (λ ys. x ∷ ys) (take-drop n xs)

-- The request's temporary file holds what it has written of its body.
abbrev pub Holds : (Text → Type 0) → List (ℕ × Text) → ℕ → Writer → Type 0
Holds P temps counter v =
    (t : Text) × (get_slot v.temp temps ≡ some t)
    × (t ++ v.rest ≡ v.body)
    × P v.body
    × (v.temp ≤ counter)

abbrev pub AllHold : (Text → Type 0) → List (ℕ × Text) → ℕ → List (ℕ × Writer) → Type 0
AllHold P temps counter writers =
    (r : ℕ) (v : Writer) → get_slot r writers ≡ some v → Holds P temps counter v

-- No two requests share a temporary file.
abbrev pub AreApart : List (ℕ × Writer) → Type 0
AreApart writers =
    (r q : ℕ) (v u : Writer)
    → get_slot r writers ≡ some v
    → get_slot q writers ≡ some u
    → v.temp ≡ u.temp
    → r ≡ q

pub AreApart-clear :
    (r : ℕ) (writers : List (ℕ × Writer)) → AreApart writers → AreApart (clear_slot r writers)
AreApart-clear r writers h a b v u ha hb =
    h a b v u (clear_slot-eq-some r a v writers ha).1 (clear_slot-eq-some r b u writers hb).1

pub AreApart-set :
    (r : ℕ) (v : Writer) (writers : List (ℕ × Writer))
    → AreApart writers
    → ((q : ℕ) (u : Writer) → get_slot q writers ≡ some u → v.temp ≡ u.temp → r ≡ q)
    → AreApart (set_slot r v writers)
AreApart-set r v writers h new a b x y ha hb same = elim (set_slot-eq-some r a v x writers ha) [
  | inl (ra, vx) ↦ elim (set_slot-eq-some r b v y writers hb) [
    | inl (rb, vy) ↦ sym ra ∙ rb
    | inr (_, now) ↦ sym ra ∙ new b y now (ap (λ (w : Writer). w.temp) vx ∙ same)
  ]
  | inr (_, now) ↦ elim (set_slot-eq-some r b v y writers hb) [
    | inl (rb, vy) ↦ sym (new a x now (ap (λ (w : Writer). w.temp) vy ∙ sym same)) ∙ rb
    | inr (_, also) ↦ h a b x y now also same
  ]
]

module _ (P : Text → Type 0) where
  -- The end of a request, with its temporary file removed.
  pub AllHold-clear :
      (temps : List (ℕ × Text)) (counter r : ℕ) (v : Writer) (writers : List (ℕ × Writer))
      → get_slot r writers ≡ some v
      → AreApart writers
      → AllHold P temps counter writers
      → AllHold P (clear_slot v.temp temps) counter (clear_slot r writers)
  AllHold-clear temps counter r v writers at apart h q u hq =
      let (other, now) = clear_slot-eq-some r q u writers hq in
      let (t, held, split, good, low) = h q u now in
      (
        t,
        get_slot-clear_other v.temp u.temp temps (λ e. other (apart r q v u at now e)) ∙ held,
        split,
        good,
        low,
      )

  pub AllHold-drop :
      (temps : List (ℕ × Text)) (counter r : ℕ) (writers : List (ℕ × Writer))
      → AllHold P temps counter writers
      → AllHold P temps counter (clear_slot r writers)
  AllHold-drop temps counter r writers h q u hq = h q u (clear_slot-eq-some r q u writers hq).1

  -- A new request, with the next temporary file.
  pub AllHold-begin :
      (temps : List (ℕ × Text)) (counter r : ℕ) (v : Writer) (writers : List (ℕ × Writer))
      → v.temp ≡ suc counter
      → v.rest ≡ v.body
      → P v.body
      → AllHold P temps counter writers
      → AllHold P (set_slot (suc counter) [] temps) (suc counter) (set_slot r v writers)
  AllHold-begin temps counter r v writers next whole good h q u hq =
      elim (set_slot-eq-some r q v u writers hq) [
        | inl (_, same) ↦ subst (Holds P (set_slot (suc counter) [] temps) (suc counter)) same (
          [],
          ap (λ n. get_slot n (set_slot (suc counter) [] temps)) next
              ∙ get_slot-set_self (suc counter) [] temps,
          whole,
          good,
          omega (arith, next),
        )
        | inr (_, now) ↦
            let (t, held, split, fine, low) = h q u now in
            (
              t,
              get_slot-set_other (suc counter) u.temp [] temps (λ e. absurd (omega (arith, e, low)))
                  ∙ held,
              split,
              fine,
              omega (arith, low),
            )
      ]

  -- Some more bytes.
  pub AllHold-write :
      (temps : List (ℕ × Text)) (counter r k : ℕ) (v : Writer) (writers : List (ℕ × Writer))
      (text : Text)
      → get_slot r writers ≡ some v
      → get_slot v.temp temps ≡ some text
      → AreApart writers
      → AllHold P temps counter writers
      → AllHold P
          (set_slot v.temp (text ++ take k v.rest) temps)
          counter
          (set_slot r (record v { rest = drop k v.rest }) writers)
  AllHold-write temps counter r k v writers text at held apart h q u hq =
      elim (set_slot-eq-some r q (record v { rest = drop k v.rest }) u writers hq) [
        | inl (_, same) ↦
            let (t, stored, split, good, low) = h r v at in
            let is : text ≡ t = some_inj (sym held ∙ stored) in
            subst (Holds P (set_slot v.temp (text ++ take k v.rest) temps) counter) same (
              text ++ take k v.rest,
              get_slot-set_self v.temp (text ++ take k v.rest) temps,
              append_assoc text (take k v.rest) (drop k v.rest)
                  ∙ ap (λ x. text ++ x) (take-drop k v.rest)
                  ∙ ap (λ x. x ++ v.rest) is
                  ∙ split,
              good,
              low,
            )
        | inr (other, now) ↦
            let (t, stored, split, good, low) = h q u now in
            (
              t,
              get_slot-set_other v.temp u.temp (text ++ take k v.rest) temps
                    (λ e. other (apart r q v u at now e))
                  ∙ stored,
              split,
              good,
              low,
            )
      ]
