-- ===== src/Text/Laws.antt =====
-- The laws of the string functions.
use bunshin.Prelude.{
  Option, none, some_inj, Option-cases, Bool-cases, inl, inr, ==_iff, ◌==◌, subst, ap₂, sym, ℕ,
  true, false, List, [], ◌∷◌, ◌++◌, some, ◌≡◌, refl, ap, ◌∙◌, ◌≢◌, ◌↔◌, arith, All,
}
use bunshin.Text.{Text, text_eq, trim_left, trim_right, trim_space, split, join, cut}

pub text_eq_refl : (s : Text) → text_eq s s ≡ true
text_eq_refl [] = refl
text_eq_refl (c ∷ s) = ground (arith, text_eq_refl s)

eq-of-text_eq : (s t : Text) → text_eq s t ≡ true → s ≡ t
eq-of-text_eq [] [] h = refl
eq-of-text_eq [] (d ∷ t) h = cc
eq-of-text_eq (c ∷ s) [] h = cc
eq-of-text_eq (c ∷ s) (d ∷ t) h = ground (arith, eq-of-text_eq s t)

pub text_eq_iff : (s t : Text) → (text_eq s t ≡ true) ↔ (s ≡ t)
text_eq_iff s t = (eq-of-text_eq s t, λ e. subst' e)
  where
    subst' : s ≡ t → text_eq s t ≡ true
    subst' e = cc (text_eq_refl s, e)

-- No character of the text is `sep`.
abbrev pub Lacks : ℕ → Text → Type 0
Lacks sep = All (λ c. c ≢ sep)

pub cut-append :
    (sep : ℕ) (before after : Text)
    → Lacks sep before
    → cut sep (before ++ (sep ∷ after)) ≡ some (before, after)
unfolding cut
cut-append sep [] after h = ground arith
cut-append sep (c ∷ before) after h = rw (cut-append sep before after h.1) (ground arith)

split-append :
    (sep : ℕ) (part rest : Text)
    → Lacks sep part
    → split sep (part ++ (sep ∷ rest)) ≡ part ∷ split sep rest
unfolding split
split-append sep [] rest h = ground arith
split-append sep (c ∷ part) rest h = rw (split-append sep part rest h.1) (ground arith)

split_of_Lacks : (sep : ℕ) (part : Text) → Lacks sep part → split sep part ≡ part ∷ []
unfolding split
split_of_Lacks sep [] h = refl
split_of_Lacks sep (c ∷ part) h = rw (split_of_Lacks sep part h.1) (ground arith)

pub split-join :
    (sep : ℕ) (part : Text) (parts : List Text)
    → All (Lacks sep) (part ∷ parts)
    → split sep (join sep (part ∷ parts)) ≡ part ∷ parts
unfolding join
split-join sep part [] h = split_of_Lacks sep part h.0
split-join sep part (next ∷ parts) h =
    split-append sep part (join sep (next ∷ parts)) h.0
    ∙ ap (◌∷◌ part) (split-join sep next parts h.1)

pub split-Lacks : (sep : ℕ) (s : Text) → All (Lacks sep) (split sep s)
unfolding split
split-Lacks sep [] = (tt, tt)
split-Lacks sep (c ∷ s) = ground (arith, split-Lacks sep s)

trim_left-Lacks : (sep : ℕ) (s : Text) → Lacks sep s → Lacks sep (trim_left s)
unfolding trim_left
trim_left-Lacks sep [] h = tt
trim_left-Lacks sep (c ∷ s) h = ground (arith, trim_left-Lacks sep s)

trim_right-Lacks : (sep : ℕ) (s : Text) → Lacks sep s → Lacks sep (trim_right s)
unfolding trim_right
trim_right-Lacks sep [] h = tt
trim_right-Lacks sep (c ∷ s) h = ground (arith, trim_right-Lacks sep s)

pub trim_space-Lacks : (sep : ℕ) (s : Text) → Lacks sep s → Lacks sep (trim_space s)
unfolding trim_space
trim_space-Lacks sep s h = trim_left-Lacks sep (trim_right s) (trim_right-Lacks sep s h)

trim_left_idem : (s : Text) → trim_left (trim_left s) ≡ trim_left s
unfolding trim_left
trim_left_idem [] = refl
trim_left_idem (c ∷ s) = ground (arith, trim_left_idem s)

trim_right_idem : (s : Text) → trim_right (trim_right s) ≡ trim_right s
unfolding trim_right
trim_right_idem [] = refl
trim_right_idem (c ∷ s) = ground (arith, trim_right_idem s)

trim_right-trim_left : (s : Text) → trim_right s ≡ s → trim_right (trim_left s) ≡ trim_left s
unfolding trim_right trim_left
trim_right-trim_left [] h = refl
trim_right-trim_left (c ∷ s) h = ground (arith, trim_right-trim_left s)

pub trim_space_idem : (s : Text) → trim_space (trim_space s) ≡ trim_space s
unfolding trim_space
trim_space_idem s =
    ap trim_left (trim_right-trim_left (trim_right s) (trim_right_idem s))
    ∙ trim_left_idem (trim_right s)

-- Literals that the test tells apart.
pub text_eq-ne : (s t : Text) → text_eq s t ≡ false → s ≢ t
text_eq-ne s t h e = let same = (text_eq_iff s t).1 e in cc

pair_inj :
    {A B : Type 0} {a a' : A} {b b' : B} → ◌≡◌ {A = A × B} (a, b) (a', b') → (a ≡ a') × (b ≡ b')
pair_inj {A = A} {B = B} e = (ap (λ (x : A × B). x.0) e, ap (λ (x : A × B). x.1) e)

none-ne-some : {A : Type 0} {a : A} → ◌≡◌ {A = Option A} none (some a) → ⊥
none-ne-some e = cc

false-ne-true : false ≡ true → ⊥
false-ne-true e = cc

pub cut-eq-some :
    (sep : ℕ) (s before after : Text)
    → cut sep s ≡ some (before, after)
    → (s ≡ before ++ (sep ∷ after)) × Lacks sep before
unfolding cut
cut-eq-some sep [] before after h = cc
cut-eq-some sep (c ∷ s) before after h = elim (Bool-cases (c == sep)) [
  | inl same ↦
      let (b, a) = pair_inj {a = []} {b = s} (some_inj (sym (rw (same, cut) refl) ∙ h)) in
      subst (λ (x : Text). (c ∷ s ≡ x ++ (sep ∷ after)) × Lacks sep x) b
        (ap₂ (λ (x : ℕ) (y : Text). x ∷ y) ((==_iff c sep).0 same) a, tt)
  | inr differs ↦ elim (Option-cases (cut sep s)) [
    | inl missing ↦ absurd (none-ne-some (sym (rw (differs, missing, cut) refl) ∙ h))
    | inr ((b, a), found) ↦
        let (head, tail) =
          pair_inj {a = c ∷ b} {b = a} (some_inj (sym (rw (differs, found, cut) refl) ∙ h)) in
        let (whole, lacks) = cut-eq-some sep s b a found in
        subst (λ (x : Text). (c ∷ s ≡ x ++ (sep ∷ after)) × Lacks sep x) head
          (
            ap (◌∷◌ c) (whole ∙ ap (λ (y : Text). b ++ (sep ∷ y)) tail),
            (λ e. false-ne-true (sym differs ∙ (==_iff c sep).1 e), lacks),
          )
  ]
]
