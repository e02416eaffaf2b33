-- ===== src/Broker/Stacklist/Rotation.antt =====
-- What Split and Parse return, in terms of the names that are listed.

use native.Mathlib.Numerals.{add-one}
use bunshin.Prelude.{
  true, List, [], ◌∷◌, ◌++◌, none, some, ◌≡◌, refl, ap, ◌∙◌, ◌≢◌, ◌↔◌, ◌⊎◌, inl, inr,
  drop-suc-length-append, take-length-append, is_empty, if◌then◌else◌, arith, All, Any, length,
  Bool-cases,
}
use bunshin.Text.{Text, text_eq, trim_space, split, join}
use bunshin.Text.Laws.{
  text_eq_iff, text_eq_refl, Lacks, split-join, split-Lacks, trim_space-Lacks, trim_space_idem,
}
use bunshin.Broker.Stacklist.{keep_names, split_names, pivot_of, skip_self, rotate_at, parse}

-- A name as Split returns it: not empty, no space at its ends, and no comma.
pub record IsName (s : Text) : Type 0 where
  pub filled : s ≢ []
  pub trimmed : trim_space s ≡ s
  pub lacks_comma : Lacks b',' s

keep_part-IsName :
    (name : Text) (rest : List Text)
    → trim_space name ≡ name
    → Lacks b',' name
    → All IsName rest
    → All IsName (if is_empty name then rest else name ∷ rest)
keep_part-IsName [] rest t l h = h
keep_part-IsName (c ∷ name) rest t l h =
    (record { filled = λ e. cc; trimmed = t; lacks_comma = l }, h)

keep_names-IsName : (parts : List Text) → All (Lacks b',') parts → All IsName (keep_names parts)
unfolding keep_names
keep_names-IsName [] h = tt
keep_names-IsName (part ∷ parts) h =
    keep_part-IsName (trim_space part) (keep_names parts) (trim_space_idem part)
      (trim_space-Lacks b',' part h.0) (keep_names-IsName parts h.1)

-- Every name that Split returns is not empty, has no space at its ends, and holds no comma.
pub split_names-IsName : (raw : Text) → All IsName (split_names raw)
unfolding split_names
split_names-IsName raw = keep_names-IsName (split b',' raw) (split-Lacks b',' raw)

keep_names_of_IsName : (names : List Text) → All IsName names → keep_names names ≡ names
unfolding keep_names
keep_names_of_IsName [] h = refl
keep_names_of_IsName ([] ∷ names) h = absurd (h.0.filled refl)
keep_names_of_IsName ((c ∷ name) ∷ names) h =
    rw (h.0.trimmed) (ap (◌∷◌ (c ∷ name)) (keep_names_of_IsName names h.1))

All-Lacks_comma : (names : List Text) → All IsName names → All (Lacks b',') names
All-Lacks_comma [] h = tt
All-Lacks_comma (name ∷ names) h = (h.0.lacks_comma, All-Lacks_comma names h.1)

-- Split of names joined by commas gives the names back, if none is empty, has space at its ends or
-- holds a comma.
pub split_names-join :
    (names : List Text) → All IsName names → split_names (join b',' names) ≡ names
unfolding split_names split join trim_space
split_names-join [] h = refl
split_names-join (name ∷ names) h =
    ap keep_names (split-join b',' name names (All-Lacks_comma (name ∷ names) h))
    ∙ keep_names_of_IsName (name ∷ names) h

pivot_of_unlisted :
    (self : Text) (names : List Text) → All (λ x. x ≢ self) names → pivot_of self names ≡ none
unfolding pivot_of
pivot_of_unlisted self [] h = refl
pivot_of_unlisted self (name ∷ names) h =
    ground (arith, text_eq_iff name self, pivot_of_unlisted self names h.1)

pivot_of_listed :
    (self : Text) (before after : List Text)
    → All (λ x. x ≢ self) before
    → pivot_of self (before ++ (self ∷ after)) ≡ some (length before)
unfolding pivot_of
pivot_of_listed self [] after h = rw (text_eq_refl self)
pivot_of_listed self (name ∷ before) after h =
    ground (arith, text_eq_iff name self, pivot_of_listed self before after h.1)

skip_self_unlisted :
    (self : Text) (names : List Text) → All (λ x. x ≢ self) names → skip_self self names ≡ names
unfolding skip_self
skip_self_unlisted self [] h = refl
skip_self_unlisted self (name ∷ names) h =
    ground (arith, text_eq_iff name self, skip_self_unlisted self names h.1)

-- Where `self` is listed, and at its first occurrence.
pub Listing : Text → List Text → Type 0
Listing self names =
    (before : List Text) × (after : List Text) × (names ≡ before ++ (self ∷ after))
    × All (λ x. x ≢ self) before

listing : (self : Text) (names : List Text) → All (λ x. x ≢ self) names ⊎ Listing self names
unfolding Listing
listing self [] = inl tt
listing self (name ∷ names) = elim (Bool-cases (text_eq name self)) [
  | inl same ↦ inr ([], names, rw ((text_eq_iff name self).0 same) refl, tt)
  | inr other ↦
      let differs : name ≢ self = ground (arith, text_eq_iff name self) in
      elim (listing self names) [
        | inl h ↦ inl (differs, h)
        | inr (before, after, e, h) ↦ inr (name ∷ before, after, ap (◌∷◌ name) e, (differs, h))
      ]
]

rotate_at_pivot :
    (self : Text) (before after : List Text)
    → All (λ x. x ≢ self) before
    → rotate_at self (before ++ (self ∷ after)) (pivot_of self (before ++ (self ∷ after)))
      ≡ (skip_self self after ++ before, true)
unfolding rotate_at
rotate_at_pivot self before after h =
    rw (pivot_of_listed self before after h, add-one)
      (rw (drop-suc-length-append before self after, take-length-append before (self ∷ after)))

-- When Split lists the own name exactly once, Parse returns the names after it and then those before it.
pub parse_rotates :
    (raw self : Text) (before after : List Text)
    → split_names raw ≡ before ++ (self ∷ after)
    → All (λ x. x ≢ self) before
    → All (λ x. x ≢ self) after
    → parse raw self ≡ (after ++ before, true)
unfolding parse
parse_rotates raw self before after e h k = rw e (
    rotate_at_pivot self before after h
    ∙ ap (λ xs. (xs ++ before, true)) (skip_self_unlisted self after k))

Any-append_iff :
    {A : Type 0} (P : A → Type 0) (xs ys : List A) → Any P (xs ++ ys) ↔ (Any P xs ⊎ Any P ys)
Any-append_iff P [] ys = (inr, elim [ inl h ↦ absurd h | inr h ↦ h ])
Any-append_iff P (x ∷ xs) ys = ground (arith, Any-append_iff P xs ys)

Any-skip_self_iff :
    (x self : Text) (names : List Text)
    → Any (λ y. x ≡ y) (skip_self self names) ↔ (Any (λ y. x ≡ y) names × (x ≢ self))
unfolding skip_self
Any-skip_self_iff x self [] = (λ h. absurd h, λ h. h.0)
Any-skip_self_iff x self (name ∷ names) =
    ground (arith, Any-skip_self_iff x self names, text_eq_iff name self)

All-ne-Any :
    (x self : Text) (names : List Text)
    → All (λ y. y ≢ self) names
    → Any (λ y. x ≡ y) names
    → x ≢ self
All-ne-Any x self [] h k = absurd k
All-ne-Any x self (name ∷ names) h k = ground (arith, All-ne-Any x self names h.1)

abbrev Lists : Text → List Text → Type 0
Lists x names = Any (λ y. x ≡ y) names

rotate_at-Lists_iff :
    (self x : Text) (names : List Text)
    → Lists x (rotate_at self names (pivot_of self names)).0 ↔ (Lists x names × (x ≢ self))
unfolding rotate_at Listing
rotate_at-Lists_iff self x names = elim (listing self names) [
  | inl h ↦ rw (pivot_of_unlisted self names h) (λ k. (k, All-ne-Any x self names h k), λ k. k.0)
  | inr (before, after, e, h) ↦
      rw (e, rotate_at_pivot self before after h)
        (ground (
          arith,
          Any-append_iff (λ y. x ≡ y) (skip_self self after) before,
          Any-append_iff (λ y. x ≡ y) before (self ∷ after),
          Any-skip_self_iff x self after,
          All-ne-Any x self before h,
        ))
]

-- A name is among the fallbacks of Parse if and only if Split lists it and it is not the own one.
pub parse-names_iff :
    (raw self x : Text)
    → Any (λ y. x ≡ y) (parse raw self).0 ↔ (Any (λ y. x ≡ y) (split_names raw) × (x ≢ self))
unfolding parse
parse-names_iff raw self x = rotate_at-Lists_iff self x (split_names raw)
