-- ===== src/Tests/Memory/Query.antt =====
-- The pages and the search by session of the in-memory database.
use bunshin.Prelude.{
  ℕ, zero, suc, ◌≤◌, Bool, true, false, ◌&&◌, not, [], ◌∷◌, Option, none, some, ◌≡◌, refl, sym, ap,
  ◌∙◌, ◌≢◌, ◌⊎◌, inl, inr, arith, All, Any, Bool-cases, Option-cases, is_empty, length, some_inj,
  subst,
}
use bunshin.Text.{Text, text_eq}
use bunshin.Text.Laws.{text_eq_iff}
use bunshin.Text.Order.{text_ltb, text_ltb_trans, text_ltb-total}
use bunshin.Broker.Store.Firestore.{
  Value, null, Fields, field_current_session_id, get_field, DocSnapshot, last_id,
}
use bunshin.Broker.Store.Firestore.Documents.{
  find_doc, in_range, in_range_trans, in_range-behind, after-lt,
}
use bunshin.Broker.Store.Firestore.Laws.{IsIdleDoc, IsPage}
use bunshin.Tests.Memory.{Docs, is_null, passes, candidate, pick, next_idle, page_of}

-- A document as a page lists it.
pub record Fits (docs : Docs) (after up_to : Text) (s : DocSnapshot) : Type 0 where
  pub at : find_doc s.id docs ≡ some s.fields
  pub idle : IsIdleDoc s.fields
  pub within : in_range after up_to s.id ≡ true
  pub filled : s.id ≢ []

and_true : (a b : Bool) → (a && b) ≡ true → (a ≡ true) × (b ≡ true)
and_true true b h = (refl, h)
and_true false b h = cc

is_null-eq : (v : Option Value) → is_null v ≡ true → v ≡ some null
is_null-eq (some null) h = refl
is_null-eq _ h = cc

filled_eq : (id : Text) → not (is_empty id) ≡ true → id ≢ []
filled_eq [] h e = cc
filled_eq (c ∷ id) h e = cc

eq_filled : (id : Text) → id ≢ [] → is_empty id ≡ false
eq_filled [] h = absurd (h refl)
eq_filled (c ∷ id) h = refl

candidate-Fits :
    (docs : Docs) (after up_to id : Text) (found : Option Fields) (s : DocSnapshot)
    → find_doc id docs ≡ found
    → candidate after up_to id found ≡ some s
    → Fits docs after up_to s
candidate-Fits docs after up_to id none s e h = cc
candidate-Fits docs after up_to id (some fields) s e h =
    elim (Bool-cases (passes after up_to id fields)) [
      | inr fails ↦ cc
      | inl holds ↦
          let same : record { id = id; fields = fields } ≡ s = some_inj (sym (rw holds refl) ∙ h) in
          let (range, rest) = and_true (in_range after up_to id) _ holds in
          let (idle, named) =
            and_true (is_null (get_field field_current_session_id fields)) _ rest in
          subst (Fits docs after up_to) same (record {
            at = e;
            idle = is_null-eq _ idle;
            within = range;
            filled = filled_eq id named;
          })
    ]

candidate-some :
    (after up_to id : Text) (fields : Fields)
    → IsIdleDoc fields
    → in_range after up_to id ≡ true
    → id ≢ []
    → candidate after up_to id (some fields) ≡ some (record { id = id; fields = fields })
candidate-some after up_to id fields idle within filled =
    rw (within, idle, eq_filled id filled, candidate) refl

pick-cases :
    (a b : Option DocSnapshot) (s : DocSnapshot) → pick a b ≡ some s → (a ≡ some s) ⊎ (b ≡ some s)
pick-cases none b s h = inr h
pick-cases (some t) none s h = inl h
pick-cases (some t) (some u) s h = elim (Bool-cases (text_ltb u.id t.id)) [
  | inl lt ↦ inr (sym (rw lt refl) ∙ h)
  | inr ge ↦ inl (sym (rw ge refl) ∙ h)
]

abbrev IsLeast : Text → Option DocSnapshot → Type 0
IsLeast id o = (s : DocSnapshot) × (o ≡ some s) × ((id ≡ s.id) ⊎ (text_ltb s.id id ≡ true))

pick-left : (id : Text) (a b : Option DocSnapshot) → IsLeast id a → IsLeast id (pick a b)
pick-left id none b (s, e, h) = cc
pick-left id (some t) none (s, e, h) = (s, e, h)
pick-left id (some t) (some u) (s, e, h) = elim (Bool-cases (text_ltb u.id t.id)) [
  | inr ge ↦ rw ge (s, e, h)
  | inl lt ↦ rw lt (
    u,
    refl,
    inr (elim h [
      | inl same ↦
          subst (λ x. text_ltb u.id x ≡ true)
            (ap (λ (x : DocSnapshot). x.id) (some_inj e) ∙ sym same) lt
      | inr less ↦
          text_ltb_trans u.id s.id id
            (subst (λ (x : DocSnapshot). text_ltb u.id x.id ≡ true) (some_inj e) lt) less
    ]),
  )
]

pick_right-least :
    (id : Text) (s t u : DocSnapshot)
    → u ≡ s
    → (id ≡ s.id) ⊎ (text_ltb s.id id ≡ true)
    → text_ltb u.id t.id ≡ false
    → (id ≡ t.id) ⊎ (text_ltb t.id id ≡ true)
pick_right-least id s t u e h ge = elim (Bool-cases (text_ltb t.id s.id)) [
  | inl lt ↦ inr (elim h [
    | inl same ↦ subst (λ x. text_ltb t.id x ≡ true) (sym same) lt
    | inr less ↦ text_ltb_trans t.id s.id id lt less
  ])
  | inr not_lt ↦
      let same : t.id ≡ s.id =
        text_ltb-total t.id s.id not_lt
          (subst (λ (x : DocSnapshot). text_ltb x.id t.id ≡ false) e ge) in
      subst (λ x. (id ≡ x) ⊎ (text_ltb x id ≡ true)) (sym same) h
]

pick-right : (id : Text) (a b : Option DocSnapshot) → IsLeast id b → IsLeast id (pick a b)
pick-right id none b least = least
pick-right id (some t) none (s, e, h) = cc
pick-right id (some t) (some u) (s, e, h) = elim (Bool-cases (text_ltb u.id t.id)) [
  | inl lt ↦ rw lt (s, e, h)
  | inr ge ↦ rw ge (t, refl, pick_right-least id s t u (some_inj e) h ge)
]

pub next_idle-Fits :
    (after up_to : Text) (docs rest : Docs) (s : DocSnapshot)
    → next_idle after up_to docs rest ≡ some s
    → Fits docs after up_to s
unfolding next_idle
next_idle-Fits after up_to docs [] s h = cc
next_idle-Fits after up_to docs (d ∷ rest) s h = elim (pick-cases _ _ s h) [
  | inl first ↦ candidate-Fits docs after up_to d.id (find_doc d.id docs) s refl first
  | inr later ↦ next_idle-Fits after up_to docs rest s later
]

next_idle-IsLeast :
    (after up_to : Text) (docs rest : Docs) (id : Text) (fields : Fields)
    → find_doc id docs ≡ some fields
    → IsIdleDoc fields
    → in_range after up_to id ≡ true
    → id ≢ []
    → Any (λ (s : DocSnapshot). id ≡ s.id) rest
    → IsLeast id (next_idle after up_to docs rest)
unfolding next_idle
next_idle-IsLeast after up_to docs [] id fields at idle within filled listed = elim listed [ ]
next_idle-IsLeast after up_to docs (d ∷ rest) id fields at idle within filled (inl here) =
    pick-left id _ _ (
      subst (λ x. IsLeast id (candidate after up_to x (find_doc x docs))) here
        (
          record { id = id; fields = fields },
          ap (candidate after up_to id) at
              ∙ candidate-some after up_to id fields idle within filled,
          inl refl,
        ))
next_idle-IsLeast after up_to docs (d ∷ rest) id fields at idle within filled (inr later) =
    pick-right id _ _
      (next_idle-IsLeast after up_to docs rest id fields at idle within filled later)

pub find_doc-listed :
    (id : Text) (docs : Docs) (fields : Fields)
    → find_doc id docs ≡ some fields
    → Any (λ (s : DocSnapshot). id ≡ s.id) docs
unfolding find_doc
find_doc-listed id [] fields h = cc
find_doc-listed id (d ∷ docs) fields h = elim (Bool-cases (text_eq d.id id)) [
  | inl same ↦ inl (sym ((text_eq_iff d.id id).0 same))
  | inr differs ↦ inr (find_doc-listed id docs fields (sym (rw differs refl) ∙ h))
]

abbrev Covers : Text → ℕ → Docs → Text → Type 0
Covers after limit page id =
    Any (λ (s : DocSnapshot). id ≡ s.id) page
    ⊎ ((length page ≡ limit) × (text_ltb (last_id after page) id ≡ true))

Covers-next :
    (s : DocSnapshot) (after : Text) (n : ℕ) (page : Docs) (id : Text)
    → Covers s.id n page id
    → Covers after (suc n) (s ∷ page) id
Covers-next s after n page id (inl listed) = inl (inr listed)
Covers-next s after n page id (inr (full, behind)) = inr (ap suc full, behind)

page_of-sized : (n : ℕ) (after up_to : Text) (docs : Docs) → length (page_of n after up_to docs) ≤ n
unfolding page_of
page_of-sized zero after up_to docs = omega arith
page_of-sized (suc n) after up_to docs = elim (Option-cases (next_idle after up_to docs docs)) [
  | inl missing ↦ rw (missing, page_of) (omega arith)
  | inr (s, e) ↦ rw (e, page_of) (omega (arith, page_of-sized n s.id up_to docs))
]

abbrev Listed : Docs → Text → Text → DocSnapshot → Type 0
Listed docs after up_to s =
    (find_doc s.id docs ≡ some s.fields)
    × IsIdleDoc s.fields
    × (in_range after up_to s.id ≡ true)
    × (s.id ≢ [])

Listed-trans :
    (docs : Docs) (after mid up_to : Text) (page : Docs)
    → in_range after up_to mid ≡ true
    → mid ≢ []
    → All (Listed docs mid up_to) page
    → All (Listed docs after up_to) page
Listed-trans docs after mid up_to [] h k l = tt
Listed-trans docs after mid up_to (s ∷ page) h k ((at, idle, within, filled), l) = (
  (at, idle, in_range_trans after mid up_to s.id h k within, filled),
  Listed-trans docs after mid up_to page h k l,
)

page_of-Listed :
    (n : ℕ) (after up_to : Text) (docs : Docs)
    → All (Listed docs after up_to) (page_of n after up_to docs)
unfolding page_of
page_of-Listed zero after up_to docs = tt
page_of-Listed (suc n) after up_to docs = elim (Option-cases (next_idle after up_to docs docs)) [
  | inl missing ↦ rw (missing, page_of) tt
  | inr (s, e) ↦
      let f = next_idle-Fits after up_to docs docs s e in
      rw (e, page_of)
        (
          (f.at, f.idle, f.within, f.filled),
          Listed-trans docs after s.id up_to _ f.within f.filled (page_of-Listed n s.id up_to docs),
        )
]

page_of-Covers :
    (n : ℕ) (after up_to : Text) (docs : Docs) (id : Text) (fields : Fields)
    → find_doc id docs ≡ some fields
    → IsIdleDoc fields
    → in_range after up_to id ≡ true
    → id ≢ []
    → Covers after n (page_of n after up_to docs) id
unfolding page_of
page_of-Covers zero after up_to docs id fields at idle within filled =
    inr (refl, after-lt after up_to id within filled)
page_of-Covers (suc n) after up_to docs id fields at idle within filled =
    let (s, e, h) =
      next_idle-IsLeast after up_to docs docs id fields at idle within filled
        (find_doc-listed id docs fields at) in
    rw (e, page_of)
      (elim h [
        | inl same ↦ inl (inl same)
        | inr less ↦ Covers-next s after n _ id (
            page_of-Covers n s.id up_to docs id fields at idle
              (in_range-behind after up_to s.id id within less) filled)
      ])

pub page_of-IsPage :
    (n : ℕ) (after up_to : Text) (docs : Docs)
    → IsPage docs after up_to n (page_of n after up_to docs)
page_of-IsPage n after up_to docs = record {
  listed = page_of-Listed n after up_to docs;
  sized = page_of-sized n after up_to docs;
  complete = page_of-Covers n after up_to docs;
}
