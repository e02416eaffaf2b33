-- ===== src/Broker/Store/Firestore/Scan.antt =====
-- AcquireIdle: the pages of the two segments.
use bunshin.Prelude.{
  ℕ, zero, suc, ◌<◌, true, List, [], ◌∷◌, Option, none, some, ◌≡◌, refl, sym, ap, subst, ◌∙◌, ◌≢◌,
  ◌⊎◌, inl, inr, arith, All, Any, Bool-cases, length, ltb,
}
use bunshin.Text.{Text}
use bunshin.Outcome.{Outcome, ok, err, diverged, ended, with_ok, with_err, never}
use bunshin.Broker.Model.{Runner}
use bunshin.Broker.Store.{StoreError, no_idle_runner, acquire_query_limit}
use bunshin.Broker.Store.Firestore.{
  Fields, DocSnapshot, FirestoreClientApi, snapshot_to_doc, has_tried, assign_first_idle, last_id,
  scan_segment,
}
use bunshin.Broker.Store.Firestore.Documents.{
  find_doc, in_range, count_range, count_range-lt, in_range-behind,
}
use bunshin.Broker.Store.Firestore.Laws.{IsIdleDoc, IsPage, FirestoreLaws}
use bunshin.Broker.Store.Firestore.Candidates.{
  AreMalformed, IsAssigned, Candidates, AfterCandidates, assign_first_idle_lem,
}

-- A page's last document is one of the range.
abbrev IsListed : List DocSnapshot → Text → Text → DocSnapshot → Type 0
IsListed docs after up_to s =
    (find_doc s.id docs ≡ some s.fields)
    × IsIdleDoc s.fields
    × (in_range after up_to s.id ≡ true)
    × (s.id ≢ [])

last_id-listed :
    (docs : List DocSnapshot) (after up_to : Text) (s : DocSnapshot) (snaps : List DocSnapshot)
    → All (IsListed docs after up_to) (s ∷ snaps)
    → (find_doc (last_id s.id snaps) docs ≢ none)
      × (in_range after up_to (last_id s.id snaps) ≡ true)
      × (last_id s.id snaps ≢ [])
last_id-listed docs after up_to s [] h =
    let (at, idle, within, filled) = h.0 in ((λ e. cc), within, filled)
last_id-listed docs after up_to s (next ∷ snaps) h = last_id-listed docs after up_to next snaps h.1

Candidates-listed :
    (docs : List DocSnapshot) (after up_to : Text) (snaps : List DocSnapshot)
    → All (IsListed docs after up_to) snaps
    → Candidates docs snaps
Candidates-listed docs after up_to [] h = tt
Candidates-listed docs after up_to (s ∷ snaps) h =
    let (at, idle, within, filled) = h.0 in
    ((at, idle), Candidates-listed docs after up_to snaps h.1)

-- No document of the range can be both idle and read.
abbrev pub NoneIn : List DocSnapshot → Text → Text → Type 0
NoneIn docs after up_to =
    (id : Text) (fields : Fields)
    → find_doc id docs ≡ some fields
    → IsIdleDoc fields
    → in_range after up_to id ≡ true
    → id ≢ []
    → snapshot_to_doc id fields ≡ none

has_tried_of_Any :
    (id : Text) (tried : List Text) (snaps : List DocSnapshot)
    → All (λ (x : DocSnapshot). has_tried x.id tried ≡ true) snaps
    → Any (λ (x : DocSnapshot). id ≡ x.id) snaps
    → has_tried id tried ≡ true
has_tried_of_Any id tried [] h k = absurd k
has_tried_of_Any id tried (s ∷ snaps) h (inl e) = ap (λ x. has_tried x tried) e ∙ h.0
has_tried_of_Any id tried (s ∷ snaps) h (inr k) = has_tried_of_Any id tried snaps h.1 k

NoneIn-full :
    (docs : List DocSnapshot) (after up_to : Text) (tried : List Text) (s : DocSnapshot)
    (snaps : List DocSnapshot)
    → IsPage docs after up_to acquire_query_limit (s ∷ snaps)
    → AreMalformed docs tried
    → All (λ (x : DocSnapshot). has_tried x.id tried ≡ true) (s ∷ snaps)
    → (ltb (length (s ∷ snaps)) acquire_query_limit ≡ true) ⊎ NoneIn docs (last_id s.id snaps) up_to
    → NoneIn docs after up_to
NoneIn-full docs after up_to tried s snaps page bad all_tried rest id fields at idle within filled =
    elim (page.complete id fields at idle within filled) [
      | inl listed ↦ bad id fields (has_tried_of_Any id tried (s ∷ snaps) all_tried listed) at
      | inr (full, behind) ↦ elim rest [
        | inl short ↦ ground arith
        | inr last ↦ last id fields at idle (in_range-behind after up_to _ id within behind) filled
      ]
    ]

module _ {W T : Type 0} {api : FirestoreClientApi W T} (laws : FirestoreLaws api) where
  open laws use {docs}

  abbrev pub AfterSegment :
      Text → W → Text → Text → Outcome W StoreError (Option Runner × List Text) → Type 0
  AfterSegment session w after up_to (ok (some r, tried) w') =
      IsAssigned session (docs w) (docs w') r
  AfterSegment session w after up_to (ok (none, tried) w') =
      (docs w' ≡ docs w) × AreMalformed (docs w) tried × NoneIn (docs w) after up_to
  AfterSegment session w after up_to (err e w') = e ≢ no_idle_runner
  AfterSegment session w after up_to diverged = ⊥

  -- What a later state says, where the collection has not changed.
  AfterSegment-same :
      (session : Text) (w w₁ : W) (after up_to : Text)
      (o : Outcome W StoreError (Option Runner × List Text))
      → docs w₁ ≡ docs w
      → AfterSegment session w₁ after up_to o
      → AfterSegment session w after up_to o
  AfterSegment-same session w w₁ after up_to (ok (some r, tried) w') e a =
      subst (λ d. IsAssigned session d (docs w') r) e a
  AfterSegment-same session w w₁ after up_to (ok (none, tried) w') e a =
      (a.0 ∙ e, subst (λ d. AreMalformed d tried) e a.1, subst (λ d. NoneIn d after up_to) e a.2)
  AfterSegment-same session w w₁ after up_to (err x w') e a = a
  AfterSegment-same session w w₁ after up_to diverged e a = a

  AfterSegment-widen :
      (session : Text) (w : W) (last after up_to : Text)
      (o : Outcome W StoreError (Option Runner × List Text))
      → (NoneIn (docs w) last up_to → NoneIn (docs w) after up_to)
      → AfterSegment session w last up_to o
      → AfterSegment session w after up_to o
  AfterSegment-widen session w last after up_to (ok (some r, tried) w') f a = a
  AfterSegment-widen session w last after up_to (ok (none, tried) w') f a = (a.0, a.1, f a.2)
  AfterSegment-widen session w last after up_to (err e w') f a = a
  AfterSegment-widen session w last after up_to diverged f a = a

  module _ (fuel : ℕ) (session up_to : Text)
      (later : (after : Text) (tried : List Text) (w : W)
        → AreMalformed (docs w) tried
        → count_range after up_to (docs w) < fuel
        → AfterSegment session w after up_to
            (scan_segment api fuel session after up_to tried w)) where
    -- The round after the candidates of a page that is not empty.
    after_candidates :
        (after : Text) (tried : List Text) (w w₁ : W) (s : DocSnapshot) (snaps : List DocSnapshot)
        → count_range after up_to (docs w₁) < suc fuel
        → IsPage (docs w₁) after up_to acquire_query_limit (s ∷ snaps)
        → api.query_idle_range after up_to acquire_query_limit w ≡ ok (s ∷ snaps) w₁
        → (o : Outcome W StoreError (Option Runner × List Text))
        → assign_first_idle api session (s ∷ snaps) tried w₁ ≡ o
        → AfterCandidates laws session tried w₁ (s ∷ snaps) o
        → AfterSegment session w₁ after up_to
            (scan_segment api (suc fuel) session after up_to tried w)
    unfolding scan_segment
    after_candidates after tried w w₁ s snaps enough page q diverged p a = absurd a
    after_candidates after tried w w₁ s snaps enough page q (err e w₂) p a =
        rw (q, p, scan_segment) a
    after_candidates after tried w w₁ s snaps enough page q (ok (some r, tried') w₂) p a =
        rw (q, p, scan_segment) a
    after_candidates after tried w w₁ s snaps enough page q (ok (none, tried') w₂) p a =
        let (same, bad, grows, all_tried) = a in
        let covers = NoneIn-full (docs w₁) after up_to tried' s snaps page bad all_tried in
        elim (Bool-cases (ltb (length (s ∷ snaps)) acquire_query_limit)) [
          | inl short ↦ rw (q, p, short, scan_segment) (same, bad, covers (inl short))
          | inr full ↦
              let (held, within, filled) =
                last_id-listed (docs w₁) after up_to s snaps page.listed in
              let fewer =
                count_range-lt after (last_id s.id snaps) up_to (docs w₁) within filled held in
              rw (q, p, full, scan_segment)
                (AfterSegment-widen session w₁ (last_id s.id snaps) after up_to _
                  (λ none_behind. covers (inr none_behind))
                  (AfterSegment-same session w₁ w₂ (last_id s.id snaps) up_to _ same (
                    later (last_id s.id snaps) tried' w₂
                      (subst (λ d. AreMalformed d tried') (sym same) bad)
                      (omega (arith, ap (count_range (last_id s.id snaps) up_to) same)))))
        ]

    -- A round, whatever its page.
    after_page :
        (after : Text) (tried : List Text) (w w₁ : W) (page : List DocSnapshot)
        → AreMalformed (docs w₁) tried
        → count_range after up_to (docs w₁) < suc fuel
        → IsPage (docs w₁) after up_to acquire_query_limit page
        → (docs w₁ ≡ docs w)
        → api.query_idle_range after up_to acquire_query_limit w ≡ ok page w₁
        → AfterSegment session w₁ after up_to
            (scan_segment api (suc fuel) session after up_to tried w)
    unfolding scan_segment
    after_page after tried w w₁ [] bad enough page same q =
        rw (q, scan_segment)
          (
            refl,
            bad,
            λ id fields at idle within filled.
                elim (page.complete id fields at idle within filled) [
                  | inl listed ↦ absurd listed
                  | inr (full, behind) ↦ absurd (omega (arith, full))
                ],
          )
    after_page after tried w w₁ (s ∷ snaps) bad enough page same q =
        after_candidates after tried w w₁ s snaps enough page q _ refl (
          assign_first_idle_lem laws session (s ∷ snaps) tried w₁ bad
            (Candidates-listed (docs w₁) after up_to (s ∷ snaps) page.listed))

  pub scan_segment_lem :
      (fuel : ℕ) (session after up_to : Text) (tried : List Text) (w : W)
      → AreMalformed (docs w) tried
      → count_range after up_to (docs w) < fuel
      → AfterSegment session w after up_to (scan_segment api fuel session after up_to tried w)
  unfolding scan_segment
  scan_segment_lem zero session after up_to tried w bad enough = elim enough [ ]
  scan_segment_lem (suc fuel) session after up_to tried w bad enough =
      elim (ended (api.query_idle_range after up_to acquire_query_limit w)) [
        | never x ↦ absurd (laws.query_ends after up_to acquire_query_limit w x)
        | with_err e w₁ q ↦
            rw (q, scan_segment)
              (λ x. laws.query_err after up_to acquire_query_limit w w₁ (q ∙ ap (λ y. err y w₁) x))
        | with_ok page w₁ q ↦
            let (is_page, same) = laws.query_ok after up_to acquire_query_limit w w₁ page q in
            AfterSegment-same session w w₁ after up_to _ same (
              after_page fuel session up_to
                (λ after tried w. scan_segment_lem fuel session after up_to tried w) after tried w
                w₁ page (subst (λ d. AreMalformed d tried) (sym same) bad)
                (omega (arith, ap (count_range after up_to) same))
                (subst (λ d. IsPage d after up_to acquire_query_limit page) (sym same) is_page) same
                q)
      ]
