-- ===== src/Broker/Store/Firestore/Acquire.antt =====
-- AcquireIdle over both segments: what each outcome says of the collection.
use bunshin.Prelude.{
  ℕ, ◌<◌, List, [], Option, none, some, ◌≡◌, refl, sym, ap, subst, ◌∙◌, ◌≢◌, inl, inr, arith,
  Bool-cases, length,
}
use bunshin.Text.{Text}
use bunshin.Outcome.{Outcome, ok, err, diverged}
use bunshin.Broker.Model.{Runner}
use bunshin.Broker.Store.{StoreError, no_idle_runner}
use bunshin.Broker.Store.Firestore.{
  Fields, DocSnapshot, FirestoreClientApi, snapshot_to_doc, has_tried, scan_segment, acquire_from,
}
use bunshin.Broker.Store.Firestore.Documents.{
  find_doc, in_range, count_range, count_range-le-length, segments_cover,
}
use bunshin.Broker.Store.Firestore.Laws.{IsIdleDoc, FirestoreLaws}
use bunshin.Broker.Store.Firestore.Candidates.{AreMalformed, IsAssigned}
use bunshin.Broker.Store.Firestore.Scan.{NoneIn, AfterSegment, scan_segment_lem}

module _ {W T : Type 0} {api : FirestoreClientApi W T} (laws : FirestoreLaws api) where
  open laws use {docs}

  abbrev pub AfterAcquire : Text → W → Outcome W StoreError Runner → Type 0
  AfterAcquire session w (ok r w') = IsAssigned session (docs w) (docs w') r
  AfterAcquire session w (err no_idle_runner w') =
      (docs w' ≡ docs w)
      × ((id : Text) (fields : Fields)
          → find_doc id (docs w) ≡ some fields
          → IsIdleDoc fields
          → id ≢ []
          → snapshot_to_doc id fields ≡ none)
  AfterAcquire session w (err e w') = Unit
  AfterAcquire session w diverged = ⊥

  no_tried : (d : List DocSnapshot) → AreMalformed d []
  unfolding has_tried
  no_tried d id fields h at = cc

  AfterAcquire-err :
      (session : Text) (w w' : W) (e : StoreError)
      → e ≢ no_idle_runner
      → AfterAcquire session w (err e w')
  AfterAcquire-err session w w' no_idle_runner h = absurd (h refl)
  AfterAcquire-err session w w' _ h = tt

  after_second :
      (fuel : ℕ) (start session : Text) (tried : List Text) (w w₁ : W)
      → scan_segment api fuel session start [] [] w ≡ ok (none, tried) w₁
      → docs w₁ ≡ docs w
      → NoneIn (docs w) start []
      → (o : Outcome W StoreError (Option Runner × List Text))
      → scan_segment api fuel session [] start tried w₁ ≡ o
      → AfterSegment laws session w₁ [] start o
      → AfterAcquire session w (acquire_from api fuel start session w)
  unfolding acquire_from
  after_second fuel start session tried w w₁ p same first diverged q a = absurd a
  after_second fuel start session tried w w₁ p same first (err e w₂) q a =
      rw (p, q, acquire_from) (AfterAcquire-err session w w₂ e a)
  after_second fuel start session tried w w₁ p same first (ok (some r, tried') w₂) q a =
      rw (p, q, acquire_from) (subst (λ d. IsAssigned session d (docs w₂) r) same a)
  after_second fuel start session tried w w₁ p same first (ok (none, tried') w₂) q a =
      let second = subst (λ d. NoneIn d [] start) same a.2 in
      rw (p, q, acquire_from)
        (
          a.0 ∙ same,
          λ id fields at idle filled. elim (Bool-cases (in_range start [] id)) [
            | inl within ↦ first id fields at idle within filled
            | inr outside ↦ second id fields at idle (segments_cover start id outside) filled
          ],
        )

  after_first :
      (fuel : ℕ) (start session : Text) (w : W)
      → length (docs w) < fuel
      → (o : Outcome W StoreError (Option Runner × List Text))
      → scan_segment api fuel session start [] [] w ≡ o
      → AfterSegment laws session w start [] o
      → AfterAcquire session w (acquire_from api fuel start session w)
  unfolding acquire_from
  after_first fuel start session w enough diverged p a = absurd a
  after_first fuel start session w enough (err e w₁) p a =
      rw (p, acquire_from) (AfterAcquire-err session w w₁ e a)
  after_first fuel start session w enough (ok (some r, tried) w₁) p a = rw (p, acquire_from) a
  after_first fuel start session w enough (ok (none, tried) w₁) p a =
      after_second fuel start session tried w w₁ p a.0 a.2 _ refl (
        scan_segment_lem laws fuel session [] start tried w₁
          (subst (λ d. AreMalformed d tried) (sym a.0) a.1)
          (omega (arith, ap (count_range [] start) a.0, count_range-le-length [] start (docs w))))

  -- AcquireIdle with more fuel than there are documents ends, from any start. A runner that it
  -- returns had an idle document, into which the session is written, and nothing else changes;
  -- the answer that no runner is idle means that no document can be read as an idle runner.
  pub acquire_from_lem :
      (fuel : ℕ) (start session : Text) (w : W)
      → length (docs w) < fuel
      → AfterAcquire session w (acquire_from api fuel start session w)
  acquire_from_lem fuel start session w enough = after_first fuel start session w enough _ refl (
      scan_segment_lem laws fuel session start [] [] w (no_tried (docs w))
        (omega (arith, count_range-le-length start [] (docs w))))
