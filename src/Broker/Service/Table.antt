-- ===== src/Broker/Service/Table.antt =====
-- Changes of the table of runners, and what each leaves as it was.
use bunshin.Prelude.{
  false, [], none, some, ◌≡◌, sym, ap, ◌∙◌, ◌≢◌, ◌⊎◌, arith, Bool-cases, inl, inr,
}
use bunshin.Text.{Text, text_eq}
use bunshin.Text.Laws.{text_eq_iff, text_eq_refl}
use bunshin.Outcome.{ok}
use bunshin.Broker.Model.{Runner, state_idle, state_busy}
use bunshin.Broker.Store.{Repository}
use bunshin.Broker.Store.Contract.{Contract, SameTable}

module _ {W : Type 0} {repo : Repository W} (c : Contract repo) where
  -- No two runners have the same session.
  abbrev pub IsUnique : W → Type 0
  IsUnique w =
      (j k : Text) (r q : Runner)
      → c.runner_at w j ≡ some r
      → c.runner_at w k ≡ some q
      → r.current_session_id ≡ q.current_session_id
      → r.current_session_id ≢ []
      → j ≡ k

  -- No runner has the session.
  abbrev pub IsFresh : Text → W → Type 0
  IsFresh session w =
      (j : Text) (r : Runner) → c.runner_at w j ≡ some r → r.current_session_id ≢ session

  -- Nobody's runner is taken away or changed.
  abbrev pub KeepsBusy : W → W → Type 0
  KeepsBusy w w' =
      (j : Text) (r : Runner)
      → c.runner_at w j ≡ some r
      → r.state ≢ state_idle
      → c.runner_at w' j ≡ some r

  -- One idle runner of `w` is `r` in `w'`; every other record is as it was.
  pub record Assigns (session : Text) (r : Runner) (w w' : W) : Type 0 where
    pub at : c.runner_at w' r.runner_id ≡ some r
    pub busy : r.state ≡ state_busy
    pub owns : r.current_session_id ≡ session
    pub was : (q : Runner) × (c.runner_at w r.runner_id ≡ some q) × (q.state ≡ state_idle)
    pub others : (j : Text) → text_eq j r.runner_id ≡ false → c.runner_at w' j ≡ c.runner_at w j
    pub sound : c.IsSound w'

  -- An idle runner of `w` is gone in `w'`; every other record is as it was.
  pub record Drops (w w' : W) : Type 0 where
    pub id : Text
    pub was : (q : Runner) × (c.runner_at w id ≡ some q) × (q.state ≡ state_idle)
    pub gone : c.runner_at w' id ≡ none
    pub others : (j : Text) → text_eq j id ≡ false → c.runner_at w' j ≡ c.runner_at w j
    pub sound : c.IsSound w'

  pub acquire-Assigns :
      (session : Text) (w w₁ : W) (r : Runner)
      → session ≢ []
      → c.IsSound w
      → repo.acquire_idle session w ≡ ok r w₁
      → Assigns session r w w₁
  acquire-Assigns session w w₁ r filled sound acq =
      let (q, same, at, idle, after, size, sound₁) = c.acquire_ok session w w₁ r filled sound acq in
      let id : r.runner_id ≡ q.runner_id = ap (λ (x : Runner). x.runner_id) same in
      record {
        at = after r.runner_id ∙ ground (arith, text_eq_iff r.runner_id q.runner_id);
        busy = ap (λ (x : Runner). x.state) same;
        owns = ap (λ (x : Runner). x.current_session_id) same;
        was = (q, ap (c.runner_at w) id ∙ at, idle);
        others =
            λ j h. after j ∙ ground (arith, text_eq_iff j q.runner_id, text_eq_iff j r.runner_id);
        sound = sound₁;
      }

  pub Assigns-SameTable :
      (session : Text) (r : Runner) (w w₁ w₂ : W)
      → Assigns session r w w₁
      → SameTable c.runner_at c.size c.IsSound w₁ w₂
      → Assigns session r w w₂
  Assigns-SameTable session r w w₁ w₂ a s = record {
    at = s.same_runners r.runner_id ∙ a.at;
    busy = a.busy;
    owns = a.owns;
    was = a.was;
    others = λ j h. s.same_runners j ∙ a.others j h;
    sound = s.still_sound a.sound;
  }

  pub Assigns-Drops :
      (session : Text) (r : Runner) (w w₂ w₃ : W)
      → Assigns session r w w₂
      → repo.delete r.runner_id w₂ ≡ ok tt w₃
      → Drops w w₃
  Assigns-Drops session r w w₂ w₃ a del =
      let (gone, less, le, sound₃) = c.delete_ok r.runner_id w₂ w₃ a.sound del in
      record {
        id = r.runner_id;
        was = a.was;
        gone = gone r.runner_id ∙ rw (text_eq_refl r.runner_id);
        others = λ j h. gone j ∙ rw h (a.others j h);
        sound = sound₃;
      }

  -- Any number of idle runners dropped, one after the other, to reach `w'`.
  pub data ClearedTo (w' : W) : W → Type 0 where
    here : ClearedTo w' w'
    next : {w w₁ : W} → Drops w w₁ → ClearedTo w' w₁ → ClearedTo w' w

  pub Drops-KeepsBusy : (w w' : W) → Drops w w' → KeepsBusy w w'
  Drops-KeepsBusy w w' d j r at busy = elim (Bool-cases (text_eq j d.id)) [
    | inr other ↦ d.others j other ∙ at
    | inl same ↦
        let e : j ≡ d.id = (text_eq_iff j d.id).0 same in
        let (q, at', idle) = d.was in absurd (busy (cc (ap (c.runner_at w) e)))
  ]

  pub Assigns-KeepsBusy :
      (session : Text) (r : Runner) (w w' : W) → Assigns session r w w' → KeepsBusy w w'
  Assigns-KeepsBusy session r w w' a j x at busy = elim (Bool-cases (text_eq j r.runner_id)) [
    | inr other ↦ a.others j other ∙ at
    | inl same ↦
        let e : j ≡ r.runner_id = (text_eq_iff j r.runner_id).0 same in
        let (q, at', idle) = a.was in absurd (busy (cc (ap (c.runner_at w) e)))
  ]

  pub Drops-at :
      (w w' : W) (j : Text) (r : Runner)
      → Drops w w'
      → c.runner_at w' j ≡ some r
      → c.runner_at w j ≡ some r
  Drops-at w w' j r d at = elim (Bool-cases (text_eq j d.id)) [
    | inr other ↦ sym (d.others j other) ∙ at
    | inl same ↦ cc (ap (c.runner_at w') ((text_eq_iff j d.id).0 same), d.gone)
  ]

  pub ClearedTo-KeepsBusy : {w' w : W} → ClearedTo w' w → KeepsBusy w w'
  ClearedTo-KeepsBusy here j r at busy = at
  ClearedTo-KeepsBusy (next {w} {w₁} d rest) j r at busy =
      ClearedTo-KeepsBusy rest j r (Drops-KeepsBusy w w₁ d j r at busy) busy

  pub ClearedTo-at :
      {w' w : W} (j : Text) (r : Runner)
      → ClearedTo w' w
      → c.runner_at w' j ≡ some r
      → c.runner_at w j ≡ some r
  ClearedTo-at j r here at = at
  ClearedTo-at j r (next {w} {w₁} d rest) at = Drops-at w w₁ j r d (ClearedTo-at j r rest at)

  pub ClearedTo-IsUnique : (w w' : W) → ClearedTo w' w → IsUnique w → IsUnique w'
  ClearedTo-IsUnique w w' k u i j r q at at' =
      u i j r q (ClearedTo-at i r k at) (ClearedTo-at j q k at')

  pub ClearedTo-IsFresh :
      (session : Text) (w w' : W) → ClearedTo w' w → IsFresh session w → IsFresh session w'
  ClearedTo-IsFresh session w w' k f j r at = f j r (ClearedTo-at j r k at)

  pub Assigns-at :
      (session : Text) (r : Runner) (w w' : W) (j : Text) (x : Runner)
      → Assigns session r w w'
      → c.runner_at w' j ≡ some x
      → ((j ≡ r.runner_id) × (x ≡ r)) ⊎ (c.runner_at w j ≡ some x)
  Assigns-at session r w w' j x a at = elim (Bool-cases (text_eq j r.runner_id)) [
    | inr other ↦ inr (sym (a.others j other) ∙ at)
    | inl same ↦
        let e : j ≡ r.runner_id = (text_eq_iff j r.runner_id).0 same in
        inl (e, cc (ap (c.runner_at w') e, a.at, at))
  ]

  pub Assigns-IsUnique :
      (session : Text) (r : Runner) (w w' : W)
      → Assigns session r w w'
      → IsFresh session w
      → IsUnique w
      → IsUnique w'
  Assigns-IsUnique session r w w' a f u i j x y at at' same filled =
      elim (Assigns-at session r w w' i x a at) [
        | inr old_i ↦ elim (Assigns-at session r w w' j y a at') [
          | inr old_j ↦ u i j x y old_i old_j same filled
          | inl (_, e) ↦
              absurd (f i x old_i (same ∙ ap (λ (r : Runner). r.current_session_id) e ∙ a.owns))
        ]
        | inl (i_id, e) ↦ elim (Assigns-at session r w w' j y a at') [
          | inr old_j ↦
              absurd (f j y old_j (sym same ∙ ap (λ (r : Runner). r.current_session_id) e ∙ a.owns))
          | inl (j_id, _) ↦ i_id ∙ sym j_id
        ]
      ]
