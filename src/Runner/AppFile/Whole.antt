-- ===== src/Runner/AppFile/Whole.antt =====
-- PUT /api/app/handler, with requests side by side: the handler's file is never half written.
use bunshin.Prelude.{
  ℕ, List, [], ◌∷◌, ◌++◌, append-nil, Option, none, some, ◌≡◌, refl, sym, ap, subst, ◌∙◌, ◌≢◌, ◌⊎◌,
  inl, inr, arith, Bool-cases, Option-cases, is_empty, is_empty-true, length, ltb, All, Any,
  some_inj,
}
use bunshin.Text.{Text}
use bunshin.Runner.Api.{NetIp, client_address}
use bunshin.Runner.AppFile.{
  get_slot, Writer, Files, Move, put, write, write_failed, rename, rename_failed, reply,
  begin_write, accept_from, write_more, rename_over, remove_temp, go_on, step, run,
  handler_app_max_size,
}
use bunshin.Runner.AppFile.Writers.{
  AllHold, AreApart, AreApart-clear, AreApart-set, AllHold-clear, AllHold-drop, AllHold-begin,
  AllHold-write,
}

abbrev pub bodies : List Move → List Text
bodies [] = []
bodies (put r header body ∷ moves) = body ∷ bodies moves
bodies (write r k ∷ moves) = bodies moves
bodies (write_failed r ∷ moves) = bodies moves
bodies (rename r ∷ moves) = bodies moves
bodies (rename_failed r ∷ moves) = bodies moves

abbrev pub IsWholeFile : (Text → Type 0) → Option Text → Option Text → Type 0
IsWholeFile P before file = (file ≡ before) ⊎ ((b : Text) × (file ≡ some b) × P b)

pub record IsWhole (P : Text → Type 0) (before : Option Text) (s : Files) : Type 0 where
  pub hold : AllHold P s.temps s.counter s.writers
  pub apart : AreApart s.writers
  pub file : IsWholeFile P before s.handler_file

module _ (P : Text → Type 0) where
  module _ (before : Option Text) where
    abbrev pub Keeps : Option Files → Type 0
    Keeps none = Unit
    Keeps (some s) = IsWhole P before s

    same_files :
        (r status : ℕ) (s : Files) → IsWhole P before s → IsWhole P before (reply r status s)
    same_files r status s h = record { hold = h.hold; apart = h.apart; file = h.file }

    begin-Keeps :
        (r : ℕ) (remote body : Text) (s : Files)
        → P body
        → IsWhole P before s
        → IsWhole P before (begin_write r remote body s)
    begin-Keeps r remote body s good h = record {
      hold = AllHold-begin P s.temps s.counter r _ s.writers refl refl good h.hold;
      apart = AreApart-set r _ s.writers h.apart λ q u now same.
          let (t, held, split, fine, low) = h.hold q u now in absurd (omega (arith, same, low));
      file = h.file;
    }

    write-Keeps :
        (r k : ℕ) (v : Writer) (s : Files) (o : Option Text)
        → get_slot v.temp s.temps ≡ o
        → get_slot r s.writers ≡ some v
        → IsWhole P before s
        → Keeps (write_more r k v o s)
    write-Keeps r k v s none held at h = tt
    write-Keeps r k v s (some text) held at h = record {
      hold = AllHold-write P s.temps s.counter r k v s.writers text at held h.apart h.hold;
      apart = AreApart-set r _ s.writers h.apart (λ q u now same. h.apart r q v u at now same);
      file = h.file;
    }

    rename-Keeps :
        (r : ℕ) (v : Writer) (s : Files) (o : Option Text)
        → get_slot v.temp s.temps ≡ o
        → get_slot r s.writers ≡ some v
        → IsWhole P before s
        → Keeps (rename_over r v o s)
    rename-Keeps r v s none held at h = tt
    rename-Keeps r v s (some text) held at h = elim (Bool-cases (is_empty v.rest)) [
      | inr more ↦ rw more tt
      | inl all ↦
          let (t, stored, split, good, low) = h.hold r v at in
          let is : text ≡ v.body =
            some_inj (sym held ∙ stored)
            ∙ sym (append-nil t)
            ∙ ap (λ x. t ++ x) (sym (is_empty-true v.rest all))
            ∙ split in
          simp all (record {
            hold = AllHold-clear P s.temps s.counter r v s.writers at h.apart h.hold;
            apart = AreApart-clear r s.writers h.apart;
            file = inr (v.body, ap (λ x. some x) is, good);
          })
    ]

    remove-Keeps :
        (r : ℕ) (v : Writer) (s : Files)
        → get_slot r s.writers ≡ some v
        → IsWhole P before s
        → Keeps (remove_temp r v s)
    remove-Keeps r v s at h = elim (Bool-cases (is_empty v.rest)) [
      | inr more ↦ rw more tt
      | inl all ↦ simp all (record {
        hold = AllHold-clear P s.temps s.counter r v s.writers at h.apart h.hold;
        apart = AreApart-clear r s.writers h.apart;
        file = h.file;
      })
    ]

    -- The bodies that requests bring.
    accept-Keeps :
        (r : ℕ) (body : Text) (o : Option Text) (s : Files)
        → P body
        → IsWhole P before s
        → IsWhole P before (accept_from r body o s)
    accept-Keeps r body none s good h = same_files r 400 s h
    accept-Keeps r body (some remote) s good h =
        elim (Bool-cases (ltb handler_app_max_size (length body))) [
          | inl long ↦ rw long (same_files r 400 s h)
          | inr fits ↦ rw fits (begin-Keeps r remote body s good h)
        ]

    step-Keeps :
        (net : NetIp) (m : Move) (s : Files)
        → All P (bodies (m ∷ []))
        → IsWhole P before s
        → Keeps (step net m s)
    unfolding step go_on
    step-Keeps net (put r header body) s good h = elim (Option-cases (get_slot r s.writers)) [
      | inl fresh ↦ rw fresh (accept-Keeps r body (client_address net header) s good.0 h)
      | inr (v, taken) ↦ rw taken tt
    ]
    step-Keeps net (write r k) s good h = elim (Option-cases (get_slot r s.writers)) [
      | inl missing ↦ rw missing tt
      | inr (v, at) ↦ rw at (write-Keeps r k v s _ refl at h)
    ]
    step-Keeps net (write_failed r) s good h = elim (Option-cases (get_slot r s.writers)) [
      | inl missing ↦ rw missing tt
      | inr (v, at) ↦ rw at (record {
        hold = AllHold-drop P s.temps s.counter r s.writers h.hold;
        apart = AreApart-clear r s.writers h.apart;
        file = h.file;
      })
    ]
    step-Keeps net (rename r) s good h = elim (Option-cases (get_slot r s.writers)) [
      | inl missing ↦ rw missing tt
      | inr (v, at) ↦ rw at (rename-Keeps r v s _ refl at h)
    ]
    step-Keeps net (rename_failed r) s good h = elim (Option-cases (get_slot r s.writers)) [
      | inl missing ↦ rw missing tt
      | inr (v, at) ↦ rw at (remove-Keeps r v s at h)
    ]

    All-bodies :
        (m : Move) (moves : List Move)
        → All P (bodies (m ∷ moves))
        → All P (bodies (m ∷ [])) × All P (bodies moves)
    All-bodies (put r header body) moves h = ((h.0, tt), h.1)
    All-bodies (write r k) moves h = (tt, h)
    All-bodies (write_failed r) moves h = (tt, h)
    All-bodies (rename r) moves h = (tt, h)
    All-bodies (rename_failed r) moves h = (tt, h)

    pub run-Keeps :
        (net : NetIp) (moves : List Move) (s : Files)
        → All P (bodies moves)
        → IsWhole P before s
        → Keeps (run net moves s)
    unfolding run
    run-Keeps net [] s good h = h
    run-Keeps net (m ∷ moves) s good h = elim (Option-cases (step net m s)) [
      | inl stuck ↦ rw (stuck, run) tt
      | inr (s', moved) ↦
          rw (moved, run)
            (run-Keeps net moves s' (All-bodies m moves good).1
              (subst Keeps moved (step-Keeps net m s (All-bodies m moves good).0 h)))
    ]

All_members :
    (P : Text → Type 0) (xs : List Text)
    → ((b : Text) → Any (λ (x : Text). b ≡ x) xs → P b)
    → All P xs
All_members P [] h = tt
All_members P (x ∷ xs) h = (h x (inl refl), All_members P xs (λ b k. h b (inr k)))

none_ne_some : {A : Type 0} {a : A} → none ≢ some a
none_ne_some e = cc

-- However the steps of any number of PUT requests interleave, and whatever calls fail: at every
-- moment, the handler's file is as it was before them or it is the whole body of one of them, if no
-- request was under way before.
pub run_whole :
    (net : NetIp) (moves : List Move) (s s' : Files)
    → s.writers ≡ []
    → run net moves s ≡ some s'
    → (s'.handler_file ≡ s.handler_file)
      ⊎ ((b : Text) × (s'.handler_file ≡ some b) × Any (λ (x : Text). b ≡ x) (bodies moves))
unfolding get_slot
run_whole net moves s s' idle e =
    let P = λ (b : Text). Any (λ (x : Text). b ≡ x) (bodies moves) in
    let start : IsWhole P s.handler_file s = record {
      hold = λ r v at. absurd (none_ne_some (sym (ap (get_slot r) idle) ∙ at));
      apart = λ r q v u at also same. absurd (none_ne_some (sym (ap (get_slot r) idle) ∙ at));
      file = inl refl;
    } in
    let kept =
      subst (Keeps P s.handler_file) e
        (run-Keeps P s.handler_file net moves s (All_members P (bodies moves) (λ b k. k)) start) in
    kept.file
