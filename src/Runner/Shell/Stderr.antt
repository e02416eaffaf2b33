-- ===== src/Runner/Shell/Stderr.antt =====
-- What readStderr leaves of stderr up to the marker.
use bunshin.Prelude.{
  ℕ, true, false, List, [], ◌∷◌, ◌++◌, Option, none, some, ◌≡◌, ◌≢◌, refl, sym, ap, ◌∙◌, arith,
  is_empty, drop, length, Bool-cases, inl, inr, append-nil, append_assoc,
}
use bunshin.Text.{Text, has_prefix}
use bunshin.Runner.Shell.Output.{concat}
use bunshin.Runner.Shell.Marker.{
  StderrState, behind, cut_text, strip_newline, stripped, check_stderr_marker, read_stderr,
}

has_prefix-append : (p s t : Text) → has_prefix p s ≡ true → has_prefix p (s ++ t) ≡ true
unfolding has_prefix
has_prefix-append [] s t h = refl
has_prefix-append (c ∷ p) [] t h = cc
has_prefix-append (c ∷ p) (d ∷ s) t h = ground (arith, has_prefix-append p s t)

-- A marker that is not in a text is not in the beginning of the text.
some-ne-none : {A : Type 0} {a : A} → ◌≡◌ {A = Option A} (some a) none → ⊥
some-ne-none e = cc

true-ne-false : true ≡ false → ⊥
true-ne-false e = cc

behind-none : (c : ℕ) (o : Option (Text × Text)) → behind c o ≡ none → o ≡ none
behind-none c none h = refl
behind-none c (some (before, after)) h = cc

cut_text_prefix : (m s t : Text) → m ≢ [] → cut_text m (s ++ t) ≡ none → cut_text m s ≡ none
unfolding cut_text has_prefix
cut_text_prefix [] s t filled h = absurd (filled refl)
cut_text_prefix (x ∷ m) [] t filled h = refl
cut_text_prefix (x ∷ m) (c ∷ s) t filled h = elim (Bool-cases (has_prefix (x ∷ m) (c ∷ (s ++ t)))) [
  | inl found ↦ absurd (
      some-ne-none {a = ([], drop (length (x ∷ m)) (c ∷ (s ++ t)))}
        (sym (rw (found, cut_text) refl) ∙ h))
  | inr differs ↦ elim (Bool-cases (has_prefix (x ∷ m) (c ∷ s))) [
    | inl found ↦ absurd (true-ne-false (sym (has_prefix-append (x ∷ m) (c ∷ s) t found) ∙ differs))
    | inr differs' ↦
        let rest : behind c (cut_text (x ∷ m) (s ++ t)) ≡ none =
          sym (rw (differs, cut_text) refl) ∙ h in
        rw
          (
            differs',
            cut_text_prefix (x ∷ m) s t filled (behind-none c (cut_text (x ∷ m) (s ++ t)) rest),
            cut_text,
          )
          refl
  ]
]

check_clean : (s : StderrState) → cut_text s.marker s.buffer ≡ none → check_stderr_marker s ≡ s
unfolding check_stderr_marker
check_clean s h = elim (Bool-cases (is_empty s.marker)) [
  | inl unset ↦ simp (unset, check_stderr_marker)
  | inr is_set ↦ simp (is_set, h, check_stderr_marker)
]

check_done : (s : StderrState) → s.marker ≡ [] → check_stderr_marker s ≡ s
unfolding check_stderr_marker
check_done s h = simp (ap is_empty h, check_stderr_marker)

check_found :
    (s : StderrState) (before after : Text)
    → s.marker ≢ []
    → cut_text s.marker s.buffer ≡ some (before, after)
    → check_stderr_marker s ≡ stripped s (some (before, after))
unfolding check_stderr_marker
check_found s before after filled h = elim (Bool-cases (is_empty s.marker)) [
  | inl unset ↦ absurd (filled (is_empty_eq s.marker unset))
  | inr is_set ↦ simp (is_set, h, check_stderr_marker)
]
  where
    is_empty_eq : (t : Text) → is_empty t ≡ true → t ≡ []
    is_empty_eq [] e = refl
    is_empty_eq (c ∷ t) e = cc

read_clean :
    (chunks rest : List Text) (s : StderrState)
    → s.marker ≢ []
    → cut_text s.marker (s.buffer ++ concat chunks) ≡ none
    → read_stderr (chunks ++ rest) s
      ≡ read_stderr rest (record s { buffer = s.buffer ++ concat chunks })
unfolding read_stderr concat
read_clean [] rest s filled h =
    ap (λ b. read_stderr rest (record s { buffer = b })) (sym (append-nil s.buffer))
read_clean (chunk ∷ chunks) rest s filled h =
    let whole : (s.buffer ++ chunk) ++ concat chunks ≡ s.buffer ++ (chunk ++ concat chunks) =
      append_assoc s.buffer chunk (concat chunks) in
    let clean : cut_text s.marker ((s.buffer ++ chunk) ++ concat chunks) ≡ none =
      ap (cut_text s.marker) whole ∙ h in
    ap (read_stderr (chunks ++ rest)) (
      check_clean (record s { buffer = s.buffer ++ chunk })
        (cut_text_prefix s.marker (s.buffer ++ chunk) (concat chunks) filled clean))
    ∙ read_clean chunks rest (record s { buffer = s.buffer ++ chunk }) filled clean
    ∙ ap (λ b. read_stderr rest (record s { buffer = b })) whole

read_done :
    (chunks : List Text) (s : StderrState)
    → s.marker ≡ []
    → read_stderr chunks s ≡ record s { buffer = s.buffer ++ concat chunks }
unfolding read_stderr concat
read_done [] s h = ap (λ b. record s { buffer = b }) (sym (append-nil s.buffer))
read_done (chunk ∷ chunks) s h =
    ap (read_stderr chunks) (check_done (record s { buffer = s.buffer ++ chunk }) h)
    ∙ read_done chunks (record s { buffer = s.buffer ++ chunk }) h
    ∙ ap (λ b. record s { buffer = b }) (append_assoc s.buffer chunk (concat chunks))

-- Once ExecuteStream has set the marker and emptied the buffer, however the bytes are read in
-- chunks, if `last` is the first chunk after which the buffer holds the marker, behind `out` and
-- before `rest`, then stderrDone is closed and the buffer is `out`, what `rest` has behind a
-- newline at its head, and all the later chunks: a newline that a later chunk brings is kept.
pub read_stderr_strips :
    (chunks later : List Text) (last out rest : Text) (s : StderrState)
    → s.buffer ≡ []
    → s.marker ≢ []
    → cut_text s.marker (concat chunks) ≡ none
    → cut_text s.marker (concat chunks ++ last) ≡ some (out, rest)
    → read_stderr (chunks ++ (last ∷ later)) s
      ≡ record { buffer = (out ++ strip_newline rest) ++ concat later; marker = []; done = true }
unfolding read_stderr
read_stderr_strips chunks later last out rest s empty filled clean found =
    read_clean chunks (last ∷ later) s filled
      (ap (λ b. cut_text s.marker (b ++ concat chunks)) empty ∙ clean)
    ∙ ap (read_stderr later) (
        check_found (record s { buffer = (s.buffer ++ concat chunks) ++ last }) out rest filled
          (ap (λ b. cut_text s.marker ((b ++ concat chunks) ++ last)) empty ∙ found))
    ∙ read_done later (record { buffer = out ++ strip_newline rest; marker = []; done = true }) refl
