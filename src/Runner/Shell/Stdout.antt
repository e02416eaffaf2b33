-- ===== src/Runner/Shell/Stdout.antt =====
-- ExecuteStream on the text that bash writes for one command.
use bunshin.Prelude.{
  ap₂, ℕ, true, false, List, [], ◌∷◌, ◌++◌, Option, none, some, ◌≡◌, refl, sym, ap, ◌∙◌, subst,
  arith, ◌==◌, ==_iff, All, Bool-cases, Option-cases, inl, inr, length, ◌<◌,
}
use bunshin.Text.{Text, split, join, has_prefix}
use bunshin.Text.Laws.{Lacks, split-Lacks}
use bunshin.Text.Numbers.{ℤ, atoi}
use bunshin.Runner.Shell.{
  tokens, scan_lines, max_token_size, stderr_of, Returns, Process, scan_loop, scan_start,
  execute_stream,
}
use bunshin.Runner.Shell.Output.{
  cr, complete, concat, flush, flush-complete, Finishes, scan_loop-Finishes,
}

abbrev pub newline : ℕ
newline = b'\n'

tokens-cons :
    (part next : Text) (parts : List Text)
    → tokens (part ∷ next ∷ parts) ≡ part ∷ tokens (next ∷ parts)
unfolding tokens
tokens-cons [] next parts = refl
tokens-cons (c ∷ part) next parts = refl

-- Splitting is never empty.
split-cons :
    (sep : ℕ) (s : Text) → (part : Text) × (parts : List Text) × (split sep s ≡ part ∷ parts)
unfolding split
split-cons sep [] = ([], [], refl)
split-cons sep (c ∷ s) = elim (Bool-cases (c == sep)) [
  | inl same ↦ ([], split sep s, rw (same, split) refl)
  | inr differs ↦
      let (part, parts, e) = split-cons sep s in (c ∷ part, parts, rw (differs, e, split) refl)
]

split-append-sep : (sep : ℕ) (s t : Text) → split sep (s ++ (sep ∷ t)) ≡ split sep s ++ split sep t
unfolding split
split-append-sep sep [] t = ground arith
split-append-sep sep (c ∷ s) t = elim (Bool-cases (c == sep)) [
  | inl same ↦ rw (same, split) (ap (◌∷◌ []) (split-append-sep sep s t))
  | inr differs ↦
      let (part, parts, e) = split-cons sep s in
      rw (differs, split-append-sep sep s t, e, split) refl
]

tokens-append :
    (parts : List Text) (part : Text) (rest : List Text)
    → tokens (parts ++ (part ∷ rest)) ≡ parts ++ tokens (part ∷ rest)
tokens-append [] part rest = refl
tokens-append (first ∷ []) part rest = tokens-cons first part rest
tokens-append (first ∷ second ∷ parts) part rest =
    tokens-cons first second (parts ++ (part ∷ rest))
    ∙ ap (◌∷◌ first) (tokens-append (second ∷ parts) part rest)

split-Lacks-other : (sep c : ℕ) (s : Text) → Lacks c s → All (Lacks c) (split sep s)
unfolding split
split-Lacks-other sep c [] h = (tt, tt)
split-Lacks-other sep c (d ∷ s) h = ground (arith, split-Lacks-other sep c s h.1)

scan_lines-append : (s t : Text) → scan_lines (s ++ (newline ∷ t)) ≡ split newline s ++ scan_lines t
unfolding scan_lines
scan_lines-append s t =
    let (part, parts, e) = split-cons newline t in
    ap tokens (split-append-sep newline s t ∙ ap (λ x. split newline s ++ x) e)
    ∙ tokens-append (split newline s) part parts
    ∙ ap (λ x. split newline s ++ tokens x) (sym e)

split_of_Lacks : (sep : ℕ) (s : Text) → Lacks sep s → split sep s ≡ s ∷ []
unfolding split
split_of_Lacks sep [] h = refl
split_of_Lacks sep (c ∷ s) h = rw (split_of_Lacks sep s h.1, split) (ground arith)

join-cons_head :
    (sep c : ℕ) (part : Text) (parts : List Text)
    → join sep ((c ∷ part) ∷ parts) ≡ c ∷ join sep (part ∷ parts)
unfolding join
join-cons_head sep c part [] = refl
join-cons_head sep c part (next ∷ parts) = refl

join-split : (sep : ℕ) (s : Text) → join sep (split sep s) ≡ s
unfolding split join
join-split sep [] = refl
join-split sep (c ∷ s) =
    let (part, parts, e) = split-cons sep s in
    let rest : join sep (part ∷ parts) ≡ s = ap (join sep) (sym e) ∙ join-split sep s in
    elim (Bool-cases (c == sep)) [
      | inl same ↦
          rw (same, e, split) (ap₂ (λ (x : ℕ) (y : Text). x ∷ y) (sym ((==_iff c sep).0 same)) rest)
      | inr differs ↦ rw (differs, e, split) (join-cons_head sep c part parts ∙ ap (◌∷◌ c) rest)
    ]

pub scans :
    (p : Process) (marker : Text) (lines : List Text)
    → p.ctx_err ≡ none
    → p.write_err ≡ none
    → execute_stream p none marker lines ≡ scan_loop p marker lines scan_start
unfolding execute_stream
scans p marker lines live writes = elim (Option-cases p.ctx_err) [
  | inr (e, cancelled) ↦ absurd (none-ne-some (sym live ∙ cancelled))
  | inl live' ↦ simp (live, writes, execute_stream)
]
  where
    none-ne-some : {A : Type 0} {a : A} → ◌≡◌ {A = Option A} none (some a) → ⊥
    none-ne-some e = cc

-- If the session is intact, the context live and every write and send succeeds, a command's output
-- `out` has no carriage return, no line of 1 MiB or more and no line that begins with the marker, and
-- readStderr finds the marker behind `stderr`, then on `out`, the newline, the marker line with the
-- exit code and anything behind it, ExecuteStream returns that code and that stderr with no error,
-- the sent lines joined are `out` completed to whole lines, the session stays intact, and the
-- scanner stands behind the marker line.
pub execute_stream_forwards :
    (p : Process) (marker digits out stderr later : Text) (code : ℤ)
    → p.ctx_err ≡ none
    → p.write_err ≡ none
    → ((sent : List Text) → p.send_err sent ≡ none)
    → stderr_of p marker ≡ record { buffer = stderr; marker = []; done = true }
    → Lacks cr out
    → Lacks cr (marker ++ digits)
    → Lacks newline (marker ++ digits)
    → All (λ line. has_prefix marker line ≡ false) (split newline out)
    → All (λ line. length line < max_token_size) (split newline out)
    → length (marker ++ digits) < max_token_size
    → atoi digits ≡ some code
    → Returns (Finishes (complete out) stderr code (scan_lines later)) (
        execute_stream p none marker
          (scan_lines (out ++ (newline ∷ ((marker ++ digits) ++ (newline ∷ later))))))
unfolding execute_stream flush concat
execute_stream_forwards p marker digits out stderr later code live writes sends reads plain
      marker_plain one_line clean short fits parses =
    let (part, parts, e) = split-cons newline out in
    let totals : flush false (split newline out) ≡ complete out =
      ap (flush false) e
      ∙ flush-complete part parts (subst (All (Lacks newline)) e (split-Lacks newline out))
      ∙ ap (λ x. complete (join newline x)) (sym e)
      ∙ ap complete (join-split newline out) in
    let lines : scan_lines (out ++ (newline ∷ ((marker ++ digits) ++ (newline ∷ later))))
        ≡ split newline out ++ ((marker ++ digits) ∷ scan_lines later) =
      scan_lines-append out ((marker ++ digits) ++ (newline ∷ later))
      ∙ ap (λ x. split newline out ++ x)
          (scan_lines-append (marker ++ digits) later
            ∙ ap (λ x. x ++ scan_lines later)
                (split_of_Lacks newline (marker ++ digits) one_line)) in
    let P = Returns (Finishes (complete out) stderr code (scan_lines later)) in
    subst P
      (sym (
        scans p marker (scan_lines (out ++ (newline ∷ ((marker ++ digits) ++ (newline ∷ later)))))
          live writes))
      (subst (λ x. P (scan_loop p marker x scan_start)) (sym lines)
        (scan_loop-Finishes p sends marker digits (complete out) stderr code (split newline out)
          (scan_lines later) scan_start reads clean short (split-Lacks-other newline cr out plain)
          fits marker_plain parses (record { unfailed = refl; unbroken = refl; totals = totals })))
