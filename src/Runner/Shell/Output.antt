-- ===== src/Runner/Shell/Output.antt =====
-- ExecuteStream forwards what the command writes to stdout.
use bunshin.Prelude.{
  ℕ, Bool, true, false, List, [], ◌∷◌, ◌++◌, none, some, ◌≡◌, refl, sym, ap, ◌∙◌, subst, arith,
  ◌==◌, ==_iff, All, Bool-cases, inl, inr, if◌then◌else◌, drop-length-append, append_assoc,
  append-nil, ltb, length, ◌<◌,
}
use bunshin.Text.{Text, join, has_prefix}
use bunshin.Text.Laws.{Lacks}
use bunshin.Text.Numbers.{ℤ, atoi}
use bunshin.Runner.Shell.Marker.{StderrState}
use bunshin.Runner.Shell.{
  drop_cr, max_token_size, stderr_of, marked_result, Returns, Process, Execution, Scan, send_line,
  take_line, forward_line, finish, scan_loop,
}

abbrev pub cr : ℕ
cr = 13

pub drop_cr_of_Lacks : (s : Text) → Lacks cr s → drop_cr s ≡ s
unfolding drop_cr
drop_cr_of_Lacks [] h = refl
drop_cr_of_Lacks (c ∷ []) h = ground (arith, ==_iff c 13, h.0)
drop_cr_of_Lacks (c ∷ d ∷ s) h = ap (◌∷◌ c) (drop_cr_of_Lacks (d ∷ s) h.1)

ltb-true : (n m : ℕ) → n < m → ltb n m ≡ true
ltb-true n m h = ground arith

-- A text completed to whole lines.
unfoldable pub complete : Text → Text
complete [] = []
complete (c ∷ []) = if c == b'\n' then c ∷ [] else c ∷ b'\n' ∷ []
complete (c ∷ d ∷ s) = c ∷ complete (d ∷ s)

unfoldable pub concat : List Text → Text
concat [] = []
concat (part ∷ parts) = part ++ concat parts

complete-line : (line s : Text) → complete (line ++ (b'\n' ∷ s)) ≡ line ++ (b'\n' ∷ complete s)
unfolding complete
complete-line [] [] = refl
complete-line [] (c ∷ s) = refl
complete-line (c ∷ []) s = ap (◌∷◌ c) (complete-line [] s)
complete-line (c ∷ d ∷ line) s = ap (◌∷◌ c) (complete-line (d ∷ line) s)

complete_last :
    (c : ℕ) (line : Text)
    → Lacks b'\n' (c ∷ line)
    → complete (c ∷ line) ≡ (c ∷ line) ++ (b'\n' ∷ [])
unfolding complete
complete_last c [] h = ground (arith, ==_iff c b'\n', h.0)
complete_last c (d ∷ line) h = ap (◌∷◌ c) (complete_last d line h.1)

-- What the loop sends, as a text, from a state that holds an empty line back or does not.
unfoldable pub flush : Bool → List Text → Text
flush held [] = []
flush true ([] ∷ lines) = b'\n' ∷ flush true lines
flush false ([] ∷ lines) = flush true lines
flush true ((c ∷ line) ∷ lines) = b'\n' ∷ ((c ∷ line) ++ (b'\n' ∷ flush false lines))
flush false ((c ∷ line) ∷ lines) = (c ∷ line) ++ (b'\n' ∷ flush false lines)

flush_held :
    (line : Text) (lines : List Text)
    → flush true (line ∷ lines) ≡ b'\n' ∷ flush false (line ∷ lines)
unfolding flush
flush_held [] lines = refl
flush_held (c ∷ line) lines = refl

pub flush-complete :
    (line : Text) (lines : List Text)
    → All (Lacks b'\n') (line ∷ lines)
    → flush false (line ∷ lines) ≡ complete (join b'\n' (line ∷ lines))
unfolding flush join complete
flush-complete [] [] h = refl
flush-complete (c ∷ line) [] h = sym (complete_last c line h.0)
flush-complete [] (next ∷ lines) h =
    flush_held next lines
    ∙ ap (◌∷◌ b'\n') (flush-complete next lines h.1)
    ∙ sym (complete-line [] (join b'\n' (next ∷ lines)))
flush-complete (c ∷ line) (next ∷ lines) h =
    ap (λ s. (c ∷ line) ++ (b'\n' ∷ s)) (flush-complete next lines h.1)
    ∙ sym (complete-line (c ∷ line) (join b'\n' (next ∷ lines)))

concat-append : (xs ys : List Text) → concat (xs ++ ys) ≡ concat xs ++ concat ys
unfolding concat
concat-append [] ys = refl
concat-append (x ∷ xs) ys =
    ap (λ s. x ++ s) (concat-append xs ys) ∙ sym (append_assoc x (concat xs) (concat ys))

-- The state of the loop and what it has sent and is to send, as a text.
abbrev pub total : Scan → List Text → Text
total v lines = concat v.sent ++ flush v.pending_empty lines

pub record Goes (text : Text) (lines : List Text) (v : Scan) : Type 0 where
  pub unfailed : v.send_failed ≡ none
  pub unbroken : v.broken ≡ none
  pub totals : total v lines ≡ text

-- An execution that has gone well.
pub record Finishes (text stderr : Text) (code : ℤ) (later : List Text) (e : Execution)
    : Type 0 where
  pub exited : e.exit_code ≡ code
  pub no_error : e.error ≡ none
  pub whole : e.stderr ≡ stderr
  pub intact : e.broken ≡ none
  pub forwarded : concat e.sent ≡ text
  pub synchronized : e.unread ≡ later

has_prefix_append : (marker s : Text) → has_prefix marker (marker ++ s) ≡ true
unfolding has_prefix
has_prefix_append [] s = refl
has_prefix_append (c ∷ marker) s = ground (arith, has_prefix_append marker s)

module _ (p : Process) (sends : (sent : List Text) → p.send_err sent ≡ none) where
  send_line_sent :
      (line : Text) (v : Scan)
      → send_line p line v ≡ record v { sent = v.sent ++ ((line ++ (b'\n' ∷ [])) ∷ []) }
  unfolding send_line
  send_line_sent line v = rw (sends v.sent, send_line) refl

  concat_sent :
      (sent : List Text) (line rest : Text)
      → concat (sent ++ ((line ++ (b'\n' ∷ [])) ∷ [])) ++ rest
        ≡ concat sent ++ (line ++ (b'\n' ∷ rest))
  unfolding concat
  concat_sent sent line rest =
      ap (λ s. s ++ rest)
        (concat-append sent ((line ++ (b'\n' ∷ [])) ∷ [])
          ∙ ap (λ s. concat sent ++ s) (append-nil (line ++ (b'\n' ∷ []))))
      ∙ append_assoc (concat sent) (line ++ (b'\n' ∷ [])) rest
      ∙ ap (λ s. concat sent ++ s) (append_assoc line (b'\n' ∷ []) rest)

  take_line-Goes :
      (line text : Text) (lines : List Text) (v : Scan)
      → v.pending_empty ≡ false
      → Goes text (line ∷ lines) v
      → Goes text lines (take_line p line v)
  unfolding take_line flush
  take_line-Goes [] text lines v clear g = record {
    unfailed = g.unfailed;
    unbroken = g.unbroken;
    totals = ap (λ b. concat v.sent ++ flush b ([] ∷ lines)) (sym clear) ∙ g.totals;
  }
  take_line-Goes (c ∷ line) text lines v clear g =
      subst (Goes text lines) (sym (send_line_sent (c ∷ line) v)) (record {
        unfailed = g.unfailed;
        unbroken = g.unbroken;
        totals =
            concat_sent v.sent (c ∷ line) (flush v.pending_empty lines)
            ∙ ap (λ b. concat v.sent ++ ((c ∷ line) ++ (b'\n' ∷ flush b lines))) clear
            ∙ ap (λ b. concat v.sent ++ flush b ((c ∷ line) ∷ lines)) (sym clear)
            ∙ g.totals;
      })

  forward_line-Goes :
      (line text : Text) (lines : List Text) (v : Scan)
      → Goes text (line ∷ lines) v
      → Goes text lines (forward_line p line v)
  unfolding forward_line
  forward_line-Goes line text lines v g = elim (Bool-cases v.pending_empty) [
    | inr clear ↦ rw (g.unfailed, clear, forward_line) (take_line-Goes line text lines v clear g)
    | inl held ↦
        rw (g.unfailed, held, send_line_sent [] v, g.unfailed, forward_line)
          (take_line-Goes line text lines
            (record v {
              pending_empty = false;
              send_failed = none;
              sent = v.sent ++ ((b'\n' ∷ []) ∷ []);
            })
            refl
            (record {
              unfailed = refl;
              unbroken = g.unbroken;
              totals =
                  concat_sent v.sent [] (flush false (line ∷ lines))
                  ∙ ap (λ s. concat v.sent ++ s) (sym (flush_held line lines))
                  ∙ ap (λ b. concat v.sent ++ flush b (line ∷ lines)) (sym held)
                  ∙ g.totals;
            }))
  ]

  -- The loop over lines without the marker and the line of the marker.
  pub scan_loop-Finishes :
      (marker digits text stderr : Text) (code : ℤ) (lines later : List Text) (v : Scan)
      → stderr_of p marker ≡ record { buffer = stderr; marker = []; done = true }
      → All (λ line. has_prefix marker line ≡ false) lines
      → All (λ line. length line < max_token_size) lines
      → All (Lacks cr) lines
      → length (marker ++ digits) < max_token_size
      → Lacks cr (marker ++ digits)
      → atoi digits ≡ some code
      → Goes text lines v
      → Returns
          (Finishes text stderr code later)
          (scan_loop p marker (lines ++ ((marker ++ digits) ∷ later)) v)
  unfolding scan_loop flush finish marked_result
  scan_loop-Finishes marker digits text stderr code [] later v reads clean short plain fits
        marker_plain parses g =
      rw
        (
          ltb-true (length (marker ++ digits)) max_token_size fits,
          drop_cr_of_Lacks (marker ++ digits) marker_plain,
          has_prefix_append marker digits,
          drop-length-append marker digits,
          parses,
          reads,
          g.unfailed,
          finish,
          scan_loop,
        )
        (record {
          exited = refl;
          no_error = refl;
          whole = ap (λ (x : StderrState). x.buffer) reads;
          intact = g.unbroken;
          forwarded = sym (append-nil (concat v.sent)) ∙ g.totals;
          synchronized = refl;
        })
  scan_loop-Finishes marker digits text stderr code (line ∷ lines) later v reads clean short plain
        fits marker_plain parses g =
      rw
        (
          ltb-true (length line) max_token_size short.0,
          drop_cr_of_Lacks line plain.0,
          clean.0,
          scan_loop,
        )
        (scan_loop-Finishes marker digits text stderr code lines later (forward_line p line v) reads
          clean.1 short.1 plain.1 fits marker_plain parses (forward_line-Goes line text lines v g))
