-- ===== src/Runner/Shell/Sync.antt =====
-- What ExecuteStream leaves on stdout: the session is intact only behind a marker.
use bunshin.Prelude.{true, List, [], ◌∷◌, ◌++◌, Option, none, ◌≡◌, ◌≢◌, ◌⊎◌}
use bunshin.Text.{Text, has_prefix}
use bunshin.Runner.Shell.{drop_cr, ShellError, Process, Execution}

-- The lines that are left stand right behind a line of the marker.
abbrev pub BehindMarker : Text → List Text → List Text → Type 0
BehindMarker marker lines unread =
    (before : List Text) × (line : Text) × (lines ≡ before ++ (line ∷ unread))
    × (has_prefix marker (drop_cr line) ≡ true)

abbrev StaysBehind : Text → List Text → Execution → Type 0
StaysBehind marker lines e = e.broken ≡ none → BehindMarker marker lines e.unread

-- The scanner stands behind the marker, or nothing has happened since the context was done.
abbrev Synchronized : Process → Option ShellError → Text → List Text → Execution → Type 0
Synchronized p broken marker lines e =
    e.broken ≡ none
    → (broken ≡ none)
      × (BehindMarker marker lines e.unread
          ⊎ ((p.ctx_err ≢ none) × (e.unread ≡ lines) × (e.sent ≡ [])))
