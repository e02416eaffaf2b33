-- ===== src/Runner/Shell/Marker.antt =====
-- checkStderrMarker and readStderr of runner/shell.go.
use bunshin.Prelude.{
  ℕ, Bool, true, List, [], ◌∷◌, ◌++◌, Option, none, some, is_empty, drop, length, ◌==◌,
  if◌then◌else◌,
}
use bunshin.Text.{Text, has_prefix}

-- The fields of bashShell that stderrMu guards; `done` tells that stderrDone is closed.
pub record StderrState : Type 0 where
  pub buffer : Text
  pub marker : Text
  pub done : Bool

abbrev pub behind : ℕ → Option (Text × Text) → Option (Text × Text)
behind c none = none
behind c (some (before, after)) = some (c ∷ before, after)

-- content[:idx] and content[idx+len(marker):] for the first index of the marker.
unfoldable pub cut_text : Text → Text → Option (Text × Text)
cut_text marker [] = if has_prefix marker [] then some ([], []) else none
cut_text marker (c ∷ s) =
    let rest = cut_text marker s in
    if has_prefix marker (c ∷ s) then some ([], drop (length marker) (c ∷ s)) else behind c rest

-- The newline behind the marker is stripped with it.
abbrev pub strip_newline : Text → Text
strip_newline [] = []
strip_newline (c ∷ s) = if c == b'\n' then s else c ∷ s

abbrev pub stripped : StderrState → Option (Text × Text) → StderrState
stripped s none = s
stripped s (some (before, after)) = record {
  buffer = before ++ strip_newline after;
  marker = [];
  done = true;
}

-- checkStderrMarker.
unfoldable pub check_stderr_marker : StderrState → StderrState
check_stderr_marker s = if is_empty s.marker then s else stripped s (cut_text s.marker s.buffer)

-- readStderr over the chunks that are read.
unfoldable pub read_stderr : List Text → StderrState → StderrState
unfolding check_stderr_marker
read_stderr [] s = s
read_stderr (chunk ∷ chunks) s =
    read_stderr chunks (check_stderr_marker (record s { buffer = s.buffer ++ chunk }))
