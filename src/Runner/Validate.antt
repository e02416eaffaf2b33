-- ===== src/Runner/Validate.antt =====
-- runner/validate.go: the classification of commands for the audit log.
pub mod Operators
use bunshin.Prelude.{ℕ, Bool, true, false, ◌&&◌, ◌||◌, not, List, [], ◌∷◌, ◌++◌, ◌==◌}
use bunshin.Text.{Text, lit, text_eq, trim_space, has_prefix}

unfoldable pub whitelisted_exact_commands : List Text
whitelisted_exact_commands =
    lit "pwd"
    ∷ lit "date"
    ∷ lit "whoami"
    ∷ lit "env"
    ∷ lit "id"
    ∷ lit "ip -4 -o addr show eth1 | awk '{print $4}'"
    ∷ lit "uptime"
    ∷ lit "df"
    ∷ lit "free"
    ∷ lit "ps"
    ∷ lit "history"
    ∷ lit "home-manager switch --rollback"
    ∷ lit "home-manager generations"
    ∷ lit "nix develop --command sh -c \"figlet 'Nix' | cowsay -n | lolcat -f\""
    ∷ []

unfoldable pub whitelisted_prefix_commands : List Text
whitelisted_prefix_commands =
    lit "cd"
    ∷ lit "echo"
    ∷ lit "cat"
    ∷ lit "head"
    ∷ lit "tail"
    ∷ lit "grep"
    ∷ lit "ls"
    ∷ lit "uname"
    ∷ lit "wc"
    ∷ lit "file"
    ∷ lit "du"
    ∷ lit "stat"
    ∷ lit "realpath"
    ∷ lit "printf"
    ∷ lit "which"
    ∷ lit "tree"
    ∷ []

-- The class of shellMetaChars.
abbrev pub is_meta_char : ℕ → Bool
is_meta_char c =
    c == b';'
    || c == b'|'
    || c == b'&'
    || c == b'<'
    || c == b'>'
    || c == 9
    || c == 10
    || c == 13
    || c == b'`'

-- shellMetaChars.MatchString: a character of the class, or "$(".
unfoldable pub has_meta_chars : Text → Bool
has_meta_chars [] = false
has_meta_chars (c ∷ s) = is_meta_char c || has_prefix (lit "$(") (c ∷ s) || has_meta_chars s

unfoldable pub is_listed : Text → List Text → Bool
is_listed cmd [] = false
is_listed cmd (c ∷ commands) = text_eq c cmd || is_listed cmd commands

-- The loop over the prefixes, whose order does not matter.
unfoldable pub has_listed_prefix : Text → List Text → Bool
has_listed_prefix cmd [] = false
has_listed_prefix cmd (c ∷ commands) =
    text_eq cmd c || has_prefix (c ++ lit " ") cmd || has_listed_prefix cmd commands

-- classifyCommand; `true` is "whitelisted".
unfoldable pub is_whitelisted : Text → Bool
is_whitelisted cmd =
    is_listed (trim_space cmd) whitelisted_exact_commands
    || (not (has_meta_chars (trim_space cmd))
        && (has_listed_prefix (trim_space cmd) whitelisted_prefix_commands
            || has_prefix (lit "nix run nixpkgs#") (trim_space cmd)))
