-- ===== src/Runner/Validate/Operators.antt =====
-- What a whitelisted command looks like.
use bunshin.Prelude.{false, ◌++◌, ◌≡◌, ◌≢◌, ◌⊎◌, All}
use bunshin.Text.{Text, lit}
use bunshin.Runner.Validate.{is_meta_char}

-- No character that chains, pipes, redirects or substitutes commands, and no "$(".
pub record HasNoOperator (s : Text) : Type 0 where
  pub no_meta : All (λ c. is_meta_char c ≡ false) s
  pub no_substitution : (before rest : Text) → s ≢ before ++ (lit "$(" ++ rest)

-- A command with or without arguments.
abbrev pub Invokes : Text → Text → Type 0
Invokes name cmd = (cmd ≡ name) ⊎ ((args : Text) × (cmd ≡ name ++ (lit " " ++ args)))
