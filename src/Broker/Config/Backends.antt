-- ===== src/Broker/Config/Backends.antt =====
-- broker/config/repository.go: which database the settings choose. os.Getenv is a function from a
-- variable's name to its value, "" for one that is not set.
use bunshin.Prelude.{
  Bool, true, false, not, [], ◌∷◌, ◌≡◌, ◌≢◌, ◌⊎◌, inl, inr, refl, sym, ◌∙◌, subst, is_empty,
  if◌then◌else◌, Bool-cases,
}
use bunshin.Text.{Text, lit, text_eq, trim_space}
use bunshin.Text.Laws.{text_eq_iff}
use bunshin.Broker.Config.{
  Setting, configured, refused, ConfigError, missing, unsupported, unpaired_keys,
}

-- store.DynamoConfig.
pub record DynamoConfig : Type 0 where
  pub region : Text
  pub access_key : Text
  pub secret_key : Text
  pub endpoint : Text

-- The factory that is called, with its arguments.
pub data Backend : Type 0 where
  dynamo_backend : DynamoConfig → Backend
  firestore_backend : Text → Text → Backend

abbrev pub differs : Bool → Bool → Bool
differs true b = not b
differs false b = b

-- newDynamoFromEnv, from the values of its variables.
unfoldable pub new_dynamo_from_env : DynamoConfig → Setting Backend
new_dynamo_from_env cfg =
    if is_empty cfg.region
    then refused (missing (lit "AWS_REGION"))
    else if differs (is_empty cfg.access_key) (is_empty cfg.secret_key)
    then refused unpaired_keys
    else configured (dynamo_backend cfg)

-- newFirestoreFromEnv, from the values of its variables.
unfoldable pub new_firestore_from_env : Text → Text → Setting Backend
new_firestore_from_env project database =
    if is_empty project
    then refused (missing (lit "GOOGLE_CLOUD_PROJECT"))
    else if is_empty database
    then refused (missing (lit "FIRESTORE_DATABASE"))
    else configured (firestore_backend project database)

abbrev pub dynamo_config : (Text → Text) → DynamoConfig
dynamo_config env = record {
  region = env (lit "AWS_REGION");
  access_key = env (lit "AWS_ACCESS_KEY_ID");
  secret_key = env (lit "AWS_SECRET_ACCESS_KEY");
  endpoint = env (lit "DYNAMODB_ENDPOINT");
}

abbrev pub backend_of_kind : (Text → Text) → Text → Setting Backend
backend_of_kind env kind =
    if text_eq kind (lit "dynamodb")
    then new_dynamo_from_env (dynamo_config env)
    else if text_eq kind (lit "firestore")
    then new_firestore_from_env (env (lit "GOOGLE_CLOUD_PROJECT")) (env (lit "FIRESTORE_DATABASE"))
    else if is_empty kind
    then refused (missing (lit "BUNSHIN_STORE"))
    else refused (unsupported kind)

-- NewRepositoryFromEnv.
unfoldable pub new_repository_from_env : (Text → Text) → Setting Backend
new_repository_from_env env = backend_of_kind env (trim_space (env (lit "BUNSHIN_STORE")))

-- A backend with its name and all that it needs.
abbrev pub IsChosen : Text → Backend → Type 0
IsChosen kind (dynamo_backend cfg) =
    (kind ≡ lit "dynamodb")
    × (cfg.region ≢ [])
    × (((cfg.access_key ≡ []) × (cfg.secret_key ≡ []))
        ⊎ ((cfg.access_key ≢ []) × (cfg.secret_key ≢ [])))
IsChosen kind (firestore_backend project database) =
    (kind ≡ lit "firestore") × (project ≢ []) × (database ≢ [])

refused-ne-configured :
    {e : ConfigError} {b : Backend} → ◌≡◌ {A = Setting Backend} (refused e) (configured b) → ⊥
refused-ne-configured e = cc

is_configured : (b b' : Backend) → ◌≡◌ {A = Setting Backend} (configured b) (configured b') → b ≡ b'
is_configured b b' e = cc

pairs :
    (a s : Text)
    → differs (is_empty a) (is_empty s) ≡ false
    → ((a ≡ []) × (s ≡ [])) ⊎ ((a ≢ []) × (s ≢ []))
pairs [] [] h = inl (refl, refl)
pairs [] (c ∷ s) h = cc
pairs (c ∷ a) [] h = cc
pairs (c ∷ a) (d ∷ s) h = inr (λ e. cc, λ e. cc)

filled : (s : Text) → is_empty s ≡ false → s ≢ []
filled [] h e = cc
filled (c ∷ s) h e = cc

dynamo-IsChosen :
    (kind : Text) (cfg : DynamoConfig) (b : Backend)
    → kind ≡ lit "dynamodb"
    → new_dynamo_from_env cfg ≡ configured b
    → IsChosen kind b
unfolding new_dynamo_from_env
dynamo-IsChosen kind cfg b named h = elim (Bool-cases (is_empty cfg.region)) [
  | inl unset ↦ absurd (
      refused-ne-configured {e = missing (lit "AWS_REGION")}
        (sym (simp (unset, new_dynamo_from_env)) ∙ h))
  | inr is_set ↦ elim (Bool-cases (differs (is_empty cfg.access_key) (is_empty cfg.secret_key))) [
    | inl unpaired ↦ absurd (
        refused-ne-configured {e = unpaired_keys}
          (sym (simp (is_set, unpaired, new_dynamo_from_env)) ∙ h))
    | inr paired ↦
        subst (IsChosen kind)
          (is_configured (dynamo_backend cfg) b
            (sym (simp (is_set, paired, new_dynamo_from_env)) ∙ h))
          (named, filled cfg.region is_set, pairs cfg.access_key cfg.secret_key paired)
  ]
]

firestore-IsChosen :
    (kind project database : Text) (b : Backend)
    → kind ≡ lit "firestore"
    → new_firestore_from_env project database ≡ configured b
    → IsChosen kind b
unfolding new_firestore_from_env
firestore-IsChosen kind [] database b named h = cc
firestore-IsChosen kind (c ∷ project) [] b named h = cc
firestore-IsChosen kind (c ∷ project) (d ∷ database) b named h =
    subst (IsChosen kind) (is_configured (firestore_backend (c ∷ project) (d ∷ database)) b h)
      (named, λ e. cc, λ e. cc)

chosen :
    (env : Text → Text) (b : Backend) (kind : Text)
    → backend_of_kind env kind ≡ configured b
    → IsChosen kind b
chosen env b kind h = elim (Bool-cases (text_eq kind (lit "dynamodb"))) [
  | inl dynamo ↦
      dynamo-IsChosen kind (dynamo_config env) b ((text_eq_iff kind (lit "dynamodb")).0 dynamo)
        (sym (simp (dynamo, backend_of_kind)) ∙ h)
  | inr not_dynamo ↦ elim (Bool-cases (text_eq kind (lit "firestore"))) [
    | inl firestore ↦
        firestore-IsChosen kind (env (lit "GOOGLE_CLOUD_PROJECT")) (env (lit "FIRESTORE_DATABASE"))
          b ((text_eq_iff kind (lit "firestore")).0 firestore)
          (sym (simp (not_dynamo, firestore, backend_of_kind)) ∙ h)
    | inr neither ↦ elim (Bool-cases (is_empty kind)) [
      | inl unset ↦ absurd (
          refused-ne-configured {e = missing (lit "BUNSHIN_STORE")}
            (sym (simp (not_dynamo, neither, unset, backend_of_kind)) ∙ h))
      | inr unknown ↦ absurd (
          refused-ne-configured {e = unsupported kind}
            (sym (simp (not_dynamo, neither, unknown, backend_of_kind)) ∙ h))
    ]
  ]
]

-- A backend that NewRepositoryFromEnv chooses is the one that BUNSHIN_STORE names without the space
-- around it: "dynamodb" with a region and with both of its keys or neither, or "firestore" with a
-- project and a database.
pub new_repository_from_env-IsChosen :
    (env : Text → Text) (b : Backend)
    → new_repository_from_env env ≡ configured b
    → IsChosen (trim_space (env (lit "BUNSHIN_STORE"))) b
unfolding new_repository_from_env
new_repository_from_env-IsChosen env b h = chosen env b (trim_space (env (lit "BUNSHIN_STORE"))) h
