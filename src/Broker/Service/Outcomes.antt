-- ===== src/Broker/Service/Outcomes.antt =====
-- What each outcome of ResolveSession says of the table.
use bunshin.Prelude.{
  true, false, [], ◌∷◌, ◌++◌, some, ◌≡◌, refl, sym, ap, ◌∙◌, ◌≢◌, ◌⊎◌, arith, Bool-cases, inl, inr,
}
use bunshin.Text.{Text, text_eq}
use bunshin.Text.Laws.{text_eq_iff, Lacks}
use bunshin.Outcome.{Outcome, ok, err, diverged}
use bunshin.Broker.Model.{Runner, state_idle}
use bunshin.Broker.Store.{StoreError, no_idle_runner, Repository}
use bunshin.Broker.Store.Contract.{Contract, SameTable}
use bunshin.Broker.Service.{
  BrokerService, ResolveResult, ServiceError, wraps_no_idle_runner, is_no_idle_runner,
  session_id_separator, namespaced_session_id, split_namespaced_session_id,
}
use bunshin.Broker.Service.Table.{IsUnique, IsFresh}

pub eq-of-is_no_idle_runner : (e : StoreError) → is_no_idle_runner e ≡ true → e ≡ no_idle_runner
eq-of-is_no_idle_runner no_idle_runner h = refl
eq-of-is_no_idle_runner _ h = cc

module _ {W : Type 0} {repo : Repository W} (c : Contract repo) (s : BrokerService W) where
  -- The ids that the service issues are not in the table.
  abbrev pub IssuesFresh : W → Type 0
  IssuesFresh w =
      (u u' : W) (hex : Text)
      → s.session_fn u ≡ ok hex u'
      → IsFresh c (namespaced_session_id repo s hex) w

  -- Runners that are busy with another session are left alone.
  abbrev pub KeepsOthers : Text → W → W → Type 0
  KeepsOthers old w w' =
      (j : Text) (r : Runner)
      → c.runner_at w j ≡ some r
      → r.state ≢ state_idle
      → r.current_session_id ≢ old
      → c.runner_at w' j ≡ some r

  abbrev pub NoneIdle : W → Type 0
  NoneIdle w = (j : Text) (r : Runner) → c.runner_at w j ≡ some r → r.state ≢ state_idle

  -- A session with its runner: in the table, and answering the health check.
  pub record IsResolved (old : Text) (w w' : W) (res : ResolveResult) : Type 0 where
    pub owner : Runner
    pub at : c.runner_at w' owner.runner_id ≡ some owner
    pub owns : owner.current_session_id ≡ res.session_id
    pub host : owner.private_host ≡ res.runner_host
    pub checked : (u : W) × (s.check res.runner_host u ≡ ok tt w')
    pub kept : KeepsOthers old w w'
    pub unique : IsUnique c w → IssuesFresh w → IsUnique c w'
    pub sound : c.IsSound w'
    pub filled : res.session_id ≢ []
    pub splits :
        Lacks session_id_separator s.stack_prefix
        → (prefix : Text) × (split_namespaced_session_id res.session_id
            ≡ some (prefix, res.session_hex))
    pub origin :
        ((res.created ≡ false) × (res.session_id ≡ old))
        ⊎ ((res.created ≡ true) × (res.session_id ≡ namespaced_session_id repo s res.session_hex))

  abbrev pub Good : Text → W → Outcome W ServiceError ResolveResult → Type 0
  Good old w (ok res w') = IsResolved old w w' res
  Good old w (err e w') = wraps_no_idle_runner e ≡ true → NoneIdle w'
  Good old w diverged = ⊥

  -- A step that may only remove the runner of the session `old`.
  pub record Narrows (old : Text) (w u : W) : Type 0 where
    pub kept : KeepsOthers old w u
    pub within : (j : Text) (r : Runner) → c.runner_at u j ≡ some r → c.runner_at w j ≡ some r

  pub SameTable-Narrows :
      (old : Text) (w u : W) → SameTable c.runner_at c.size c.IsSound w u → Narrows old w u
  SameTable-Narrows old w u same = record {
    kept = λ j r at busy other. same.same_runners j ∙ at;
    within = λ j r at. sym (same.same_runners j) ∙ at;
  }

  pub Narrows-trans : (old : Text) (w u v : W) → Narrows old w u → Narrows old u v → Narrows old w v
  Narrows-trans old w u v n m = record {
    kept = λ j r at busy other. m.kept j r (n.kept j r at busy other) busy other;
    within = λ j r at. n.within j r (m.within j r at);
  }

  Narrows-IsUnique : (old : Text) (w u : W) → Narrows old w u → IsUnique c w → IsUnique c u
  Narrows-IsUnique old w u n unique i j r q at at' =
      unique i j r q (n.within i r at) (n.within j q at')

  Narrows-IssuesFresh : (old : Text) (w u : W) → Narrows old w u → IssuesFresh w → IssuesFresh u
  Narrows-IssuesFresh old w u n fresh v v' hex issued j r at =
      fresh v v' hex issued j r (n.within j r at)

  pub Narrows-Good :
      (old : Text) (w u : W) (o : Outcome W ServiceError ResolveResult)
      → Narrows old w u
      → Good old u o
      → Good old w o
  Narrows-Good old w u (ok res w') n g = record {
    owner = g.owner;
    at = g.at;
    owns = g.owns;
    host = g.host;
    checked = g.checked;
    sound = g.sound;
    filled = g.filled;
    splits = g.splits;
    origin = g.origin;
    kept = λ j r at busy other. g.kept j r (n.kept j r at busy other) busy other;
    unique = λ unique fresh.
        g.unique (Narrows-IsUnique old w u n unique) (Narrows-IssuesFresh old w u n fresh);
  }
  Narrows-Good old w u (err e w') n g = g
  Narrows-Good old w u diverged n g = g

  -- Deleting the runner that was found for the session.
  pub delete-Narrows :
      (old : Text) (w u : W) (r : Runner)
      → c.IsSound w
      → c.runner_at w r.runner_id ≡ some r
      → r.current_session_id ≡ old
      → repo.delete r.runner_id w ≡ ok tt u
      → Narrows old w u
  delete-Narrows old w u r sound held owns del =
      let (gone, less, le, sound') = c.delete_ok r.runner_id w u sound del in
      record {
        kept = λ j x at busy other. elim (Bool-cases (text_eq j r.runner_id)) [
          | inr differs ↦ gone j ∙ rw differs at
          | inl same ↦
              let e : j ≡ r.runner_id = (text_eq_iff j r.runner_id).0 same in
              absurd (other (cc (ap (c.runner_at w) e)))
        ];
        within = λ j x at. ground (arith, gone j);
      }

  pub namespaced-filled : (hex : Text) → namespaced_session_id repo s hex ≢ []
  namespaced-filled hex = go s.stack_prefix
    where
      go : (p : Text) → p ++ (session_id_separator ∷ hex) ≢ []
      go [] e = cc
      go (x ∷ p) e = cc
