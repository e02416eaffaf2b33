-- ===== src/Broker/Store/Dynamo/Assign.antt =====
-- assignSession and assignFirst: what they do to the base table, whatever an index said.
use bunshin.Prelude.{
  List, [], ◌∷◌, Option, none, some, true, ap, ◌∙◌, ◌≡◌, refl, ◌≢◌, inl, inr, arith, Bool-cases,
  if◌then◌else◌,
}
use bunshin.Text.{Text, lit, text_eq}
use bunshin.Outcome.{Outcome, ok, err, diverged, ended, with_ok, with_err, never}
use bunshin.Broker.Model.{Runner, state_busy}
use bunshin.Broker.Store.{StoreError, no_idle_runner, condition_failed}
use bunshin.Broker.Store.Dynamo.Api.{
  Item, member_s, DynamoError, QueryInput, conditional_check_failed, DynamoApi, Marshaller,
  assign_input,
}
use bunshin.Broker.Store.Dynamo.{
  is_conditional_check_failed, wrapped, is_condition_failed, was_tried, assign_session,
  assign_first,
}
use bunshin.Broker.Store.Dynamo.Laws.{TableLaws, CallsEnd, get_attribute, taken_item}

module _ {W : Type 0} {api : DynamoApi W} {table_name : Text}
    (base : TableLaws api table_name) where
  open base use {Table, item_at, size}

  -- The step from `t` to `t'` makes an idle item busy with the session, and changes nothing else.
  pub record IsTaken (session id : Text) (t t' : Table) : Type 0 where
    pub item : Item
    pub held : item_at t id ≡ some item
    pub was_idle : get_attribute (lit "state") item ≡ some (member_s (lit "idle"))
    pub written :
        (j : Text)
        → item_at t' j ≡ (if text_eq j id then some (taken_item session item) else item_at t j)
    pub same_size : size t' ≡ size t

module _ {W : Type 0} (api : DynamoApi W) (marshaller : Marshaller) (table_name : Text) where
  assign_session-eq-ok :
      (id session : Text) (w w' : W)
      → assign_session api marshaller table_name id session w ≡ ok tt w'
      → api.update_item (assign_input table_name id session) w ≡ ok tt w'
  unfolding assign_session is_conditional_check_failed wrapped
  assign_session-eq-ok id session w w' e = ground arith

  pub assign_session-eq-failed :
      (id session : Text) (w w' : W)
      → assign_session api marshaller table_name id session w ≡ err condition_failed w'
      → api.update_item (assign_input table_name id session) w ≡ err conditional_check_failed w'
  unfolding assign_session is_conditional_check_failed wrapped
  assign_session-eq-failed id session w w' e = ground arith

  pub assign_session_errors :
      (id session : Text) (w w' : W)
      → assign_session api marshaller table_name id session w ≢ err no_idle_runner w'
  unfolding assign_session is_conditional_check_failed wrapped
  assign_session_errors id session w w' e = ground arith

  pub assign_session_ends :
      CallsEnd api table_name
      → (id session : Text) (w : W)
      → assign_session api marshaller table_name id session w ≢ diverged
  unfolding assign_session is_conditional_check_failed wrapped
  assign_session_ends ends id session w e = ground (arith, ends.update_ends id session w)

module _ {W : Type 0} {api : DynamoApi W} {table_name : Text} (base : TableLaws api table_name)
    (marshaller : Marshaller) where
  open base use {table}

  pub assign_session-ok :
      (id session : Text) (w w' : W)
      → assign_session api marshaller table_name id session w ≡ ok tt w'
      → IsTaken base session id (table w) (table w')
  assign_session-ok id session w w' e =
      let (item, held, idle, written, sized) =
        base.update_ok id session w w'
          (assign_session-eq-ok api marshaller table_name id session w w' e) in
      record { item = item; held = held; was_idle = idle; written = written; same_size = sized }

  -- The world that a call left.
  abbrev Left : {A : Type 0} → Outcome W DynamoError A → W → Type 0
  Left (ok a w') u = w' ≡ u
  Left (err e w') u = w' ≡ u
  Left diverged u = ⊥

  -- The calls of a search that has not taken a runner yet lead from one world to another: queries,
  -- and conditional updates that the table refused.
  pub data Searches (session : Text) : W → W → Type 0 where
    here : {w : W} → Searches session w w
    query_call :
        {w u v : W} (input : QueryInput)
        → Left (api.query input w) u
        → Searches session u v
        → Searches session w v
    refused_call :
        {w u v : W} (id : Text)
        → api.update_item (assign_input table_name id session) w ≡ err conditional_check_failed u
        → Searches session u v
        → Searches session w v

  pub Searches-append :
      {session : Text} {w u v : W}
      → Searches session w u
      → Searches session u v
      → Searches session w v
  Searches-append here s = s
  Searches-append (query_call input left rest) s = query_call input left (Searches-append rest s)
  Searches-append (refused_call id refused rest) s =
      refused_call id refused (Searches-append rest s)

  -- From `w`, a search led to the world `before`, in which the runner that it returned was idle, and
  -- its conditional update led from there to `w'`, where the runner is taken.
  pub record IsAcquired (session : Text) (w w' : W) (r : Runner) : Type 0 where
    pub before : W
    pub searched : Searches session w before
    pub updated : api.update_item (assign_input table_name r.runner_id session) before ≡ ok tt w'
    pub taken : IsTaken base session r.runner_id (table before) (table w')
    pub is_busy : r.state ≡ state_busy
    pub in_session : r.current_session_id ≡ session

  abbrev pub AfterSearch : Text → W → Outcome W StoreError (Option Runner × List Text) → Type 0
  AfterSearch session w (ok (some r, tried) w') = IsAcquired session w w' r
  AfterSearch session w (ok (none, tried) w') = Searches session w w'
  AfterSearch session w (err e w') = Unit
  AfterSearch session w diverged = Unit

  pub IsAcquired-later :
      (session : Text) (w u w' : W) (r : Runner)
      → Searches session w u
      → IsAcquired session u w' r
      → IsAcquired session w w' r
  IsAcquired-later session w u w' r s a = record {
    before = a.before;
    searched = Searches-append s a.searched;
    updated = a.updated;
    taken = a.taken;
    is_busy = a.is_busy;
    in_session = a.in_session;
  }

  pub AfterSearch-later :
      (session : Text) (w u : W) (o : Outcome W StoreError (Option Runner × List Text))
      → Searches session w u
      → AfterSearch session u o
      → AfterSearch session w o
  AfterSearch-later session w u (ok (some r, tried) w') s a = IsAcquired-later session w u w' r s a
  AfterSearch-later session w u (ok (none, tried) w') s a = Searches-append s a
  AfterSearch-later session w u (err e w') s a = tt
  AfterSearch-later session w u diverged s a = tt

  is_condition_failed-eq : (e : StoreError) → is_condition_failed e ≡ true → e ≡ condition_failed
  unfolding is_condition_failed
  is_condition_failed-eq e h = ground arith

  pub assign_first-AfterSearch :
      (session : Text) (candidates : List Runner) (tried : List Text) (w : W)
      → AfterSearch session w (assign_first api marshaller table_name session candidates tried w)
  unfolding assign_first
  assign_first-AfterSearch session [] tried w = here
  assign_first-AfterSearch session (r ∷ candidates) tried w =
      elim (Bool-cases (was_tried r.runner_id tried)) [
        | inl seen ↦ rw (seen, assign_first) (assign_first-AfterSearch session candidates tried w)
        | inr fresh ↦
            elim (ended (assign_session api marshaller table_name r.runner_id session w)) [
              | never p ↦ rw (fresh, p, assign_first) tt
              | with_ok a w' p ↦
                  rw (fresh, p, assign_first)
                    (record {
                      before = w;
                      searched = here;
                      updated =
                          assign_session-eq-ok api marshaller table_name r.runner_id session w w' p;
                      taken = assign_session-ok r.runner_id session w w' p;
                      is_busy = refl;
                      in_session = refl;
                    })
              | with_err e w' p ↦ elim (Bool-cases (is_condition_failed e)) [
                | inl failed ↦
                    let refused =
                      assign_session-eq-failed api marshaller table_name r.runner_id session w w'
                        (p ∙ ap (λ x. err x w') (is_condition_failed-eq e failed)) in
                    rw (fresh, p, failed, assign_first)
                      (AfterSearch-later session w w' _ (refused_call r.runner_id refused here)
                        (assign_first-AfterSearch session candidates (r.runner_id ∷ tried) w'))
                | inr other ↦ rw (fresh, p, other, assign_first) tt
              ]
            ]
      ]
