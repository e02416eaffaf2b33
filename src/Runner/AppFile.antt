-- ===== src/Runner/AppFile.antt =====
-- runner/handler.go: GET and PUT /api/app/handler. Requests run side by side; a move is one step of
-- one of them, and a request has a number that tells it from the others.
pub mod Slots
pub mod Writers
pub mod Whole
use bunshin.Prelude.{
  ℕ, suc, ◌^◌, Bool, true, false, List, [], ◌∷◌, ◌++◌, Option, none, some, is_empty, length, ltb,
  take, drop, ◌==◌, if◌then◌else◌,
}
use bunshin.Text.{Text, lit}
use bunshin.Runner.Api.{NetIp, client_address}

abbrev pub handler_app_max_size : ℕ
handler_app_max_size = 1048576

abbrev pub handler_update_class : Text
handler_update_class = lit "handler-update"

-- Values by numbers.
module _ {A : Type 0} where
  unfoldable pub get_slot : ℕ → List (ℕ × A) → Option A
  get_slot n [] = none
  get_slot n ((m, a) ∷ slots) = if m == n then some a else get_slot n slots

  unfoldable pub set_slot : ℕ → A → List (ℕ × A) → List (ℕ × A)
  set_slot n a [] = (n, a) ∷ []
  set_slot n a ((m, b) ∷ slots) =
      let rest = set_slot n a slots in if m == n then (m, a) ∷ slots else (m, b) ∷ rest

  unfoldable pub clear_slot : ℕ → List (ℕ × A) → List (ℕ × A)
  clear_slot n [] = []
  clear_slot n ((m, b) ∷ slots) =
      let rest = clear_slot n slots in if m == n then rest else (m, b) ∷ rest

-- A PUT inside os.WriteFile: the number of its temporary file, and what it has still to write.
pub record Writer : Type 0 where
  pub temp : ℕ
  pub remote : Text
  pub body : Text
  pub rest : Text

pub record AuditLine : Type 0 where
  pub class : Text
  pub remote : Text
  pub command : Text

-- The handler's file, the temporary files by their numbers, writeHandlerTmpCounter, the requests
-- under way, the audit log and the statuses replied.
pub record Files : Type 0 where
  pub handler_file : Option Text
  pub temps : List (ℕ × Text)
  pub counter : ℕ
  pub writers : List (ℕ × Writer)
  pub log : List AuditLine
  pub replies : List (ℕ × ℕ)

-- `put` brings a request with its client address header and its body, `write` lets os.WriteFile
-- write some more bytes, and the others are what the calls of package os return.
pub data Move : Type 0 where
  put : ℕ → Text → Text → Move
  write : ℕ → ℕ → Move
  write_failed rename rename_failed : ℕ → Move

abbrev pub reply : ℕ → ℕ → Files → Files
reply r status s = record s { replies = (r, status) ∷ s.replies }

-- handleGetAppHandler: the status and the data.
unfoldable pub handle_get_app : Files → ℕ × Text
handle_get_app s = elim s.handler_file [ none ↦ (500, []) | some data_ ↦ (200, data_) ]

-- The start of writeHandlerAtomically: the temporary file is there, and empty.
abbrev pub begin_write : ℕ → Text → Text → Files → Files
begin_write r remote body s = record s {
  counter = suc s.counter;
  temps = set_slot (suc s.counter) [] s.temps;
  writers =
      set_slot r (record { temp = suc s.counter; remote = remote; body = body; rest = body })
        s.writers;
}

-- handlePutAppHandler up to its first write, from the client address.
abbrev pub accept_from : ℕ → Text → Option Text → Files → Files
accept_from r body none s = reply r 400 s
accept_from r body (some remote) s =
    if ltb handler_app_max_size (length body) then reply r 400 s else begin_write r remote body s

abbrev pub write_more : ℕ → ℕ → Writer → Option Text → Files → Option Files
write_more r k v none s = none
write_more r k v (some text) s = some (record s {
  temps = set_slot v.temp (text ++ take k v.rest) s.temps;
  writers = set_slot r (record v { rest = drop k v.rest }) s.writers;
})

-- os.Rename over the handler's file, and the rest of the handler.
abbrev pub rename_over : ℕ → Writer → Option Text → Files → Option Files
rename_over r v none s = none
rename_over r v (some text) s =
    if is_empty v.rest
    then some (
        reply r 204 (record s {
          handler_file = some text;
          temps = clear_slot v.temp s.temps;
          writers = clear_slot r s.writers;
          log =
              s.log
              ++ (record { class = handler_update_class; remote = v.remote; command = v.body }
                  ∷ []);
        }))
    else none

abbrev pub remove_temp : ℕ → Writer → Files → Option Files
remove_temp r v s =
    if is_empty v.rest
    then some (
        reply r 500
          (record s { temps = clear_slot v.temp s.temps; writers = clear_slot r s.writers }))
    else none

-- The moves of a request under way.
go_on : Move → Option Writer → Files → Option Files
go_on m none s = none
go_on (put r header body) (some v) s = none
go_on (write r k) (some v) s = write_more r k v (get_slot v.temp s.temps) s
go_on (write_failed r) (some v) s =
    some (reply r 500 (record s { writers = clear_slot r s.writers }))
go_on (rename r) (some v) s = rename_over r v (get_slot v.temp s.temps) s
go_on (rename_failed r) (some v) s = remove_temp r v s

abbrev pub fresh_put : NetIp → ℕ → Text → Text → Option Writer → Files → Option Files
fresh_put net r header body none s = some (accept_from r body (client_address net header) s)
fresh_put net r header body (some v) s = none

-- One move; none if it is not possible.
unfoldable pub step : NetIp → Move → Files → Option Files
unfolding go_on
step net (put r header body) s = fresh_put net r header body (get_slot r s.writers) s
step net (write r k) s = go_on (write r k) (get_slot r s.writers) s
step net (write_failed r) s = go_on (write_failed r) (get_slot r s.writers) s
step net (rename r) s = go_on (rename r) (get_slot r s.writers) s
step net (rename_failed r) s = go_on (rename_failed r) (get_slot r s.writers) s

unfoldable pub run : NetIp → List Move → Files → Option Files
unfolding step
run net [] s = some s
run net (m ∷ moves) s = elim (step net m s) [ none ↦ none | some s' ↦ run net moves s' ]
