-- ===== src/Runner/Manager.antt =====
-- runner/shell_manager.go: the shells by their ids. A shell is a number, given in the order in which
-- they are started; the source's generator, factory and Close are parameters. A call whose Close never
-- returns does not return either: its result is `ok none`, with the state that other calls find.
pub mod Counts
pub mod Closings
pub mod Accounts
pub mod Requests
use bunshin.Prelude.{
  ℕ, suc, Bool, true, false, List, [], ◌∷◌, ◌++◌, Option, none, some, if◌then◌else◌,
}
use bunshin.Text.{Text, text_eq}
use bunshin.Outcome.{Outcome, Act, ok, err, diverged}

pub data ManagerError : Type 0 where
  id_failed start_failed close_failed : ℕ → ManagerError
  duplicate_id : Text → ManagerError
  shell_not_found : ManagerError

-- The shells of the map, the number of the next shell, those whose Close has been called, and those
-- that a CloseAll has taken out of the map and does not come to, since it waits for another one.
pub record ShellManager : Type 0 where
  pub shells : List (Text × ℕ)
  pub next_shell : ℕ
  pub closed : List ℕ
  pub stranded : List ℕ

-- What becomes of a call of Close.
pub data Closing : Type 0 where
  closes : Closing
  close_fails : ℕ → Closing
  never_closes : Closing

-- The result of genID or newShell.
pub data Given (A : Type 0) : Type 0 where
  given : A → Given A
  failing : ℕ → Given A

unfoldable pub find_shell : Text → List (Text × ℕ) → Option ℕ
find_shell id [] = none
find_shell id ((key, shell) ∷ shells) = if text_eq key id then some shell else find_shell id shells

-- delete(m.shells, id).
unfoldable pub remove_shell : Text → List (Text × ℕ) → List (Text × ℕ)
remove_shell id [] = []
remove_shell id ((key, shell) ∷ shells) =
    let rest = remove_shell id shells in if text_eq key id then rest else (key, shell) ∷ rest

abbrev pub close_shell : ℕ → ShellManager → ShellManager
close_shell shell m = record m { closed = shell ∷ m.closed }

-- NewShellManager.
abbrev pub new_shell_manager : ShellManager
new_shell_manager = record { shells = []; next_shell = 0; closed = []; stranded = [] }

-- Get.
unfoldable pub get_shell : Text → Act ShellManager ManagerError ℕ
get_shell id m = elim (find_shell id m.shells) [
  | none ↦ err shell_not_found m
  | some shell ↦ ok shell m
]

abbrev pub shell_numbers : List (Text × ℕ) → List ℕ
shell_numbers [] = []
shell_numbers ((id, shell) ∷ shells) = shell ∷ shell_numbers shells

abbrev pub first_error : Option ℕ → ℕ → Option ℕ
first_error none e = some e
first_error (some d) e = some d

-- The return of CloseAll with the first error.
abbrev pub close_all_result :
    Outcome ShellManager ManagerError (Option (Option ℕ))
    → Outcome ShellManager ManagerError (Option (Unit {0}))
close_all_result (ok (some none) m) = ok (some tt) m
close_all_result (ok (some (some e)) m) = err (close_failed e) m
close_all_result (ok none m) = ok none m
close_all_result (err e m) = err e m
close_all_result diverged = diverged

-- The manager after a call, whatever it returned.
abbrev pub after : {A : Type 0} → ShellManager → Outcome ShellManager ManagerError A → ShellManager
after m (ok a m') = m'
after m (err e m') = m'
after m diverged = m

-- A request that creates a shell or deletes one.
pub data ShellRequest : Type 0 where
  creates : Given Text → Given (Unit {0}) → ShellRequest
  deletes : Text → ShellRequest

module _ (close : ℕ → Closing) where
  -- The Close of a shell whose id is taken, and whose error is dropped.
  abbrev pub close_duplicate : Text → ℕ → Act ShellManager ManagerError (Option (Text × ℕ))
  close_duplicate id shell m = elim (close shell) [
    | closes ↦ err (duplicate_id id) (close_shell shell m)
    | close_fails e ↦ err (duplicate_id id) (close_shell shell m)
    | never_closes ↦ ok none (close_shell shell m)
  ]

  -- The part of Create behind the lock, for the shell that has been started.
  abbrev pub add_shell : Text → Option ℕ → Act ShellManager ManagerError (Option (Text × ℕ))
  add_shell id (some old) m =
      close_duplicate id m.next_shell (record m { next_shell = suc m.next_shell })
  add_shell id none m =
      ok (some (id, m.next_shell))
        (record m { shells = (id, m.next_shell) ∷ m.shells; next_shell = suc m.next_shell })

  -- Create.
  unfoldable pub create :
      Given Text → Given (Unit {0}) → Act ShellManager ManagerError (Option (Text × ℕ))
  create (failing e) start m = err (id_failed e) m
  create (given id) (failing e) m = err (start_failed e) m
  create (given id) (given _) m = add_shell id (find_shell id m.shells) m

  abbrev pub close_result : ℕ → Act ShellManager ManagerError (Option (Unit {0}))
  close_result shell m = elim (close shell) [
    | closes ↦ ok (some tt) (close_shell shell m)
    | close_fails e ↦ err (close_failed e) (close_shell shell m)
    | never_closes ↦ ok none (close_shell shell m)
  ]

  -- Delete.
  unfoldable pub delete_shell : Text → Act ShellManager ManagerError (Option (Unit {0}))
  delete_shell id m = elim (find_shell id m.shells) [
    | none ↦ err shell_not_found m
    | some shell ↦ close_result shell (record m { shells = remove_shell id m.shells })
  ]

  -- The loop of CloseAll, with the first error.
  unfoldable pub close_each :
      List (Text × ℕ) → Option ℕ → Act ShellManager ManagerError (Option (Option ℕ))
  close_each [] first m = ok (some first) m
  close_each ((id, shell) ∷ shells) first m = elim (close shell) [
    | closes ↦ close_each shells first (close_shell shell m)
    | close_fails e ↦ close_each shells (first_error first e) (close_shell shell m)
    | never_closes ↦
        ok none
          (record m { closed = shell ∷ m.closed; stranded = shell_numbers shells ++ m.stranded })
  ]

  -- CloseAll.
  unfoldable pub close_all : Act ShellManager ManagerError (Option (Unit {0}))
  unfolding close_each
  close_all m = close_all_result (close_each m.shells none (record m { shells = [] }))

  -- The manager's part of POST and DELETE /api/shell.
  abbrev pub serve_request : ShellRequest → ShellManager → ShellManager
  serve_request (creates id started) m = after m (create id started m)
  serve_request (deletes id) m = after m (delete_shell id m)

  unfoldable pub serve_requests : List ShellRequest → ShellManager → ShellManager
  serve_requests [] m = m
  serve_requests (call ∷ calls) m = serve_requests calls (serve_request call m)
