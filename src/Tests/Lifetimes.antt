-- ===== src/Tests/Lifetimes.antt =====
-- Examples for the start and the shutdown of both processes, and for the demo handler's file.
use bunshin.Prelude.{ℕ, true, List, [], ◌∷◌, none, some, ◌≡◌, refl, ◌⊎◌, Any, if◌then◌else◌}
use bunshin.Text.{Text, lit, text_eq}
use bunshin.Runner.Manager.{
  ShellManager, given, create, new_shell_manager, Closing, closes, after, creates,
}
use bunshin.Runner.Manager.Accounts.{start}
use bunshin.Runner.Main.{ServerConfig, Served, StartDeps, signalled, run}
use bunshin.Runner.Main
use bunshin.Runner.Main.Stops.{LeavesNone, start-LeavesNone}
use bunshin.Runner.Api.{NetIp, client_address}
use bunshin.Runner.AppFile.{Move, put, write, rename, rename_failed, Files}
use bunshin.Runner.AppFile
use bunshin.Runner.AppFile.Whole.{bodies, run_whole}
use bunshin.Broker.Main.{default_init_handler}
use bunshin.Broker.Main.Starts.{AsAsked, default_init_handler-AsAsked}
use bunshin.Tests.Joining.{pod}

abbrev always_closes : ℕ → Closing
always_closes shell = closes

abbrev two_shells : ShellManager
two_shells =
    let one =
      after new_shell_manager
        (create always_closes (given (lit "f0")) (given tt) new_shell_manager) in
    after one (create always_closes (given (lit "f1")) (given tt) one)

-- The world is the number of runners that the broker has.
abbrev config : ServerConfig ℕ
config = record {
  broker_url = lit "http://broker:8080";
  runner_id = lit "00";
  can_request = λ url. true;
  http_do = λ url w. (some 204, 0);
  shutdown = some 1;
  close = always_closes;
  supervisor_ends = true;
  late = creates (given (lit "f2")) (given tt) ∷ [];
}

abbrev served : Served ℕ
served = record { seen = signalled; world = 1; manager = two_shells }

abbrev deps : StartDeps ℕ
deps = record {
  listen_error = none;
  identity_deps = pod;
  broker_url = lit "http://broker:8080";
  http_post = λ post w. (some 201, 1);
  wait = λ w. (true, w);
  can_request = λ url. true;
  http_do = λ url w. (some 204, 0);
  shutdown = none;
  close = always_closes;
  supervisor_ends = true;
  late = [];
}

start-LeavesNone_example : LeavesNone (Main.start deps 1 (λ w. served) 0)
start-LeavesNone_example = start-LeavesNone deps 1 (λ w. served) 0

abbrev net : NetIp
net = record {
  parse_addr_port = λ value. some (value, 80);
  parse_addr = λ value. some value;
  addr_port_string = λ addr port. addr;
}

abbrev no_writers : Files
no_writers = record {
  handler_file = some (lit "old");
  temps = [];
  counter = 0;
  writers = [];
  log = [];
  replies = [];
}

-- Two requests write side by side; the second one is renamed first, and the first one fails then.
abbrev side_by_side : List Move
side_by_side =
    put 1 (lit "10.0.0.1") (lit "first")
    ∷ put 2 (lit "10.0.0.2") (lit "other")
    ∷ write 1 2
    ∷ write 2 5
    ∷ write 1 3
    ∷ rename 2
    ∷ rename_failed 1
    ∷ []

abbrev written : Files
written = record {
  handler_file = some (lit "other");
  temps = [];
  counter = 2;
  writers = [];
  log =
      (record { class = lit "handler-update"; remote = lit "10.0.0.2"; command = lit "other" })
      ∷ [];
  replies = (1, 500) ∷ (2, 204) ∷ [];
}

writes : AppFile.run net side_by_side no_writers ≡ some written
unfolding AppFile.run AppFile.get_slot client_address bunshin.Runner.Api.parse_client_address
    AppFile.set_slot AppFile.clear_slot
writes = refl

run_whole_example :
    (written.handler_file ≡ no_writers.handler_file)
    ⊎ ((b : Text) × (written.handler_file ≡ some b)
        × Any (λ (x : Text). b ≡ x) (bodies side_by_side))
run_whole_example = run_whole net side_by_side no_writers written refl writes

abbrev settings : Text → Text
settings name =
    if text_eq name (lit "RUNNER_API_PORT")
    then lit "8081"
    else if text_eq name (lit "BUNSHIN_STORE")
    then lit "firestore"
    else if text_eq name (lit "BUNSHIN_STACKS")
    then lit "gcp,aws"
    else lit "gcp"

default_init_handler-AsAsked_example : AsAsked settings (default_init_handler settings)
default_init_handler-AsAsked_example = default_init_handler-AsAsked settings
