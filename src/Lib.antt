-- ===== src/Lib.antt =====
-- Verification of the bunshin broker, which gives each session a runner of its own, and of the runner,
-- which executes a session's commands in bash.
--
-- The parts and how they interact. A request reaches a handler of the broker (broker/handler), which
-- calls the service (broker/service); the service calls a repository of runners (broker/store), which
-- is Firestore's or DynamoDB's, and a health checker (broker/healthcheck). When no runner is idle, the
-- handler names the next stack to try, from the list that the settings (broker/config,
-- broker/stacklist) put in order. broker/main.go puts these parts together. A runner finds out who it
-- is (runner/identity.go), registers with the broker until the broker takes it (runner/register.go),
-- serves its API and supervises the demo application (runner/supervisor.go), and at a signal takes
-- itself off the broker and closes its shells (runner/main.go). Its API (runner/handler.go) looks a
-- shell up in the shell manager (runner/shell_manager.go), classifies the command for the audit log
-- (runner/validate.go) and executes it (runner/shell.go), and it replaces the demo handler's file.
--
-- Files and the code that they model:
--   Broker/Model       broker/model/runner.go
--   Broker/Stacklist   broker/stacklist/stacklist.go: Split is split_names, Parse is parse
--   Broker/Config      broker/config/stack.go, runner_api_port.go and repository.go
--   Broker/Store       broker/store/repository.go; Contract is what the service relies on
--   Broker/Store/Firestore  broker/store/firestore.go, over FirestoreClientAPI; Laws is what Firestore
--                      documents of that interface for one client at a time
--   Broker/Store/Dynamo  broker/store/dynamo.go, over dynamoDBAPI: Api holds the inputs of its calls
--                      as the source writes them, Laws what DynamoDB documents for these inputs. The
--                      laws of the table are apart from those of its indexes, which may lag behind:
--                      IndexLaws, by which they have caught up, is a hypothesis of the theorems that
--                      need it, and only of those
--   Broker/Service     broker/service/service.go
--   Broker/HealthCheck broker/healthcheck/checker.go
--   Broker/Http        what the handlers read and write, and broker/model/error.go
--   Broker/Handler     broker/handler/handler.go and broker/handler/middleware.go
--   Broker/Main        broker/main.go
--   Runner/Identity    runner/identity.go
--   Runner/Registration  runner/register.go: register and deregister; Channel, Pool and Leaves put them
--                      together with the broker's handlers and its DynamoDB repository
--   Runner/Supervisor  runner/supervisor.go: supervise and superviseOnce as moves of the goroutine, of
--                      its child and of the context
--   Runner/Shell       runner/shell.go: ExecuteStream; Life is
--                      newBashShellFromCommander and Close, Marker is readStderr
--   Runner/Manager     runner/shell_manager.go
--   Runner/Validate    runner/validate.go
--   Runner/Api         runner/handler.go: shells, commands and the audit log
--   Runner/AppFile     runner/handler.go: the demo handler's file, whose requests run side by side
--   Runner/Main        runner/main.go
--   Tests              two in-memory databases, one that keeps Firestore's laws (Memory) and one that
--                      keeps DynamoDB's (Slot), and concrete runs
--
-- How code is modelled. A Go function that returns (A, error) and works on shared state is an Act of
-- Outcome: it takes the state and returns ok, err or, for a loop that ran out of fuel, diverged, with
-- the state that it left. Strings are lists of code points (Text), of bytes where bash writes them. Code
-- that runs side by side is a list of moves, of which each is possible in some states only: the supervisor and the requests that
-- write the demo handler's file. The calls of the service are sequential; the transaction of Firestore
-- and a call of DynamoDB are one step each.
--
-- Fuel. For the loop of createSession, more than the number of records is enough, since each round
-- deletes one. For the pages of a segment of Firestore in AcquireIdle, more than the number of
-- documents is enough, since each page moves the start behind a document. For those of DynamoDB, one
-- page for each segment is enough when the index has caught up and a query is not cut short, and the
-- theorem on AcquireIdle holds for all of the fuel above it; ListBusyRunners needs more than the number
-- of busy items. register may go on for ever, so its theorems hold for every number of rounds.
--
-- Waiting. A call that never returns is a result of its own: diverged, or none where its state is what
-- others find. So are an execution whose stderr never shows the marker, a Close that waits for a process
-- or a lock, and a supervisor whose child does not end.
--
-- Parameters: the clock, random ids and bytes, the Firestore client, the DynamoDB client and its
-- marshaller of items, HTTP requests and their answers, the metadata of ECS and its JSON, the moments at
-- which a context ends, what bash writes, what the calls of packages os and net return, package netip,
-- and gin, of which a request record holds what the handlers read.
--
-- Not modelled: the adapters that construct the clients of Firestore and DynamoDB
-- (broker/store/dynamo_adapter.go, broker/store/firestoreadapter), since they only call those
-- libraries; the tools for integration tests; logging; the text of the script that is sent to bash; the
-- command line of bash; and nginx, the front end, Terraform and the demo, which are in other languages.
pub mod Prelude
pub mod Text
pub mod Outcome
pub mod Broker
pub mod Runner
pub mod Tests
