-- ===== src/Lib.antt =====
-- Verification of clawbot-server, the control plane for runs: a development over the Go sources
-- under internal/platform and internal/db.
--
-- The runs service (internal/platform/runs) takes requests of an actor: create, update and review a
-- run, create and update a cycle of a week run, attach an artifact, set a comparison, register a model
-- profile, execute a run. A request is normalised and validated, most ask the policy, whose decision
-- is recorded outside any transaction, and the rest is one transaction on PostgreSQL that ends with
-- audit events. The dashboard (internal/platform/ops) keeps services, schedulers and a log of
-- activity in memory under one lock.
--
-- Base             names of the libraries, tests on numbers and texts; Base.Lists and Base.Int
-- Text             Go's strings functions; Text.Number is strconv.Atoi, Text.Digits prints numbers and
--                  times, Text.Trimming has the laws of TrimSpace,
--                  Text.Bytes the length and the cut of a text by its bytes
-- Json             decoded JSON, and a json.RawMessage by what the code can see of it
-- Runs.Types       the structs of runs/types.go and runs/clients.go, field by field
-- Runs.Failure     the errors of the service, one constructor for each message
-- Runs.Status      the words of runs/types.go and the isValid... functions; Runs.CycleKey isValidCycleKey
-- Runs.Refs        dedupeAndTrimStrings and appendUnique
-- Runs.Namespace   normalizeMemoryNamespace and composeMemoryNamespace
-- Runs.Normalize   the normalize... and validate... functions of the inputs
-- Runs.Merge       mergeRun and mergeCycle
-- Runs.Policy      buildPolicyInput and evaluatePolicyOutcome
-- Runs.Config      DependencyConfig and the defaults that NewManagerWithIntegrations fills in
-- Runs.Compact     the compact payload of an inference, with limitStrings
-- Runs.Payloads    the other summaries, payloads and prompts of an execution
-- Runs.Timeouts    deriveInferencePhaseTimeouts
-- Runs.Store       the tables, the outside world and Postgres.InTx as actions: functions of the world
--                  that give a result or a failure and the world after it. Store.Quiet, Store.Steps,
--                  Store.Outcomes and Store.Returns have one proof rule for each way to build an action
-- Runs.Repository  the statements of runs/repository.go, recordAudit and RecordRunIntent;
--                  Repository.Tables says what each does to the tables
-- Runs.Clients     the inference client of runs/clients.go: Clients.Content and Clients.Scores read what
--                  models write, Clients.Prompts writes what they are sent, Clients.Ollama calls local
--                  models and Clients.Gateway the gateway; Clients.Resolved joins it to the service
-- Runs.Service     the operations of runs/service.go; Service.Requests puts them behind one type of
--                  requests and defines histories of requests; Requests.Gate, Requests.Created,
--                  Requests.Accepted and Requests.Reviews are about single operations. Service.Reads has List,
--                  Get and DependencyHealth. Service.Execute is executeRun: the policy and the order of
--                  the phases, which are in Service.Execution (resolveExecutionCycle, helperRequested,
--                  markExecutionPolicyFailure), Service.Phases (memory, the deterministic summary, the
--                  comparison), Service.Inference and Service.Finish
-- Ops              the Manager of ops/service.go; Ops.Seeds, Ops.Counts (Overview)
-- Registry         the registries of platform/bots and platform/policies: their operations over a kind of
--                  rows (Kind), which Registry.Bots and Registry.Policies fill in; Registry.Keeps has the
--                  proof rules of their transactions
-- Migrator         db/migrator.go: Migrator.Files is loadMigrations, Migrator.Pool ApplyAll and DownOne
--
-- The registries of bots and of policies (internal/platform/bots, internal/platform/policies) create,
-- update and list rows, each change with an audit event in the same transaction. Their state in Registry
-- is the table, the audit events of its kind, and the number of calls made.
--
-- The migrator (internal/db) reads the embedded migrations, applies to the database those whose
-- version is not recorded, each in a transaction, and takes the latest one back. Its state in
-- Migrator.Pool is the recorded versions and the rest of the database, of any type; what is outside
-- (Outside) says which calls succeed and what a script does. A table of versions that is not there is
-- an empty one, since it is created before it is read, and a script does not touch that table.
--
-- The world of Runs.Store holds the tables, newest row first, and the number of calls made outside so
-- far. The environment (Env) is a parameter: the clock, the identifiers that the database draws,
-- whether a statement succeeds, the row that the query for the latest governance event finds, the hash
-- of an event, and the answers of the memory and inference services, each as a function of the number
-- of calls made before. So every theorem holds for every outcome of every call. NOW() is the start of
-- the open transaction, or the clock outside one. A statement that the database refuses for a reason
-- not written out (a connection, an identifier that is no UUID, a foreign key) is one that fails.
-- The one promise asked of the environment is PicksLatest, that of ORDER BY created_at DESC LIMIT 1,
-- and only where a theorem says so; Runs.Tests.Worlds has an environment that meets it.
--
-- A time is a natural number of nanoseconds, a float64 is counted in thousandths, a pointer is an
-- option. A float64 out of the range of int is made the lowest int, as on amd64. The unique keys of
-- the tables are those of internal/db/migrations. A panic is the failure nil_map_write, which rolls
-- a transaction back. All loops are structural recursion, so no fuel is chosen, but for the count
-- of digits in Text.Digits, whose fuel is the number itself.
--
-- The inference client of Runs.Clients is a function of what its calls reply; it is not wired into
-- Runs.Store, where the answer of the inference service is any answer. In it, a position in a text
-- counts characters, where Go counts bytes, and a score is a number, so the texts that
-- strconv.ParseFloat reads as NaN or as infinite are not covered.
--
-- Not modelled: the memory client, deadlines of calls, the watchlist integration, configuration, HTTP
-- and the wiring of the program; the reads of the dashboard, which only sort or copy. Unicode lower
-- case is exact on ASCII and on the letters that become ASCII. Concurrent requests are a sequence of
-- requests.
pub mod Base
pub mod Text
pub mod Json
pub mod Runs
pub mod Ops
pub mod Migrator
pub mod Registry
