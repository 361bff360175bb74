-- ===== src/Lib.antt =====
-- A verification library for flink-sql-go, a Go client of the Apache Flink SQL Gateway.
--
-- The program. A client (flinksqlgateway/client.go) finds out once which release and API version the
-- server has, opens and closes sessions, configures a new session by a declared setup, submits
-- statements and reads their results page by page. Rows of a changelog result go into a materializer
-- (flinksqlgateway/changelog), which keeps the current table. Every request of a session goes behind
-- the version check; a setup is compiled to SQL before any request, then applied step by step to one
-- session, which is closed again if the setup fails. Requests go through one transport
-- (flinksqlgateway/transport.go), which retries only safe ones and says how far a failed one came; from that
-- the execution of a statement decides what it may report, and it closes its operation in the end. A managed
-- session has heartbeats, and takes no statement once it is gone. The changelog materializer stands alone: its
-- caller passes it rows.
--
-- The files, and the code that they model:
--   Go             what the source uses of strings, bytes, strconv, utf8 and unicode, over bytes.
--                  TrimSpace, ValidString and IsControl are exact; ToLower in Go/Text is exact for
--                  ASCII, which is all that a version can consist of.
--   Changelog      flinksqlgateway/changelog/materializer.go with RowAccessor.Raw of decoder.go: Row
--                  (accessor), State (Apply, rowKey, removeOrder, Snapshot, ApplyUpdate), Options
--                  (NewMaterializer); View is the abstract ordered table and its step.
--   Compatibility  flinksqlgateway/compatibility.go, and the version functions of config.go, session.go
--                  and client.go: Profile (registry, capabilities), Version (versions), Selection
--                  (selectAPIVersion), Check (CheckAPIVersion, compatibilityForCapability).
--   Session        flinksqlgateway/session.go and security.go: Handle, State (OpenSession, CloseSession
--                  by critical sections, the memory of closed handles), Flight (interleavings).
--   Serialized     flinksqlgateway/activity.go and serialized_session.go: Activity (the group), Gate (the
--                  steps of execute, stream and closeLocal), for any number of concurrent calls.
--   Results        flinksqlgateway/result.go and result_stream.go: Consume (consumeResults,
--                  validateResultRows), Stream (Next and Close of a stream), Reading (the loop of a caller).
--   Transport      flinksqlgateway/transport.go: Message and Path (what an error shows), Response (what an
--                  exchange comes to), Request (doJSON and its retry).
--   Execution      flinksqlgateway/operation.go and poller.go: Statement (ExecuteStatement), Operation (the
--                  requests about one), Run (runExecution, ExecuteAndWait, StreamResults).
--   Managed        flinksqlgateway/heartbeat.go and managed_session.go: Heartbeat (runHeartbeat and its
--                  channels), Health (monitorHeartbeat, setHealth, as a step relation), Lifecycle
--                  (OpenManagedSession, the critical sections of closeWithContext).
--   Values         flinksqlgateway/decoder.go: Types (logical types, values), Scalar and Decode (Decode of the
--                  default decoder), Accessor (ValueAt and the accessors of one type).
--   Config         flinksqlgateway/config.go: Fields (defaults, checks of one field), Normalize (normalize as a
--                  whole, redirects); flinksqlgateway/security.go: NextResult (validateNextResultURI).
--   Endpoints      flinksqlgateway/script.go, materialized_table.go and session.go: Submit (what the requests
--                  share), Deploy (DeployScript, RefreshMaterializedTable), SessionCalls (ConfigureSession,
--                  CompleteStatement, GetSessionConfig, Heartbeat).
--   Errors         flinksqlgateway/errors.go: Tree (the error types, Unwrap and Is), Text (their texts).
--   Metadata       flinksqlgateway/metadata.go: Name (the statements with their quoted names), Text (fields and
--                  rows), Query (the queries).
--   Recipe         flinksqlgateway/session_recipe.go: Replay (OpenSessionFromRecipeWithOptions).
--   Setup          flinksqlgateway/session_setup_compile.go and session_setup.go: Quote, Checks, Compile
--                  (compileSessionSetupPlan), Apply (applyCompiledSessionSetup), Entry (ApplySessionSetup,
--                  OpenSessionWithSetup), SetupGate (acquireSessionSetup, as a step relation).
-- The other modules state and prove, and each Examples tests and applies what is proved beside it.
--
-- Conventions. A Go string is a list of bytes. A map is an association list, and a nil value an Option.
-- Go's int is a natural number where the code can only reach those, and otherwise the integers of
-- Prelude. A function that fails returns a Result; the errors are the kinds that callers can tell apart;
-- Errors has the types and texts behind them. Deep copies are values. A method that holds one mutex
-- throughout is one step; where a call gives the mutex up, as CloseSession does, each critical section
-- is a function of its own.
--
-- Fuel. itoa takes n + 1 rounds for n, each of which divides by ten. The characters of a text take as many
-- rounds as it has bytes, each of which takes at least one. The loop over result pages takes one round more
-- than the allowed polls, and every round that goes on has polled; so does a call of Next on a stream. A
-- caller that reads a stream to its end makes one call more than the allowed rows. All other loops are
-- structural.
--
-- Parameters. Validity and the compact form of JSON are the record Json of Changelog/Row; Go's letters
-- and case tables are the record Unicode of Setup/Plan. What the server and the statement validator answer
-- is an argument of the definition that asks. The parsers behind the value decoder are the record Codec of
-- Values/Types. For the transport the exchanges with their progress, the JSON of bodies and the path of a
-- URL are arguments (the records Client and Exchange of Transport/Request). sort.Slice puts equal elements
-- in no set order; sort_by_number and sort_longest put them in one. The order of an options map is the
-- order of its list. url.Parse, ResolveReference and the comparison of hosts are arguments in Config, and
-- what a run, an opening or a close returns is one in Metadata and Recipe.
--
-- Not modelled: HTTP itself, JSON parsing, contexts and time limits, observations, the wait of a second caller
-- for the result of the first, the order in which Close of the client stops its parts, build information, and
-- the package flinkrest.
mod Prelude
pub mod Go
pub mod Changelog
pub mod Compatibility
pub mod Session
pub mod Serialized
pub mod Results
pub mod Setup
pub mod Transport
pub mod Execution
pub mod Managed
pub mod Values
pub mod Metadata
pub mod Recipe
pub mod Config
pub mod Errors
pub mod Endpoints
