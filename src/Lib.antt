-- ===== src/Lib.antt =====
-- Verification of the BFF control plane's domain core (apps/control-api/src/bff_control).
--
-- The control API is a FastAPI service over PostgreSQL. A route decodes a request and calls a
-- domain service (domains/*/service.py); the service normalizes the input by the domain's policies
-- (domains/*/policies.py) and calls a repository (infrastructure/db/*_repository.py), with an
-- authorizer that the repository runs inside its transaction, between the rows it reads and locks
-- and the rows it writes. The development follows that order: every state-changing method of the
-- Connection, the Project and the Workspace domain is a definition, from the normalization of its
-- input to the audit row.
--
-- The files, and the code that they model:
-- - Prelude, Result: lists, sorting, integers and Boolean tests; the classes of exceptions and the
--   results that carry one.
-- - Text, Text/Strip: Python's `str` as its code points, its order, and `str.strip`.
-- - Ids: `uuid7` of core/ids.py, and `str` of a UUID. Ids/Order compares the two orders of UUIDs
--   that the code relies on.
-- - Json, Json/Dumps: `json.dumps` with sorted keys, the input of a configuration's digest.
-- - Db: the rows of the tables in apps/control-api/migrations/sql that the code touches, and the
--   transactions of infrastructure/db/database.py. A computation takes the tables and returns them
--   with a result or an exception; `transaction` restores them after an exception. Db/Rules has one
--   rule of reasoning for each way to build a transaction.
-- - Paging: keyset pagination, which the list methods of the repositories share; Paging/Join is the
--   form of their queries, whose order is in Paging/Ordered.
-- - Connections/Models, Values, Policies, Providers: domains/connections/models.py, policies.py and
--   providers.py. Connections/Repository: infrastructure/db/connection_repository.py, the SELECTs in
--   Queries, the writing statements with their keys and foreign keys in Statements, the reading
--   methods in Reads, the writing methods in Commands. Connections/Service:
--   domains/connections/service.py. A method keeps its Python name.
-- - Connections/Effects: what each writing method has done when it succeeds.
--   Connections/Requests: one call of a writing method, as a value, and the runs of a database under
--   any sequence of calls, interleaved with changes that other parts of the program may make.
--   Requests/Effect relates a request to what it has done when it succeeds.
-- - The other files of Connections hold what is proved of it: of the policies in Policies/Access and
--   Policies/Names, of the rows that a mutation reads and updates in Rows, Members, Guards and
--   Lifecycle, of the numbers of revisions in Numbers, of what the methods answer in Returned,
--   Answers, Listing and Drafts, and of all requests and runs in the files of Requests.
-- - Projects/Models, Policies, Reads, Repository, Service: domains/projects and
--   infrastructure/db/project_repository.py, over the same tables. Projects/Creation, Listing and
--   Client hold what is proved of it.
-- - Workspaces/Models, Reads, Repository, Service: domains/workspaces and
--   infrastructure/db/workspace_repository.py. Workspaces/Creation holds what is proved of it.
-- - Authentication/Models, Statements, Reads, Repository, Principals, Service: domains/authentication,
--   infrastructure/db/session_provisioning_repository.py and principal_repository.py. `Others` in
--   Repository stands for what other transactions commit at each wait of a method.
--   Authentication/Consistency has the keys of the accounts' tables, and Provisioned that they are
--   kept; Admitted, Admission, Unique and Authenticated follow a session that was provisioned;
--   Replay, Evidence, Effects and Changes hold what else is proved of it.
-- - Problems: the answers to exceptions, api/problems and api/context.py. Codes is the enums of
--   schemas.py, Specs and Registry are registry.py, and Pointer, Responses, Handlers and Dispatch
--   are handlers.py. Answers, Statuses, Http, Refusals and Validity hold what is proved of them.
--   The framework's lookup of the handler is an argument, with its documented order as the
--   hypothesis `ByKeys`; `casefold` and the phrases of `HTTPStatus` are arguments.
-- - Workos: infrastructure/auth. Times is `datetime.fromtimestamp`, Tokens is workos.py and
--   Profiles workos_profile.py with `quote` of urllib.parse; Verified, Raised, Quoted and Fetched
--   hold what is proved of them, and Current at which times a token is accepted. PyJWT, its
--   client of signing keys and the HTTP client are arguments.
-- - Routes: api/routes/v1 and api/dependencies. Handling has the handlers as computations that may
--   raise, the bearer token and the checks of bodies; Accounts, Workspaces, Projects, Connections and
--   ConnectionHandlers are the route files; Calls is one call of the API as a value, from its
--   credentials to its reply. Quiet, Reads, Quietly and Answered hold what is proved of them.
-- - Tests: a small control plane on which the theorems are applied.
--
-- Conventions. An exception is its class; messages are left out. A UUID is its number, which is
-- how PostgreSQL orders the type. A timestamp is a natural number, the microseconds from the year
-- 1; `now` in the tables is the timestamp of the current transaction, which SQL's now() returns.
-- The values that `uuid7` reads from the clock and from `secrets` are an argument, one `Draw` for
-- each call. The clock that the verifier of tokens reads, which is not the database's, is an
-- argument `clock`, so that a token may be accepted at one time and refused at a later one.
-- `str.casefold` and `hashlib.sha256` are fields of `Platform`. Columns have the type that the
-- driver returns, so the isinstance checks of the row decoders, which can only fail on another
-- schema, have no counterpart; a column under CHECK (... IN ...) holds a text, and its decoding
-- by the enum's class is modelled with its ValueError. Transactions are serial, but for those of
-- session provisioning, which are modelled beside others: the SELECT ... FOR UPDATE and FOR SHARE
-- of the writing methods have the meaning of the same SELECT. The foreign keys from Workspaces,
-- Projects and Connections to users are left out; those of the accounts' tables are modelled.
-- JSON values have no floating-point numbers, and a stored JSON value keeps the order of its
-- keys. Every recursion is structural, but for `decimal` in Json/Dumps, whose fuel is the number
-- itself, and for `walk` in Paging/Walk, whose fuel is greater than the number of rows.
--
-- Not modelled: the lists of Projects and Connections as routes, with the encoding of their cursors;
-- the framework's decoding of paths and bodies; middleware, settings and telemetry; the
-- canonicalization of the generic HTTP provider, which calls urllib.parse, so that the registry holds
-- arbitrary providers.
pub mod Prelude
pub mod Result
pub mod Text
pub mod Ids
pub mod Json
pub mod Paging
pub mod Problems
pub mod Workos
pub mod Routes
pub mod Db
pub mod Connections
pub mod Projects
pub mod Workspaces
pub mod Authentication
pub mod Tests
