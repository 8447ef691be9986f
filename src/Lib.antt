-- ===== src/Lib.antt =====
-- A verification of the platform that writes reports for tenants from their documents: the parts
-- below internal/ that meter, bound, isolate and cut, as functions, with what is proved of them.
--
-- The program. Tenants upload documents, which are cut into chunks (internal/knowledge) and kept in an
-- object store (internal/storage) and a vector index. Workers take jobs from a queue under a limit for
-- each tenant (internal/queue). A report is written by a bounded loop of language-model and tool calls
-- (internal/reports, internal/llm, internal/tools). Calls emit usage events (internal/usage),
-- which are counted in Redis, stored, and rolled up by day; budgets and invoices (internal/budget) read
-- these. Users log in and reach a tenant's routes through middleware (internal/auth, internal/tenant,
-- internal/web).
--
-- The files, with the code that each models:
--   Prelude        tests, lists, texts and results that the others share. A text is the list of its
--                  code points, and `%` and `-` are those of the natural numbers.
--   Queue          RateLimit: Acquire and Release of internal/queue/ratelimit.go. RateLimit/Workers:
--                  starts, finishes and crashes of jobs in any order, as a step relation. Tasks:
--                  internal/queue/tasks.go and the routes. Handler: the handlers of the three kinds of
--                  tasks, as the calls that they make and their results. Inspector: GetJobState.
--   Usage          Key: redisKey, splitN, parseUsageKey. Pricing: computeCost. Dates: the dates in keys.
--                  Emitter: EmitUsage. Reader: GetCurrentUsage. Collector: flush and rollup.
--   Budget         Pricing and Checker: computeCost and CheckBudget. Service: GetBudgetStatus,
--                  SetMonthlyBudget, GetInvoice, GenerateInvoice.
--   Llm            Client: Complete, callWithRetry, estimateInputTokens.
--   Tools          Registry: Register, SetPermission, ListTools, Invoke.
--   Reports        AgentLoop: Run and synthesize of internal/reports/agent_loop.go. Prompts:
--                  BuildPrompt, BuildContext. Worker: expandDocuments and GenerateReport, which composes
--                  the knowledge store with the agent loop. Service: reports and generation jobs, of
--                  internal/reports/service.go.
--   Storage        Key: objectKey. Memory: Put, Get, Delete, DeleteTenant of the store in memory.
--   Tenant         Service: Create, AddMember, IsMember, IsAdmin, Delete, over tables that are functions.
--   Auth           Service: Register, Login, ValidateToken. Middleware: AuthMiddleware,
--                  TenantMiddleware, JWTMiddleware.
--   Knowledge      Chunking: NewRecursiveChunker, Chunk, chunkDocument, splitBySize, getTail. Store:
--                  Store, ReplaceSource, GetDocument, DeleteTenantData over the tables of documents and
--                  chunks; Store/Query: Query, GetStats; Store/Shelves: the abstract library that the
--                  tables represent.
--   Ingestion      Connector: Resolve, buildFileConnector, Extract. Parser: Parse, with a module for each
--                  format. Dedup: Seen and its loop. Worker: Ingest, which composes these with the
--                  chunker and the knowledge store.
--   Sources        Crypto: NewAESGCMService, Encrypt, Decrypt of internal/sources/crypto.go. Service:
--                  Create, GetByID, Update, Delete, Sync and storeFile, with the object store of Storage.
--                  Reader: GetProjection and MarkError.
--   Webui          Cron: BuildCronExpr, CronParts, DescribeCron of internal/webui/mapper.go. Labels,
--                  Activity and Items: its labels, the activity of report jobs and the view models.
--   Web            Csrf: CSRFMiddleware. Session: CookieAuthMiddleware, CookieTenantMiddleware.
--   Scheduling     Service: the schedules of reports, as a table and the operations on it.
--   Examples       concrete inputs for the theorems.
--
-- How they are modelled. State is passed explicitly: a Redis store, a table or an object store is a
-- function or a list, and an operation returns the next one. An operation that may fail returns a
-- Result with the source's errors, and a call of a database, a model, a tool or a package that may
-- fail is decided by a field of an environment, so that the theorems hold whatever fails. Reads of the
-- tables fail in the environment when the request's context has ended; an error of the database of
-- another kind reads as a missing row, as in the source. The bcrypt and jwt packages are the fields
-- of Auth.Service.Crypto, and Documented is what their documentation promises. Amounts of money are
-- whole numbers of 10^-7 dollars, in which all prices are whole, instead of floats. A mutex or a
-- Lua script makes an operation one step.
--
-- The parsers of JSON, ZIP, XML, PDF and workbooks, the hash, the clock, the float64 tests of a budget and
-- what the index of the vectors finds are
-- arguments, and their errors are values; a transaction that fails gives back the tables that it began
-- with.
--
-- Fuel. The windows of a chunker take one unit for each index, and one more than the text has runes are
-- given; an overlap below the chunk size makes each step advance, so that this is enough. The report
-- loop runs on its own limit on model calls, and the retries on theirs, as the source does.
--
-- Not modelled: the distance of vectors, mail, S3, the HTTP requests to the model provider and to sources
-- under test, the templates and handlers of the web interface, the conversion of database rows, and
-- the wiring of processes, which call other packages or services.
pub mod Prelude
pub mod Queue
pub mod Usage
pub mod Budget
pub mod Llm
pub mod Tools
pub mod Reports
pub mod Storage
pub mod Tenant
pub mod Auth
pub mod Ingestion
pub mod Knowledge
pub mod Web
pub mod Scheduling
pub mod Webui
pub mod Sources
pub mod Examples
