-- ===== src/Lib.antt =====
-- agentlayer receives mail for agents, puts each message on a thread, tells the agent by a webhook,
-- and sends the agent's replies through a mail provider. These modules model its services over the
-- store that keeps everything in memory, and the store over a Postgres database.
--
-- Parts and their modules (paths from the root of the repository):
--   Prelude    lists, integers, maps, and `Exec`: a Go function that changes a state and may fail
--   Domain     internal/domain/types.go, a record for each struct
--   Core       internal/core/interfaces.go
--   Platform   internal/platform/idempotency/keys.go
--   Contacts   internal/contacts/resolver.go (`resolve` is `Resolve`)
--   Threading  internal/threading/resolver.go (`resolve` is `Resolve`); Order and Dormancy have its
--              theorems
--   Inbound    internal/inbound: Receipt, Recorder (with `Process`) and Service
--   Memory     internal/store/memory/store.go: the maps in State, the methods in Records, Messages
--              and Listing; Suppressed, Reachable and Limits have theorems
--   Text       what the program uses of the packages strings and unicode; Order is about comparing
--   Outbound   internal/outbound: Assembler, Recorders, Service (`SendReply`) and Callback
--   Webhooks   internal/webhooks: Signing, Attempts, Delivery and Sweep; Backoff, Lifecycle,
--              SweepLaws and Signatures have theorems
--   Smtp       internal/smtpedge: session.go, receipt_sink.go and the adapter in Session, server.go in
--              Server and identifiers.go in Identifiers; Reached has the states that a session can
--              be in, Segments the theorems on the keys of raw messages
--   Parser     internal/parser/parser.go: Subject (with its theorems), Body (the walk over the parts)
--              and Message (`Parse`); Replies and Outcome are about the subjects of replies, Leaves
--              and Collects about an independent description of the walk
--   App        internal/app: the inbound runtime, bootstrap, lists and writes
--   Api        internal/api, a function for each handler: Paths, Lookups, Lists, Actions and Reply;
--              Routes, Ids and Refusals have theorems
--   Rows       internal/store/models.go and convert.go: Parties, Mail and Delivery; Same and Kept have
--              the theorems
--   Postgres   internal/store/postgres: Sql (statements, values and rows), Scans (array.go, nulls.go and
--              the destinations of Scan) and Calls (what is made of a query's rows); Bootstrap,
--              Contacts, Threads, Messages, Receipts, Suppressions and Deliveries are its files of
--              that name; Tables has what SQL says of the statements, and Stored, Scanned,
--              ReadBack, Unreadable and Lookups the theorems
--   Providers  internal/providers/dev and ses
--   Blobs      internal/store/blobfs and blobs3
--   Process    cmd/agentlayer: the settings of main.go in Settings, readiness.go in Readiness and
--              retry_worker.go in RetryWorker; Checked has the theorems
--   Runtime    cmd/agentlayer/main.go: World is the state of the process, Wiring and Reply put the
--              services over the memory store, and Http the handlers over these; Store is
--              cmd/agentlayer/runtime_store.go and Seeding is about `seedLocalRuntime`; the others,
--              and those under Http, have the theorems about the whole
--   Examples   small runs
--
-- How they interact: a service takes the operations of its collaborators as a record over an
-- arbitrary state, and Runtime fills the record with the methods of the memory store. A method that
-- fails keeps what was written before, since an `Exec` gives a state beside an error too. A method
-- of the store is one atomic step, for it holds the store's mutex from start to end; so an
-- interleaving of requests is a sequence of such steps.
--
-- Parameters: SHA-256, HMAC, JSON, net/http, strconv, net/mail, mime, mime/multipart, base64 and
-- quoted-printable, the formats of times, the Unicode tables beyond ASCII, the environment variables,
-- the database, files, the clients of S3 and SES, the random source, the clock, the mail provider,
-- the agent's endpoint, and the order in which `range` visits a map. The environment answers each
-- call by its number, so it may answer every call differently.
--
-- The Postgres store is modelled over a parameter too: a database that executes statements and answers
-- queries. A statement is the table, the columns and the clauses of its text in the code; `IsSql`
-- states what SQL says of such statements, and Examples.Database is a database that does so. A
-- TIMESTAMPTZ is taken to keep times to the microsecond, and a JSONB column to keep a document in a
-- form of its own. Which statements the database accepts is left open: those that the schema of the
-- migration refuses, as one that writes a JSON array into a TEXT[] column, are among those that fail.
--
-- Bounds: an int is a mathematical integer with the wrap-around of 64 bits written out where the
-- code computes with it (the count of attempts, the delays). A time is the number of nanoseconds
-- after Go's zero time, without bound. Loops are recursion on lists, but for that of
-- `normalize_subject`, which has fuel for one round more than the subject has characters; every round
-- takes at least three characters off. The retry worker is run for a number of ticks.
--
-- Not modelled: the control program (a client of the HTTP API), the text of the migration, correlation
-- ids (read by logs alone), and the opening of the database, of the S3 and SES clients and of the
-- listeners. The order of a query's rows is not among the hypotheses on the database.
pub mod Prelude
pub mod Domain
pub mod Core
pub mod Threading
pub mod Contacts
pub mod Inbound
pub mod Parser
pub mod Platform
pub mod Memory
pub mod Rows
pub mod Postgres
pub mod Providers
pub mod Blobs
pub mod Text
pub mod Outbound
pub mod Webhooks
pub mod Smtp
pub mod Process
pub mod Api
pub mod App
pub mod Runtime
pub mod Examples
