-- ===== src/Lib.antt =====
-- answer_service: a question and answer service over a catalog that a source file feeds. An upload
-- queues an indexing task; the worker runs it, which diffs the file against the catalog and applies
-- the difference; each change leaves a domain event, which the outbox delivers to the search index;
-- queries rank the catalog by two retrievers, answer from what was retrieved, and are journalled.
--
-- Files and the code that they model (paths under src/answer_service):
--   Base: shared helpers: Boolean tests on the native numbers, lists, integers, text, dictionaries,
--     and a stable sort.
--   Errors: the exception classes of domain, application and infrastructure as one type, with their
--     bases (Hierarchy), and presentation/http/v1/common/exception_handler.py (Status).
--   Indexing: domain/indexing and domain/common/event.py: value objects (Values), ContentHash.of
--     (Fingerprint), IndexingTask (Task), QAPair (Pair), SyncPlanner.plan (Planner).
--   Entities: domain/common/entity.py, the base class of tasks, pairs and journal rows.
--   Application: a coroutine is a function of its state that returns a result or an error and the
--     state it has reached (Io); Scope is the request scope with its shared EventsCollection; Ports
--     are application/common/ports; Pipelines is application/pipelines; Outbox is the serializer, the
--     event bus, RelayOutboxHandler and the publisher; Handlers is application/commands/indexing with
--     the row mapper; Worker is infrastructure/task_manager/tasks/indexing_tasks.py.
--   Mediator: infrastructure/mediator and the registrations of setup/ioc/providers/mediator_provider.py.
--   Persistence: infrastructure/persistence/models: the column types (Columns), and the rows of tasks,
--     pairs and journal (Rows); Made are the values that a constructor has accepted.
--   Sources: infrastructure/adapters/source_file: PolarsSourceFileReader (Reader) and
--     LocalSourceFileStorage (Storage).
--   Projection: QdrantSearchIndexWriter with its mappers (Writer), application/commands/search and
--     infrastructure/task_manager/tasks/projection_tasks.py (Handlers).
--   Database: infrastructure/adapters/persistence: what the gateways call of a session (Session), the
--     gateways of tasks (Tasks, TaskViews with GetIndexingTaskHandler; TaskTable, and the reaper over
--     it in Reaping), of the outbox (Outbox, and relay_outbox_task over it in Relaying) and of the
--     catalog (Catalog).
--   Search: RrfFusion (Fusion), HybridSearchService and the two queries over it (Hybrid), the
--     PostgreSQL and Qdrant retrievers (Retrievers), and infrastructure/adapters/langchain (Generator).
--   Analytics: domain/analytics (Values), QueryRecordingPipeline (Journal), the filters, counts and
--     pages of SqlAlchemyAnalyticsGateway (Reports), its reports by text (Frequencies), the
--     entries of the listing (Entries), and application/queries/analytics (Queries).
--   Settings: setup/configs with the validators of setup/bootstrap/loaders, and the addresses that the
--     settings make (Addresses).
--   Web: presentation/http/v1/routes. What the framework and the exception handler make of a route's
--     function (Replies), the body of search and ask (Criteria), the two routes (Consulting), upload
--     and polling (Tasks), and the reports (Statistics). A route sends its request through the
--     pipelines of Application and Analytics to the handlers of Application, Search and Analytics.
--   Tests: in-memory ports, and the properties at concrete inputs.
--
-- Parameters, since their code is not in the repository: the database session, the broker, the
-- vector index, the language model, the file system and the clocks stand behind records of
-- operations over a store of any type, and a property names the laws that it needs of them:
-- CatalogLaws for a SQLAlchemy session without autoflush, UnitOfWork for commit and rollback,
-- OutboxTable for the table of messages, TaskLaws and KeepsTasks for the gateway of tasks,
-- RelayPorts and Marks for the marks and deliveries of the relay, RelayLaws for its table, its
-- transaction and the broker, FloatLaws for the order of finite floats, IndexLaws for the vector
-- store beside the catalog, TableLaws, SelectLaws and KeyLaws for the statements of a session,
-- ColumnLaws for the columns that the database shows to a session, IsKeyed for the primary key of the
-- journal, RankOrder for the order of ranks, JournalLaws for a journal that can be written,
-- ReadsOnly for retrievers that write nothing to it. SHA-256, the JSON dump, the order in which
-- JSONB keeps the items of an object, the parsers of polars and the iteration order of a set are
-- parameters too. `asyncio.gather` is modelled as the two calls one after the other.
--
-- Conventions: text is a list of code points; times and UUIDs are natural numbers; one read of the
-- clock stands for the two that stamp a new entity; a message of an exception or of the log is left
-- out. A mutation of an object that the session tracks is the value handed to the gateway's `update`.
-- Every loop is structural recursion on the list that it walks, so no fuel is needed.
--
-- Not modelled: the average of the statistics, which SQL computes; the parsing of JSON and of the form
-- of an upload, which the web framework does, and the middleware, which only logs; the reading of the
-- environment and the assembly of the third-party objects under setup; the entry points and the
-- migrations, which list declarations for other programs.
pub mod Base
pub mod Errors
pub mod Entities
pub mod Indexing
pub mod Application
pub mod Mediator
pub mod Persistence
pub mod Sources
pub mod Projection
pub mod Database
pub mod Search
pub mod Analytics
pub mod Settings
pub mod Web
pub mod Tests
