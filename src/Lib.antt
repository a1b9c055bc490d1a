-- ===== src/Lib.antt =====
-- TDCS: files that arrive in watched folders are claimed in a database by one of several instances,
-- run through an extract-transform-load pipeline, and loaded into monthly tables.
--
-- The parts, and the source each file follows (paths from the repository's root):
--   FileRef    src/infrastructure/file_ref.py: FileRef.from_stat
--   Watcher    src/watcher/event_handler.py (Events) and polling_scanner.py (Polling): they find
--              files and submit them to the pool
--   Pool       src/infrastructure/worker_pool.py: WorkerPool, its queue, backlog counts and
--              supervisor; Breaker is its CircuitBreaker
--   Processor  src/core/file_processor.py: FileProcessor.__call__, which a worker runs for a file
--   Files      src/infrastructure/processed_file_repo.py: the table of claims
--   Pipeline   src/core/pipeline.py: ETLPipeline.execute, over the parts of Etl: Loader
--              (src/etl/loader.py), Router (src/etl/table_router.py), Extractor
--              (src/etl/extractor.py) and Quality (src/monitoring/quality_reporter.py); the errors are src/core/exceptions.py
--   Cache      src/infrastructure/cache.py: CacheManager
--   Config     src/core/config_validator.py (Schema), config_models.py (Models), config.py (Build,
--              Env, which replaces the variables in the file's text, and Manager)
--   Archive    src/infrastructure/file_archiver.py: FileArchiver, over a store of files
--   Tasks      src/core/task_manager.py: TaskManager, the watchers and scanners that run, which a
--              new configuration of Config changes
--   Web        src/web/auth.py and src/web/response.py; Users is src/web/api/users.py, Login the
--              login of system.py, Downloads the store of cleaners.py, Pages the lists, and Retry
--              the retry of files.py on the table of Files
--   ConfigApi  src/web/api/config_api.py: the requests that change config.yaml and reload it into
--              the manager of Config
--   Cleaners   src/etl/cleaner_registry.py: CleanerRegistry, which follows the files of its directory;
--              Editing is the requests of src/web/api/cleaners.py that change them
--   Alerting   src/monitoring/alerting.py: Alerter and the URLs of its channels
--   Prelude    numbers, lists, dicts and texts that the parts share
--
-- State is passed explicitly: an operation of a class is a function from the record of its fields
-- to the record after it. A method that reads the clock takes the reading as an argument. SQL
-- statements are functions on a table; the server's order of assignments and its way of counting
-- rows are parameters (Engine). Calls are atomic: a step of Pool.Backlog is one whole submit,
-- worker round or management call, so interleavings inside a call are not modelled. MD5, date
-- parsing, Python's round, the sandbox, encryption, the database's failures, Pydantic's coercions and the file
-- system are parameters too.
--
-- Fuel: Etl.Loader.chunks takes the number of tuples, which is enough since every chunk has at
-- least one; Etl.Router.substitute takes the length of the text, since every step consumes at
-- least one character.
--
-- The web handlers are functions from the parsed request and the state to the answer's code and the
-- state; JWT, bcrypt, YAML, the collation of the database and the failures of the operating system
-- are parameters. A request is served whole, so two requests do not interleave inside a handler.
--
-- Not modelled: threads' start and stop, logging, the views that only read, the formats' parsers
-- and the sandbox. The processor records its calls of the alerter as actions. bcrypt does not raise.
-- Rates are exact fractions, which a parameter rounds. Of YAML, the values that JSON has too are
-- represented: no binary values, timestamps or sets. The clock that names the month of a row is read
-- for each row, and equal rows are taken to be routed in the same month. While a worker runs a file,
-- its reports go to the breaker that the task then has; only the failure that the worker itself
-- records may miss it.
pub mod Prelude
pub mod FileRef
pub mod Breaker
pub mod Pool
pub mod Files
pub mod Etl
pub mod Pipeline
pub mod Processor
pub mod Cache
pub mod Watcher
pub mod Config
pub mod Archive
pub mod Tasks
pub mod Web
pub mod ConfigApi
pub mod Cleaners
pub mod Alerting
