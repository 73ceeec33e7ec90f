-- ===== src/Lib.antt =====
-- OpenCode Cloud: the core services of the platform, modelled and verified.
--
-- The platform runs one OpenCode container (a sandbox) for each pair of an agent and a user. The sandbox
-- manager (sandbox_manager/) owns the containers and the registry of sandboxes and sessions; the
-- operations service (operations/) runs the jobs of the administrators, which call the sandbox manager,
-- the catalog (catalog_service/), the files (file_service/) and the model gateway (model_gateway/).
--
-- Prelude: the names shared by all modules. Prelude/Tests has Boolean tests on native numbers and texts,
-- Prelude/Lists the list functions (`find` is a SELECT of one row, `update_where` an UPDATE with WHERE),
-- Prelude/Rows and Prelude/Keys the lemmas on tables of rows and their keys, Prelude/Maps dictionaries.
--
-- Registry: sandbox_manager/registry.py over sandbox_manager/migrations/001_initial.sql. A table is a
-- list of rows in insertion order; a call that raises leaves its transaction unwritten.
--   Tables: the rows and the constraints. Sandboxes: agents, sandboxes and `reconcile`. Sessions:
--   `record_sessions_batch`, where each entry is tried under a savepoint, and the reads of sessions.
--   Deletions: the rows that sandbox_manager/main.py deletes with an agent and after a load test.
--   Validity, Batches, Spared, Bindings, Reconcile, Upserts: proofs, by what they are about.
--
-- Operations/LoadTables, Operations/Database: operations.db, as a record of its tables. A document is
-- a record of the entries that the code reads; the others are kept as texts.
-- Operations/Jobs: operations/src/store.py: `get`, `update`, `submit`, `retry_deletion`, `transition`
-- and `state`. uuid.uuid4 and time.time are arguments. Each call is one transaction, since each opens
-- with BEGIN IMMEDIATE. Jobs/Exclusion and Jobs/Leases are about leases, Jobs/Requests about request ids.
-- Operations/LoadTests: operations/src/load_test_store.py: `create`, `previous`, `active_user`; Requests
-- has the requests with their bounds and `validate_agents` over the catalog, Updates has `update` and
-- `update_user`, Restart `recover`. The SHA-256 of a request and uuid4 are arguments. Of the reports only the
-- reading of latencies that can fail is modelled; the CSV is not.
--   Created, Rows, Submits, Apart, Settled, Users, Recovers: proofs.
-- Operations/Workflow: `Workflows.run`, `checkpoint` and `call` of operations/main.py, and the cancel
-- handler. World is the state of one job and the local variables of `run`; the services are a
-- function from the turn of a call to its outcome, and a cancel request may land during any call.
-- Body is the `try` block, Run the handlers, the compensation and the `finally` block. Nothing loops in
-- `run`, so no fuel is needed. The HTTP client, tracing and the text of results are left out; writes of
-- operations.db are taken not to fail.
-- Operations/Admission: the handlers of admission, file-admission and cleanup-authorization of
-- operations/main.py, `user` of the load-test store and `resources_for` of operations/src/load_tests.py.
-- The sandbox id (a SHA-256) is an argument. Admission/Exclusion: proofs.
-- Operations/Reconcile: `Workflows.reconcile` of operations/main.py; the answers of the services are
-- arguments, of a sandbox result only the state is kept, and of the entry `before` of a job its container.
-- Reconcile/Evidence: proofs.
-- Operations/RecoveryPolicy, Operations/Recovery: operations/src/recovery.py: the policy and what it
-- decides of one sandbox, and `tick` over the sandboxes as they are listed. Each sandbox comes with a
-- function that stands for what other work does to the database while its detail is awaited. The
-- answers of the sandbox manager and of the catalog and the clock are arguments.
-- A call of a service that raises ends a pass with what it has written, and is not modelled.
--
-- Json: JSON documents, with Python's equality on them. Json/Equality: proofs.
-- ModelGateway: model_gateway/src/state.py. Releases has `validate_release` and `make_router`, State
-- the methods of GatewayState over the file active.json. The file is its document, so json.dump and
-- json.loads are left out; the temporary file, its renaming and what a stop in between leaves
-- are modelled. `None` is the document null. The router factory is an argument.
-- Accepted, Restart, Repeats: proofs.
--
-- Posix: paths as PurePosixPath and str.split take them apart; Posix/Workspace has the checks of
-- shared_libs/workspace_paths.py. Split, Contained: proofs.
--
-- Catalog: catalog_service/main.py and catalog_service/src/. Documents is the row of the table `catalog`: the
-- document, with its dictionaries as association lists, and the revision. Edits has `edit`, which every
-- change goes through, and `resource_version`; a Reply is a value, an HTTPException of `fail` or another
-- exception, and a call that raises leaves the row. Names, Files: `identifier` and `relative_file`.
--   Agents: `validate_agent`, `save_agent` with the copy of an agent. Templates: `restore` of
--   agent_templates.py. Models: `save_model`, `model_references`, and the import and the deletion of
--   admin_api.py. Resources and Hooks: `save_resource`, `resource_lifecycle`, `upload_skill`,
--   `publish_resource`, and the copy and the publication of admin_api.py. Releases: `prepare`, `release_status`,
--   `commit`, `active_bundle`. Lifecycles: `operation_check`, `impact`, `lifecycle`. Secrets: `redact` and
--   `preserve_secrets`.
--   Calls: the calls that change the row as data, `change` as the function that each one is, and a
--   History as the relation of any number of calls that go through, in any order. What the calls take
--   from elsewhere is the record Outside: `validate_model`, `validate_mcp`, pydantic's validation, the
--   compiler, the digests and the answers of the file system. A copy of an agent takes the digits of
--   uuid4 as a function, which is to give new identifiers; `prepare` is one transaction, since a change
--   between its read and its edit makes the edit refuse.
--   Effects: what a call that went through has done, with Editing, Storing and Applying. Bindings,
--   Validation, Drafts, Numbering, Commits, Recommits, Serving, Retired, Deletion, Revisions: proofs.
--   Not modelled: the unpacking of uploads, the folders that a deletion removes, what the
--   migration of an old document adds, the listings, and packages (catalog_service/src/transfers.py).
--
-- FileService: the journal of file_service/coordination.py (Journal) and the handlers `cleanup_user` and
-- `cleanup_agent` of file_service/main.py (Cleanups). A payload and a result are their canonical JSON.
-- What a handler awaits (the authorization, the impact, the removal) is an argument. An Event is one
-- write of some handler: it starts a removal, ends it with a result, or loses it to an exception or a
-- stop of the service; the lock of an agent is not assumed. Once, Replays: proofs.
pub mod Prelude
pub mod Json
pub mod Posix
pub mod Registry
pub mod Operations
pub mod ModelGateway
pub mod FileService
pub mod Catalog
