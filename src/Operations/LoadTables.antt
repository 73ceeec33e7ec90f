-- ===== src/Operations/LoadTables.antt =====
-- The rows of the load-test tables of operations/src/load_test_store.py.
use opencode_cloud.Prelude.{ℕ, String, Bool, true, false, Option, List}

pub data LoadStatus : Type 0 where
  queued preparing running cancelling : LoadStatus
  completed completed_with_errors failed cancelled interrupted : LoadStatus

-- ACTIVE
abbrev pub active : LoadStatus → Bool
active queued = true
active preparing = true
active running = true
active cancelling = true
active completed = false
active completed_with_errors = false
active failed = false
active cancelled = false
active interrupted = false

pub data StorageState : Type 0 where
  retained cleaning cleaned : StorageState

abbrev pub is_cleaning : StorageState → Bool
is_cleaning retained = false
is_cleaning cleaning = true
is_cleaning cleaned = false

pub data CleanupStatus : Type 0 where
  retained cleaning cleaned failed : CleanupStatus

abbrev pub cleanup_runs : CleanupStatus → Bool
cleanup_runs CleanupStatus.retained = false
cleanup_runs CleanupStatus.cleaning = true
cleanup_runs CleanupStatus.cleaned = false
cleanup_runs CleanupStatus.failed = false

pub data Phase : Type 0 where
  queued preparing ready running : Phase
  succeeded failed timed_out prepare_failed cancelled interrupted : Phase

-- {"queued", "preparing", "ready", "running"}
abbrev pub unfinished : Phase → Bool
unfinished Phase.queued = true
unfinished Phase.preparing = true
unfinished Phase.ready = true
unfinished Phase.running = true
unfinished Phase.succeeded = false
unfinished Phase.failed = false
unfinished Phase.timed_out = false
unfinished Phase.prepare_failed = false
unfinished Phase.cancelled = false
unfinished Phase.interrupted = false

-- What a run fixes of an agent.
pub record Snapshot : Type 0 where
  pub version : String
  pub model_id : String

-- A row of `load_tests` with the entries of its document that the store reads or writes itself.
pub record LoadTest : Type 0 where
  pub id : String
  pub request_id : String
  pub fingerprint : String
  pub status : LoadStatus
  pub created_at : ℕ
  pub cleanup_status : CleanupStatus
  pub snapshots : List (String × Snapshot)
  pub error : Option String
  pub cleanup_error : Option String
  pub finished_at : Option ℕ

abbrev pub has_succeeded : Phase → Bool
has_succeeded Phase.succeeded = true
has_succeeded Phase.queued = false
has_succeeded Phase.preparing = false
has_succeeded Phase.ready = false
has_succeeded Phase.running = false
has_succeeded Phase.failed = false
has_succeeded Phase.timed_out = false
has_succeeded Phase.prepare_failed = false
has_succeeded Phase.cancelled = false
has_succeeded Phase.interrupted = false

-- A row of `load_test_users` with its document. `latency_ms` is `none` until it is written.
pub record LoadUser : Type 0 where
  pub username : String
  pub agent_id : String
  pub run_id : String
  pub state : StorageState
  pub cpu_limit : ℕ
  pub memory_mb : ℕ
  pub phase : Phase
  pub latency_ms : Option ℕ
  pub error : Option String
  pub finished_at : Option ℕ
