-- ===== src/Operations/LoadTests.antt =====
-- `LoadTestStore` of operations/src/load_test_store.py. A CPU limit is in hundredths of a core.
pub mod Rows
pub mod Submits
pub mod Apart
pub mod Requests
pub mod Created
pub mod Updates
pub mod Restart
pub mod Settled
pub mod Users
pub mod Recovers
mod Samples
use Prim.Native.String.{◌++◌ as append}
use text.Mathlib.Text.{starts_with}
use opencode_cloud.Prelude.{
  ℕ, zero, suc, ◌+◌, ◌*◌, ◌/◌, ◌%◌, String, Bool, true, false, not, ◌&&◌, ◌||◌, Option, none, some,
  List, [], ◌∷◌, ◌++◌, ◌==◌, opt_eq, leb, ltb, if◌then◌else◌, find, select, update_where, any,
  lookup, put, map,
}
use opencode_cloud.Operations.LoadTables.{
  LoadStatus, active, StorageState, CleanupStatus, cleanup_runs, Phase, unfinished, Snapshot,
  LoadTest, LoadUser,
}
use opencode_cloud.Operations.Database.{
  Result, ok, err, http, integrity, Status, queued, running, waiting, applying, needs_recovery,
  interrupted, succeeded, failed, cancelled, Job, scope_of, Database,
}
use opencode_cloud.Operations.Jobs.{given}
use opencode_cloud.Operations.LoadTests.Requests.{
  LoadAgent, LoadRequest, total_users, names_agent, distinct_agents, valid_request, Version,
  CatalogAgent, is_active, snapshot, with_snapshot, validate_agents,
}

-- The statuses of a job that `create` looks for.
abbrev pub working : Status → Bool
working queued = true
working running = true
working waiting = true
working applying = true
working needs_recovery = true
working interrupted = false
working succeeded = false
working failed = false
working cancelled = false

abbrev pub holds_selected : List LoadAgent → Job → Bool
holds_selected agents j =
    working j.status && (scope_of j == "*" || any (names_agent (scope_of j)) agents)

abbrev digit_in : List String → ℕ → String
digit_in [] n = ""
digit_in (d ∷ ds) zero = d
digit_in (d ∷ ds) (suc n) = digit_in ds n

abbrev digit : ℕ → String
digit = digit_in ("0" ∷ "1" ∷ "2" ∷ "3" ∷ "4" ∷ "5" ∷ "6" ∷ "7" ∷ "8" ∷ "9" ∷ [])

-- str(n); the number of digits is at most n + 1.
unfoldable pub decimal_digits : ℕ → ℕ → String
decimal_digits zero n = digit n
decimal_digits (suc fuel) n =
    let front = decimal_digits fuel (n / 10) in
    if ltb n 10 then digit n else append front (digit (n % 10))

unfoldable pub decimal : ℕ → String
decimal n = decimal_digits n n

-- The row of the user with an index, and those of one agent from an index on.
abbrev pub user_row : String → LoadAgent → ℕ → LoadUser
user_row hex a index = record {
  username = append "loadtest-" (append hex (append "-" (decimal index)));
  agent_id = a.agent_id;
  run_id = append "lt_" hex;
  state = StorageState.retained;
  cpu_limit = a.cpu_limit;
  memory_mb = a.memory_mb;
  phase = Phase.queued;
  error = none;
  finished_at = none;
  latency_ms = none;
}

abbrev pub agent_rows : String → LoadAgent → ℕ → ℕ → List LoadUser
agent_rows hex a zero index = []
agent_rows hex a (suc n) index = user_row hex a (suc index) ∷ agent_rows hex a n (suc index)

abbrev pub user_rows : String → List LoadAgent → ℕ → List LoadUser
user_rows hex [] index = []
user_rows hex (a ∷ rest) index =
    agent_rows hex a a.users index ++ user_rows hex rest (index + a.users)

abbrev pub has_run : String → LoadTest → Bool
has_run rid r = r.id == rid

abbrev pub has_name : String → LoadUser → Bool
has_name username u = u.username == username

-- The INSERTs, with their primary keys.
abbrev pub insert_run : LoadTest → List LoadUser → Database → Result (String × Bool × Database)
insert_run run users db =
    if any (has_run run.id) db.load_tests
      || any (λ (u : LoadUser). any (has_name u.username) db.load_test_users) users
    then err integrity
    else ok (
      run.id,
      true,
      record db {
        load_tests = db.load_tests ++ run ∷ [];
        load_test_users = db.load_test_users ++ users;
      },
    )

abbrev pub new_run : LoadRequest → String → List (String × Snapshot) → String → ℕ → LoadTest
new_run request fingerprint snapshots hex now = record {
  id = append "lt_" hex;
  request_id = request.request_id;
  fingerprint = fingerprint;
  status = LoadStatus.queued;
  created_at = now;
  cleanup_status = CleanupStatus.retained;
  snapshots = snapshots;
  error = none;
  cleanup_error = none;
  finished_at = none;
}

abbrev pub asked : String → LoadTest → Bool
asked request_id r = r.request_id == request_id

abbrev pub begin_run :
    LoadRequest
    → String
    → Result (List (String × Snapshot))
    → String
    → ℕ
    → Database
    → Result (String × Bool × Database)
begin_run request fingerprint (err e) hex now db = err e
begin_run request fingerprint (ok snapshots) hex now db =
    insert_run (new_run request fingerprint snapshots hex now) (user_rows hex request.agents 0) db

-- `digest` is the SHA-256 of the canonical JSON of a request, and `hex` a fresh uuid4.
module _ (digest : LoadRequest → String) where
  unfoldable pub create :
      List (String × CatalogAgent)
      → LoadRequest
      → String
      → ℕ
      → Database
      → Result (String × Bool × Database)
  create catalog request hex now db = elim (find (asked request.request_id) db.load_tests) [
    | some r ↦
        if r.fingerprint == digest request
        then ok (r.id, false, db)
        else err (http 409 "Request ID was already used with different test parameters")
    | none ↦
        if any (λ (r : LoadTest). active r.status) db.load_tests
        then err (http 409 "A load test is already active")
        else if any (holds_selected request.agents) db.jobs
        then err (http 409 "An operation holds a selected Agent")
        else begin_run request (digest request) (validate_agents catalog request.agents) hex now db
  ]

  unfoldable pub previous : LoadRequest → Database → Result (Option String)
  previous request db = elim (find (asked request.request_id) db.load_tests) [
    | none ↦ ok none
    | some r ↦
        if r.fingerprint == digest request
        then ok (some r.id)
        else err (http 409 "Request ID was already used with different test parameters")
  ]

-- Whether requests of a load-test user are those of a run.
unfoldable pub active_user : String → String → Database → Bool
active_user aid username db =
    starts_with username "loadtest-"
    && elim (find (λ (u : LoadUser). u.username == username && u.agent_id == aid)
        db.load_test_users) [
          | none ↦ false
          | some u ↦ elim (find (has_run u.run_id) db.load_tests) [
            | none ↦ false
            | some r ↦ active r.status || cleanup_runs r.cleanup_status
          ]
        ]
