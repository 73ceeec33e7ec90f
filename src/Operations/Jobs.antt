-- ===== src/Operations/Jobs.antt =====
-- The job store of operations/src/store.py: submission with idempotent request ids, leases on
-- scopes, the retry of a deletion, and the guarded transition.
pub mod Exclusion
pub mod Requests
mod Samples
pub mod Leases
use opencode_cloud.Prelude.{
  ℕ, String, Bool, true, false, not, ◌&&◌, ◌||◌, Option, none, some, List, [], ◌∷◌, ◌++◌, ◌==◌,
  opt_eq, or_else, if◌then◌else◌, find, select, update_where, any, lookup, put,
}
use opencode_cloud.Operations.LoadTables.{LoadTest, LoadUser, active, is_cleaning}
use opencode_cloud.Operations.Database.{
  Error, http, integrity, crash, Result, ok, err, Status, queued, failed, needs_recovery,
  interrupted, holding, Payload, payload_eq, original, Attempt, Job, scope_of, Database,
}

abbrev pub has_id : String → Job → Bool
has_id jid j = j.id == jid

abbrev pub asked_by : String → Job → Bool
asked_by request_id j = j.request_id == request_id

unfoldable pub get : String → Database → Result Job
get jid db = elim (find (has_id jid) db.jobs) [
  | none ↦ err (http 404 "Job not found")
  | some j ↦ ok j
]

-- `**changes` of `update` and `transition`: the entries that are given. The store reads none of
-- those in `notes`.
pub record Changes : Type 0 where
  pub status : Option Status
  pub checkpoint : Option String
  pub error : Option (Option String)
  pub notes : List (String × String)

abbrev pub given {ℓ} : {A : Type ℓ} → Option A → A → A
given none old = old
given (some new) old = new

-- job.update(changes, updated=time.time())
abbrev pub changed : Changes → ℕ → Job → Job
changed c now j = record j {
  status = given c.status j.status;
  checkpoint = given c.checkpoint j.checkpoint;
  error = given c.error j.error;
  updated = now;
  notes = c.notes ++ j.notes;
}

-- UPDATE jobs SET document=? WHERE id=?
abbrev pub put_job : String → Job → Database → Database
put_job jid j db = record db { jobs = update_where (has_id jid) (λ _. j) db.jobs }

-- The document of a row that is not there cannot be read.
unfoldable pub update : String → Changes → ℕ → Database → Result (Job × Database)
update jid c now db = elim (find (has_id jid) db.jobs) [
  | none ↦ err crash
  | some j ↦ let job = changed c now j in ok (job, put_job jid job db)
]

unfoldable pub transition :
    String → (Status → Bool) → Changes → ℕ → Database → Result (Job × Database)
transition jid allowed c now db = elim (find (has_id jid) db.jobs) [
  | none ↦ err (http 404 "Job not found")
  | some j ↦
      if allowed j.status
      then (let job = changed c now j in ok (job, put_job jid job db))
      else err (http 409 "Job state changed")
]

-- The two queries for a load test that pins the scope.
unfoldable pub load_pins : String → Database → Bool
load_pins scope db =
    if scope == "*"
    then any (λ (r : LoadTest). active r.status) db.load_tests
    else any
        (λ (u : LoadUser).
          u.agent_id == scope
          && any (λ (r : LoadTest). r.id == u.run_id && (active r.status || is_cleaning u.state))
              db.load_tests)
        db.load_test_users

-- j["status"] in {…} and (scope == "*" or j.get("scope", j["target"]) in {scope, "*"})
abbrev pub holds : String → Job → Bool
holds scope j = holding j.status && (scope == "*" || (scope_of j == scope || scope_of j == "*"))

abbrev pub new_job : String → String → Payload → String → String → String → ℕ → Job
new_job kind target payload scope request_id id now = record {
  id = id;
  kind = kind;
  target = target;
  scope = some scope;
  payload = payload;
  original_input = original payload;
  request_id = request_id;
  status = queued;
  checkpoint = "prepare";
  created = now;
  updated = now;
  error = none;
  retry_request_id = none;
  execution_id = none;
  attempts = [];
  notes = [];
}

-- INSERT INTO jobs: the primary key is unique.
abbrev pub insert_job : Job → Database → Result (Job × Bool × Database)
insert_job j db =
    if any (has_id j.id) db.jobs
    then err integrity
    else ok (j, true, record db { jobs = db.jobs ++ j ∷ [] })

-- `fresh_request` and `id` are the two readings of `uuid4`.
unfoldable pub submit :
    String
    → String
    → Payload
    → Option String
    → String
    → String
    → ℕ
    → Database
    → Result (Job × Bool × Database)
submit kind target payload scope fresh_request id now db =
    let held = or_else scope target in
    let request_id = or_else payload.body.request_id fresh_request in
    elim (find (asked_by request_id) db.jobs) [
      | some job ↦
          if job.kind == kind && (job.target == target && payload_eq job.payload payload)
          then ok (job, false, db)
          else err (http 409 "Request ID already used with different operation")
      | none ↦
          if db.has_load_tests && load_pins held db
          then err (http 409 "A load test pins this Agent version")
          else if any (holds held) db.jobs
          then err (http 409 "An operation already holds this target")
          else insert_job (new_job kind target payload held request_id id now) db
    ]

-- {"failed", "needs_recovery", "interrupted"}
abbrev pub retriable : Status → Bool
retriable Status.failed = true
retriable Status.needs_recovery = true
retriable Status.interrupted = true
retriable Status.queued = false
retriable Status.running = false
retriable Status.waiting = false
retriable Status.applying = false
retriable Status.succeeded = false
retriable Status.cancelled = false

abbrev pub retried : Payload → String → String → ℕ → Job → Job
retried payload request_id execution_id now job = record job {
  attempts =
      job.attempts
      ++ record {
        status = job.status;
        checkpoint = job.checkpoint;
        error = job.error;
        execution_id = job.execution_id;
        updated = job.updated;
      }
        ∷ [];
  payload = payload;
  retry_request_id = some request_id;
  execution_id = some execution_id;
  status = queued;
  checkpoint = "prepare";
  error = none;
  updated = now;
}

-- The other rows: other["status"] in {…} and other's scope in {job's scope, "*"}
abbrev pub blocks : String → Job → Job → Bool
blocks jid job other =
    not (other.id == jid)
    && (holding other.status && (scope_of other == scope_of job || scope_of other == "*"))

abbrev pub retry_found :
    String → Payload → String → String → ℕ → Database → Job → Result (Job × Bool × Database)
retry_found jid payload request_id execution_id now db job =
    if opt_eq job.retry_request_id (some request_id)
    then (if payload_eq job.payload payload
        then ok (job, false, db)
        else err (http 409 "Retry request ID reused with different impact"))
    else if not (job.kind == "agent.delete" && retriable job.status)
    then err (http 409 "Only interrupted permanent deletion accepts a newly confirmed retry")
    else if any (blocks jid job) db.jobs
    then err (http 409 "Another operation holds this Agent")
    else (let next = retried payload request_id execution_id now job in
        ok (next, true, put_job jid next db))

-- `execution_id` is the reading of `uuid4`; a payload without `request_id` is a `KeyError`.
unfoldable pub retry_deletion :
    String → Payload → String → ℕ → Database → Result (Job × Bool × Database)
retry_deletion jid payload execution_id now db = elim (find (has_id jid) db.jobs) [
  | none ↦ err (http 404 "Job not found")
  | some job ↦ elim payload.body.request_id [
    | none ↦ err crash
    | some request_id ↦ retry_found jid payload request_id execution_id now db job
  ]
]

-- `state(key)` and `state(key, value)`, over the documents as text.
unfoldable pub state : String → Option String → Database → Option String × Database
state key none db = (lookup key db.state, db)
state key (some value) db =
    let rows = put key value db.state in (lookup key rows, record db { state = rows })
