-- ===== src/Operations/Admission.antt =====
-- What operations/main.py admits: executions, file operations, and cleanups of files.
pub mod Exclusion
mod Samples
use Prim.Native.String.{◌++◌ as append}
use text.Mathlib.Text.{starts_with}
use opencode_cloud.Prelude.{
  ℕ, String, Bool, true, false, not, ◌&&◌, ◌||◌, Option, none, some, List, [], ◌∷◌, ◌==◌, truthy,
  or_else, if◌then◌else◌, find, select, any, lookup,
}
use opencode_cloud.Operations.LoadTables.{
  StorageState, is_cleaning, cleanup_runs, LoadTest, LoadUser,
}
use opencode_cloud.Operations.Database.{
  Result, ok, err, http, Status, queued, running, waiting, applying, needs_recovery, interrupted,
  succeeded, failed, cancelled, holding, Job, scope_of, Database,
}
use opencode_cloud.Operations.Recovery.{desires}
use opencode_cloud.Operations.LoadTests.{has_run}

abbrev pub is_retained : StorageState → Bool
is_retained StorageState.retained = true
is_retained StorageState.cleaning = false
is_retained StorageState.cleaned = false

-- LoadTestStore.user
unfoldable pub load_user : String → String → Database → Option LoadUser
load_user aid username db =
    if starts_with username "loadtest-"
    then find (λ (u : LoadUser). u.username == username && u.agent_id == aid) db.load_test_users
    else none

abbrev pub usable : String → Option LoadUser → Result (Option LoadUser)
usable detail none = err (http 409 detail)
usable detail (some u) = if is_retained u.state then ok (some u) else err (http 409 detail)

-- LoadTests.resources_for
unfoldable pub resources_for : String → String → Database → Result (Option LoadUser)
resources_for aid username db =
    if starts_with username "loadtest-"
    then usable "Load-test user is unavailable or being cleaned up" (load_user aid username db)
    else ok none

abbrev pub deleting : String → Job → Bool
deleting aid j = scope_of j == aid && (starts_with j.kind "agent.delete" && holding j.status)

-- The handler of file-admission, with the user whose resources are returned.
unfoldable pub file_admission : String → String → Database → Result (Option LoadUser)
file_admission aid username db =
    if any (deleting aid) db.jobs
    then err (http 409 "Agent deletion pending")
    else if starts_with username "loadtest-"
    then usable "Load-test storage unavailable or being cleaned up" (load_user aid username db)
    else ok none

abbrev pub is_applying : Status → Bool
is_applying applying = true
is_applying queued = false
is_applying running = false
is_applying waiting = false
is_applying needs_recovery = false
is_applying interrupted = false
is_applying succeeded = false
is_applying failed = false
is_applying cancelled = false

-- job.get("execution_id", job["id"])
abbrev pub execution_of : Job → String
execution_of j = elim j.execution_id [ none ↦ j.id | some x ↦ x ]

abbrev pub intends : String → String → Job → Bool
intends aid request_id j =
    j.target == aid
    && ((j.kind == "agent.delete" || j.kind == "agent.delete-empty")
        && (execution_of j == request_id && is_applying j.status))

abbrev pub no_intent : Result (Unit {0})
no_intent = err (http 409 "No matching active cleanup intent")

abbrev pub cleans : String → String → String → LoadTest → LoadUser → Bool
cleans run_id username request_id r u =
    cleanup_runs r.cleanup_status
    && (u.run_id == run_id
        && (is_cleaning u.state && request_id == append run_id (append ":" username)))

abbrev pub user_intent : String → String → String → LoadTest → Option LoadUser → Result (Unit {0})
user_intent run_id username request_id r none = no_intent
user_intent run_id username request_id r (some u) =
    if cleans run_id username request_id r u then ok tt else no_intent

abbrev pub authorize_user : String → String → String → String → Database → Result (Unit {0})
authorize_user aid request_id username run_id db = elim (find (has_run run_id) db.load_tests) [
  | none ↦ err (http 404 "Load test not found")
  | some r ↦ user_intent run_id username request_id r (load_user aid username db)
]

-- The handler of cleanup-authorization.
unfoldable pub cleanup_authorization :
    String → String → Option String → Option String → Database → Result (Unit {0})
cleanup_authorization aid request_id username run_id db =
    if truthy run_id && truthy username
    then authorize_user aid request_id (or_else username "") (or_else run_id "") db
    else if any (intends aid request_id) db.jobs
    then ok tt
    else no_intent

abbrev pub awaits : Status → Bool
awaits needs_recovery = true
awaits interrupted = true
awaits queued = false
awaits running = false
awaits waiting = false
awaits applying = false
awaits succeeded = false
awaits failed = false
awaits cancelled = false

abbrev pub holds_agent : String → Job → Bool
holds_agent aid j = (scope_of j == aid || scope_of j == "*") && holding j.status

abbrev pub ends_agent : Job → Bool
ends_agent j = starts_with j.kind "agent.delete" || starts_with j.kind "agent.archive"

abbrev pub starts_sandbox : String → Job → Bool
starts_sandbox sid j = j.target == sid && (j.kind == "sandbox.start" || j.kind == "sandbox.restart")

-- The handler of admission. `sandbox_id` is the id made from the SHA-256 of the agent and the user.
unfoldable pub admission :
    (String → String → String) → String → String → Database → Result (Option LoadUser)
admission sandbox_id aid username db =
    let active = select (holds_agent aid) db.jobs in
    let sid = sandbox_id aid username in
    if any (λ (j : Job). awaits j.status) active
    then err (http 409 "An interrupted operation requires reconciliation before execution")
    else if any ends_agent active
    then err (http 409 "Agent lifecycle operation pending")
    else if desires sid "{\"state\": \"stopped\"}" db && not (any (starts_sandbox sid) active)
    then err (http 409 "Sandbox was stopped manually; start it in sandbox management")
    else resources_for aid username db
