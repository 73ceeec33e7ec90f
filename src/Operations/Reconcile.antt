-- ===== src/Operations/Reconcile.antt =====
-- `Workflows.reconcile` of operations/main.py. The answers of the services are arguments, each with
-- what the method reads of it.
pub mod Evidence
mod Samples
use Prim.Native.String.{◌++◌ as append}
use text.Mathlib.Text.{starts_with}
use opencode_cloud.Prelude.{
  ℕ, String, Bool, true, false, not, ◌&&◌, ◌||◌, Option, none, some, List, [], ◌∷◌, ◌==◌, eqb,
  truthy, opt_eq, if◌then◌else◌, lookup,
}
use opencode_cloud.Operations.Database.{
  Error, Result, ok, err, http, integrity, crash, Status, queued, running, waiting, applying,
  needs_recovery, interrupted, succeeded, failed, cancelled, Job, Database,
}
use opencode_cloud.Operations.Jobs.{get, Changes, update, state}

pub record Release : Type 0 where
  pub committed : Bool
  pub release_id : String
  pub version : String

pub record GatewayStatus : Type 0 where
  pub ready : Bool
  pub release_id : Option String

pub record Application : Type 0 where
  pub verified : Bool
  pub version : String

pub record Sandbox : Type 0 where
  pub status : String
  pub container_id : Option String

-- `sandboxes_left` and `files_left` are whether the two impacts name any data.
pub record Services : Type 0 where
  pub release : Result Release
  pub gateway : Result GatewayStatus
  pub application : Result Application
  pub commit : Result String
  pub resume : Result (Unit {0})
  pub sandbox : Result Sandbox
  pub catalog_impact : Result (Unit {0})
  pub sandboxes_left : Result Bool
  pub files_left : Result Bool

abbrev pub and_then : {A B : Type 0} → Result A → (A → Result B) → Result B
and_then (ok a) f = f a
and_then (err e) f = err e

-- {"needs_recovery", "interrupted", "failed"}
abbrev pub reconcilable : Status → Bool
reconcilable needs_recovery = true
reconcilable interrupted = true
reconcilable failed = true
reconcilable queued = false
reconcilable running = false
reconcilable waiting = false
reconcilable applying = false
reconcilable succeeded = false
reconcilable cancelled = false

abbrev pub has_succeeded : Status → Bool
has_succeeded succeeded = true
has_succeeded queued = false
has_succeeded running = false
has_succeeded waiting = false
has_succeeded applying = false
has_succeeded needs_recovery = false
has_succeeded interrupted = false
has_succeeded failed = false
has_succeeded cancelled = false

abbrev pub gateway_runs : Release → GatewayStatus → Bool
gateway_runs r observed = observed.ready && opt_eq observed.release_id (some r.release_id)

abbrev pub application_runs : Release → Application → Bool
application_runs r observed = observed.verified && observed.version == r.version

-- Whether the version of the release is observed to run.
abbrev pub observe : Services → Job → Release → Result Bool
observe services job r =
    if job.kind == "models.apply"
    then and_then services.gateway (λ observed. ok (gateway_runs r observed))
    else and_then services.application (λ observed. ok (application_runs r observed))

abbrev pub commit_observed : Services → Bool → Result String
commit_observed services true = services.commit
commit_observed services false =
    err
      (http 409 "Applied version is not verified; inspect execution service before reconciliation")

unfoldable pub release_result : Services → Job → Result String
release_result services job = and_then services.release (λ r.
    and_then
      (if r.committed
        then ok r.version
        else and_then (observe services job r) (commit_observed services))
      (λ result. and_then services.resume (λ u. ok result)))

abbrev pub desired : String → String
desired kind =
    if kind == "sandbox.destroy"
    then "destroyed"
    else if kind == "sandbox.stop"
    then "stopped"
    else "ready"

abbrev pub desired_document : String → String
desired_document want =
    if want == "destroyed"
    then "{\"state\": \"on_demand\"}"
    else if want == "stopped"
    then "{\"state\": \"stopped\"}"
    else "{\"state\": \"running\"}"

abbrev pub replaces : String → Bool
replaces kind = kind == "sandbox.restart" || kind == "sandbox.recover"

-- job.get("before", {}).get("container_id"): the entry `before` is kept as its container.
abbrev pub container_before : Job → Option String
container_before job = lookup "before" job.notes

abbrev pub check_sandbox : Job → Sandbox → Result (Unit {0})
check_sandbox job observed =
    if not (observed.status == desired job.kind)
    then err (http 409 "Observed sandbox does not match requested state")
    else if desired job.kind == "destroyed" && truthy observed.container_id
    then err (http 409 "Container removal has not been confirmed")
    else if replaces job.kind && opt_eq observed.container_id (container_before job)
    then err (http 409 "A replacement container has not been observed")
    else ok tt

-- The deletion is over if the catalog does not know the agent.
abbrev pub agent_gone : Result (Unit {0}) → Result (Unit {0})
agent_gone (ok u) = err (http 409 "Agent deletion is incomplete; review remaining deletion impact")
agent_gone (err (http status detail)) = if eqb status 404 then ok tt else err (http status detail)
agent_gone (err integrity) = err integrity
agent_gone (err crash) = err crash

abbrev pub nothing_left : Bool → Bool → Result (Unit {0})
nothing_left sandboxes files =
    if sandboxes || files then err (http 409 "Owned data remains after deletion") else ok tt

unfoldable pub deletion_result : Services → Result String
deletion_result services = and_then (agent_gone services.catalog_impact) (λ u.
    and_then services.sandboxes_left (λ sandboxes. and_then services.files_left (λ files.
      and_then (nothing_left sandboxes files)
        (λ u. and_then services.resume (λ u. ok "{\"deleted\": true}")))))

abbrev pub reconciled : String → Changes
reconciled result = record {
  status = some succeeded;
  checkpoint = some "complete";
  error = none;
  notes = ("result", result) ∷ ("reconciled", "true") ∷ [];
}

abbrev pub second : {A : Type 0} → A × Database → Database
second (a, db) = db

abbrev pub conclude : String → ℕ → Database → String → Result Database
conclude jid now db result = and_then (update jid (reconciled result) now db) (λ r. ok (second r))

abbrev pub reconcile_sandbox : String → Services → Job → ℕ → Database → Result Database
reconcile_sandbox jid services job now db = and_then services.sandbox (λ observed.
    and_then (check_sandbox job observed) (λ u.
      conclude jid now
        (second
          (state (append "desired:" job.target) (some (desired_document (desired job.kind))) db))
        (desired job.kind)))

abbrev pub reconcile_job : String → Services → Job → ℕ → Database → Result Database
reconcile_job jid services job now db =
    if has_succeeded job.status
    then ok db
    else if not (reconcilable job.status)
    then err (http 409 "Job is not awaiting reconciliation")
    else if truthy (lookup "release_id" job.notes)
    then and_then (release_result services job) (conclude jid now db)
    else if starts_with job.kind "sandbox."
    then reconcile_sandbox jid services job now db
    else if job.kind == "agent.delete"
    then and_then (deletion_result services) (conclude jid now db)
    else err (http 409 "No completed execution evidence exists for this job")

unfoldable pub reconcile : String → Services → ℕ → Database → Result Database
reconcile jid services now db = and_then (get jid db) (λ job. reconcile_job jid services job now db)
