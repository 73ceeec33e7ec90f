-- ===== src/Operations/Recovery.antt =====
-- operations/src/recovery.py: one pass of `tick` over the observed sandboxes. Times are readings of
-- the clock, passed with each observation.
pub mod Decision
pub mod Bounds
pub mod Passes
mod Samples
use Prim.Native.String.{◌++◌ as append}
use text.Mathlib.Text.{starts_with}
use opencode_cloud.Prelude.{
  ℕ, zero, suc, ◌+◌, ◌-◌, String, Bool, true, false, not, ◌&&◌, ◌||◌, Option, none, some, List, [],
  ◌∷◌, ◌++◌, ◌==◌, opt_eq, leb, ltb, eqb, truthy, if◌then◌else◌, length, select, any, lookup, put,
}
use opencode_cloud.Operations.Database.{
  Result, ok, err, Status, queued, running, waiting, applying, needs_recovery, interrupted,
  succeeded, failed, cancelled, Body, Payload, Job, scope_of, Database,
}
use opencode_cloud.Operations.RecoveryPolicy.{
  RecoveryPolicy, RecoveryState, initial, Observation, has_container, agent_allowed, healthy,
  recent, is_idle, backoff, failing,
}
use opencode_cloud.Operations.Jobs.{submit}

-- What a pass reads and writes: the database, the recovery documents, the recoveries that are in
-- progress, and the jobs spawned.
pub record Pass : Type 0 where
  pub db : Database
  pub states : List (String × RecoveryState)
  pub active : ℕ
  pub spawned : List String

abbrev pub state_of : String → Pass → RecoveryState
state_of sid p = elim (lookup sid p.states) [ none ↦ initial | some s ↦ s ]

abbrev pub store : String → RecoveryState → Pass → Pass
store sid s p = record p { states = put sid s p.states }

-- {"queued", "running", "waiting", "applying", "needs_recovery"}
abbrev pub pending : Status → Bool
pending queued = true
pending running = true
pending waiting = true
pending applying = true
pending needs_recovery = true
pending interrupted = false
pending succeeded = false
pending failed = false
pending cancelled = false

-- {"queued", "running", "waiting", "applying"}
abbrev pub recovering : Status → Bool
recovering queued = true
recovering running = true
recovering waiting = true
recovering applying = true
recovering needs_recovery = false
recovering interrupted = false
recovering succeeded = false
recovering failed = false
recovering cancelled = false

unfoldable pub count_active : Database → ℕ
count_active db =
    length (select (λ (j : Job). j.kind == "sandbox.recover" && recovering j.status) db.jobs)

-- `{"state": "stopped"}` and `{"state": "on_demand"}`, as the documents of `desired:<sandbox>`.
abbrev pub desires : String → String → Database → Bool
desires sid document db = opt_eq (lookup (append "desired:" sid) db.state) (some document)

-- The tests that skip a sandbox before its detail is read. `lifecycle` is what the catalog says of
-- an agent, if it knows it.
unfoldable pub skipped : RecoveryPolicy → (String → Option String) → Observation → Database → Bool
skipped policy lifecycle o db =
    (starts_with o.username "loadtest-"
      || (not (has_container o) || not (agent_allowed policy o.agent_id)))
    || ((opt_eq (lifecycle o.agent_id) (some "archived")
          || opt_eq (lifecycle o.agent_id) (some "deleting"))
        || (desires o.sandbox_id "{\"state\": \"stopped\"}" db
            || ((desires o.sandbox_id "{\"state\": \"on_demand\"}" db && not (has_container o))
                || any
                    (λ (j : Job).
                      (scope_of j == o.agent_id || scope_of j == "*") && pending j.status)
                    db.jobs)))

abbrev pub recovery_payload : Observation → Payload
recovery_payload o = record {
  body = record { request_id = some o.request_id; fields = o.fields };
  input = none;
}

-- What the submission of a recovery leaves: a refusal is passed over.
abbrev pub queue_recovery :
    RecoveryPolicy
    → Observation
    → RecoveryState
    → List ℕ
    → Pass
    → Result (Job × Bool × Database)
    → Pass
queue_recovery policy o s attempts p (err e) = p
queue_recovery policy o s attempts p (ok (job, false, db)) = record p { db = db }
queue_recovery policy o s attempts p (ok (job, true, db)) = record p {
  db = db;
  states =
      put o.sandbox_id
        (record s {
          attempts = attempts ++ o.now ∷ [];
          next_attempt = o.now + backoff policy (length attempts);
          reason = some "Recovery queued";
        })
        p.states;
  active = suc p.active;
  spawned = job.id ∷ p.spawned;
}

pub data Flow : Type 0 where
  go_on stop : Pass → Flow

-- From the count of the failure on. `s` is the state with the new failure, as it is stored.
unfoldable pub attempt : RecoveryPolicy → Observation → RecoveryState → Pass → Flow
attempt policy o s p =
    if ltb s.failures policy.failure_threshold || ltb o.now s.next_attempt
    then go_on p
    else (let attempts = recent policy o.now s.attempts in
        if leb policy.max_attempts (length attempts)
        then go_on (
            store o.sandbox_id
              (record s { reason = some "Recovery limit reached; manual intervention required" }) p)
        else if not (is_idle o s)
        then go_on (
            store o.sandbox_id
              (record s { reason = some "Execution is busy or unknown; automatic restart skipped" })
              p)
        else if leb policy.max_parallel_recoveries p.active
        then stop p
        else go_on (
            queue_recovery policy o s attempts p (
              submit "sandbox.recover" o.sandbox_id (recovery_payload o) (some o.agent_id) ""
                o.job_id o.now p.db)))

-- After the wait for the detail of a sandbox.
abbrev pub awaited : Observation → Pass → Pass
awaited o p = record p { db = o.meanwhile p.db }

-- The body of the loop over the records.
unfoldable pub examine : RecoveryPolicy → (String → Option String) → Observation → Pass → Flow
examine policy lifecycle o p =
    let s = state_of o.sandbox_id p in
    if skipped policy lifecycle o p.db
    then go_on p
    else if o.status == "ready"
    then go_on (store o.sandbox_id (healthy policy o s) (awaited o p))
    else if not (o.status == "unhealthy" || o.status == "missing")
    then go_on (awaited o p)
    else attempt policy o (failing s) (store o.sandbox_id (failing s) (awaited o p))

unfoldable pub sweep : RecoveryPolicy → (String → Option String) → List Observation → Pass → Pass
sweep policy lifecycle [] p = p
sweep policy lifecycle (o ∷ rest) p = elim (examine policy lifecycle o p) [
  | go_on q ↦ sweep policy lifecycle rest q
  | stop q ↦ q
]

unfoldable pub tick :
    RecoveryPolicy
    → (String → Option String)
    → List Observation
    → Database
    → List (String × RecoveryState)
    → Pass
tick policy lifecycle records db states =
    let p : Pass = record { db = db; states = states; active = count_active db; spawned = [] } in
    if policy.enabled then sweep policy lifecycle records p else p
