-- ===== src/Operations/Recovery/Decision.antt =====
-- When operations/src/recovery.py queues a recovery.
use Prim.Native.String.{◌++◌ as append}
use text.Mathlib.Text.{starts_with}
use opencode_cloud.Operations.Database.{Job, scope_of, Database}
use opencode_cloud.Prelude.{
  ℕ, suc, ◌≤◌, ◌<◌, ◌-◌, ◌⊎◌, some, All, lookup, select, ltb, truthy, String, true, false, Option,
  ◌≡◌, ◌≢◌, length,
}
use opencode_cloud.Operations.RecoveryPolicy.{RecoveryPolicy, RecoveryState, Observation}
use opencode_cloud.Operations.Recovery.{Pass, pending, state_of}

-- The recorded or the observed execution is idle.
abbrev pub Idle : Observation → RecoveryState → Type 0
Idle o s =
    (o.detail_execution ≡ some "idle")
    ⊎ ((s.execution ≡ some "idle")
        × (s.container_id ≡ o.container_id)
        × ((g : ℕ) × (s.activity_generation ≡ some g) × (o.detail_generation ≡ some g)))

-- A job that is not pending on the agent, nor on all agents.
abbrev pub Apart : String → Job → Type 0
Apart aid j = pending j.status ≡ true → (scope_of j ≢ aid) × (scope_of j ≢ "*")

-- What holds of a sandbox for which a pass has queued a recovery.
pub record Watched (policy : RecoveryPolicy) (lifecycle : String → Option String) (o : Observation)
    (db : Database) : Type 0 where
  pub own : starts_with o.username "loadtest-" ≡ false
  pub container : truthy o.container_id ≡ true
  pub allowed : lookup o.agent_id policy.agent_enabled ≢ some false
  pub current : (lifecycle o.agent_id ≢ some "archived") × (lifecycle o.agent_id ≢ some "deleting")
  pub wanted : lookup (append "desired:" o.sandbox_id) db.state ≢ some "{\"state\": \"stopped\"}"
  pub alone : All (Apart o.agent_id) db.jobs

pub record Justified (policy : RecoveryPolicy) (lifecycle : String → Option String)
    (o : Observation) (p : Pass) : Type 0 where
  pub watched : Watched policy lifecycle o p.db
  pub failed : (o.status ≡ "unhealthy") ⊎ (o.status ≡ "missing")
  pub persistent : policy.failure_threshold ≤ suc (state_of o.sandbox_id p).failures
  pub due : (state_of o.sandbox_id p).next_attempt ≤ o.now
  pub bounded :
      length
        (select (λ t. ltb (o.now - t) policy.window_seconds) (state_of o.sandbox_id p).attempts)
      < policy.max_attempts
  pub idle : Idle o (state_of o.sandbox_id p)
  pub free : p.active < policy.max_parallel_recoveries
