-- ===== src/Operations/Reconcile/Evidence.antt =====
-- What the services have shown when `reconcile` of operations/main.py marks a job as succeeded.
use text.Mathlib.Text.{starts_with}
use opencode_cloud.Prelude.{String, true, false, ◌&&◌, ◌==◌, ◌≡◌, ◌⊎◌, truthy, opt_eq, lookup}
use opencode_cloud.Operations.Database.{ok, Job, Database}
use opencode_cloud.Operations.Jobs.{get}
use opencode_cloud.Operations.Reconcile.{
  Release, Sandbox, Services, has_succeeded, observe, desired, replaces, container_before,
  agent_gone,
}

-- A release is committed, or observed to run and then committed; a sandbox is seen as it was asked
-- for, without its container or with another one where that was asked for; a deleted agent is not
-- known any more and has no data left. The block of a target has been lifted.
pub data Evidence (services : Services) (job : Job) : Type 0 where
  already : has_succeeded job.status ≡ true → Evidence services job
  released :
      (r : Release)
      → truthy (lookup "release_id" job.notes) ≡ true
      → services.release ≡ ok r
      → (r.committed ≡ true) ⊎ (observe services job r ≡ ok true)
      → services.resume ≡ ok tt
      → Evidence services job
  observed :
      (o : Sandbox)
      → truthy (lookup "release_id" job.notes) ≡ false
      → starts_with job.kind "sandbox." ≡ true
      → services.sandbox ≡ ok o
      → (o.status == desired job.kind) ≡ true
      → (desired job.kind == "destroyed" && truthy o.container_id) ≡ false
      → (replaces job.kind && opt_eq o.container_id (container_before job)) ≡ false
      → Evidence services job
  deleted :
      truthy (lookup "release_id" job.notes) ≡ false
      → job.kind ≡ "agent.delete"
      → agent_gone services.catalog_impact ≡ ok tt
      → services.sandboxes_left ≡ ok false
      → services.files_left ≡ ok false
      → services.resume ≡ ok tt
      → Evidence services job

Succeeded : String → Database → Type 0
Succeeded jid db = (j : Job) × (get jid db ≡ ok j) × (has_succeeded j.status ≡ true)
