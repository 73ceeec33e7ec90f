-- ===== src/Operations/Workflow/Samples.antt =====
-- Sample jobs of operations/main.py, tests of `run`, and its theorems at these samples.
use opencode_cloud.Prelude.{
  ℕ, zero, suc, true, false, none, List, [], ◌∷◌, ◌≡◌, ◌≢◌, refl, arith, map,
}
use opencode_cloud.Operations.Database.{Status, queued, succeeded, failed, cancelled}
use opencode_cloud.Operations.Workflow.World.{
  Kind, models_apply, agent, delete, prepare_release, validate_config, quiesce, activate,
  config_status, commit, rollback, resume, Call, Reply, Await, refused, stopped, returned, raised,
  Res, World, call, checkpoint, except, assign, raise, pure, cancel_job, ◌>>=◌,
}
use opencode_cloud.Operations.Workflow.Body.{
  body, work, hold_target, start_apply, fetch_previous, fetch_release, verify_applied,
  commit_release, apply_release,
}
use opencode_cloud.Operations.Workflow.Run.{
  run, handle, release_target, on_failure, on_stopped, compensation,
}
use opencode_cloud.Operations.Workflow.Keeps.{Early}
use opencode_cloud.Operations.Workflow.Leaves.{Left, run-Left}
use opencode_cloud.Operations.Workflow.Returns.{run-returned}

abbrev good : Reply
good = record { release_id = "r1"; ready = true; committed = true }

abbrev stale : Reply
stale = record { release_id = "r0"; ready = true; committed = false }

abbrev answer : Reply → Await
answer r = record { cancel = false; outcome = returned r }

abbrev job : Kind → (ℕ → Await) → World
job k env = record {
  kind = k;
  has_release = false;
  env = env;
  turn = 0;
  status = queued;
  checkpoint = "prepare";
  applied = false;
  apply_started = false;
  quiesce_started = false;
  compensated = false;
  commit_started = false;
  commit_state_known = false;
  release = none;
  previous = false;
  desired = none;
  log = [];
}

abbrev at_end : World → Status × List Call
at_end w = (w.status, map (λ (e : Call × Status × Res Reply). e.0) w.log)

-- Every service agrees.
apply_succeeds : at_end (run (job models_apply (λ _. answer good))).1 ≡ (
  succeeded,
  resume ∷ commit ∷ config_status ∷ activate ∷ quiesce ∷ validate_config ∷ prepare_release ∷ [],
)
unfolding run body work apply_release fetch_previous fetch_release hold_target start_apply
    verify_applied commit_release handle release_target call checkpoint except assign pure ◌>>=◌
apply_succeeds = refl

-- The gateway reports another release after the activation: the job fails, and is rolled back.
abbrev unverified : ℕ → Await
unverified (suc (suc (suc (suc zero)))) = answer stale
unverified _ = answer good

apply_rolled_back : at_end (run (job models_apply unverified)).1 ≡ (
  failed,
  resume ∷ rollback ∷ config_status ∷ activate ∷ quiesce ∷ validate_config ∷ prepare_release ∷ [],
)
unfolding run body work apply_release fetch_previous fetch_release hold_target start_apply
    verify_applied commit_release handle release_target call checkpoint except assign pure ◌>>=◌
    on_failure compensation raise
apply_rolled_back = refl

-- A cancel request lands while the target is quiesced.
abbrev cancelled_early : ℕ → Await
cancelled_early (suc (suc zero)) = record { cancel = true; outcome = returned good }
cancelled_early _ = answer good

apply_cancelled :
    at_end (run (job models_apply cancelled_early)).1
    ≡ (cancelled, resume ∷ quiesce ∷ validate_config ∷ prepare_release ∷ [])
unfolding run body work apply_release fetch_previous fetch_release hold_target start_apply
    verify_applied commit_release handle release_target call checkpoint except assign pure ◌>>=◌
    on_stopped cancel_job
apply_cancelled = refl

-- The sandbox manager does not answer a restart.
abbrev silent : ℕ → Await
silent _ = record { cancel = false; outcome = raised (refused 503) }

calm : (i : ℕ) → (silent i).outcome ≢ raised stopped
calm i e = ground arith

run-returned_example : (run (job (agent delete) silent)).0 ≡ returned tt
run-returned_example = run-returned (job (agent delete) silent) calm

early : Early (job (agent delete) silent)
early = record { alive = refl; not_started = refl }

run-Left_example : Left (run (job (agent delete) silent)).1
run-Left_example =
    run-Left (job (agent delete) silent) early (run-returned (job (agent delete) silent) calm)
