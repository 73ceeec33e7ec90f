-- ===== src/Operations/Workflow/Body.antt =====
-- The `try` block of `Workflows.run` in operations/main.py, up to the write of its success.
use opencode_cloud.Prelude.{String, Bool, true, ◌&&◌, none, some, ◌==◌, eqb, if◌then◌else◌}
use opencode_cloud.Operations.Database.{running, waiting, applying}
use opencode_cloud.Operations.Workflow.World.{
  SandboxAction, AgentAction, archive, restore, delete, delete_empty, Kind, agent_apply,
  models_apply, sandbox, agent, Call, bundle, get_release, prepare_release, probe, validate_config,
  activate, config_status, commit, quiesce, apply, verify, sandbox_action, lifecycle_deleting,
  delete_sandboxes, cleanup_files, archive_sandboxes, lifecycle, Reply, refused, M, ◌>>=◌, ◌>>◌,
  pure, raise, except, assign, call, checkpoint,
}

-- self.checkpoint(jid, "quiesce", status="waiting"); quiesce_started = True; the quiesce action
unfoldable pub hold_target : M (Unit {0})
hold_target = do
  checkpoint "quiesce" (some waiting)
  assign (λ w. record w { quiesce_started = true })
  call quiesce
  pure tt

-- self.checkpoint(jid, "apply", status="applying"); apply_started = True
unfoldable pub start_apply : M (Unit {0})
start_apply = do checkpoint "apply" (some applying); assign (λ w. record w { apply_started = true })

-- The bundle in effect before, for compensation: a 404 is an agent that had none.
unfoldable pub fetch_previous : Kind → M (Unit {0})
fetch_previous agent_apply =
    except (do call bundle; assign (λ w. record w { previous = true }))
      (λ status. if eqb status 404 then pure tt else raise (refused status))
fetch_previous _ = pure tt

unfoldable pub fetch_release : Bool → M Reply
fetch_release known = do
  release ← call (if known then get_release else prepare_release)
  assign (λ w. record w { release = some release })
  pure release

abbrev pub verified : Reply → Reply → Bool
verified release status = status.release_id == release.release_id && status.ready

unfoldable pub verify_applied : Kind → Reply → M (Unit {0})
verify_applied agent_apply release = do call verify; pure tt
verify_applied _ release = do
  status ← call config_status
  if verified release status then pure tt else raise (refused 503)

-- The commit: after an HTTPException the catalog is asked whether it committed all the same.
unfoldable pub commit_release : M (Unit {0})
commit_release = do
  assign (λ w. record w { commit_started = true })
  except (do call commit; assign (λ w. record w { commit_state_known = true }))
      (λ status. do
        state ← call get_release
        assign (λ w. record w { commit_state_known = true })
        if state.committed then pure tt else raise (refused status))

abbrev pub check_call : Kind → Call
check_call agent_apply = probe
check_call _ = validate_config

abbrev pub apply_call : Kind → Call
apply_call agent_apply = apply
apply_call _ = activate

unfoldable pub apply_release : Kind → Bool → M (Unit {0})
apply_release kind known = do
  fetch_previous kind
  release ← fetch_release known
  checkpoint "validate" none
  call (check_call kind)
  hold_target
  start_apply
  call (apply_call kind)
  assign (λ w. record w { applied = true })
  checkpoint "verify" none
  verify_applied kind release
  checkpoint "commit" none
  commit_release

unfoldable pub act_on_sandbox : SandboxAction → M (Unit {0})
act_on_sandbox action = do
  start_apply
  call (sandbox_action action)
  assign (λ w. record w { applied = true })

-- store.update(jid, checkpoint=…)
unfoldable pub note_checkpoint : String → M (Unit {0})
note_checkpoint name = assign (λ w. record w { checkpoint = name })

unfoldable pub delete_data : M (Unit {0})
delete_data = do
  call lifecycle_deleting
  call delete_sandboxes
  note_checkpoint "cleanup-files"
  call cleanup_files
  note_checkpoint "cleanup-catalog"

unfoldable pub before_lifecycle : AgentAction → M (Unit {0})
before_lifecycle delete = delete_data
before_lifecycle delete_empty = delete_data
before_lifecycle archive = do call archive_sandboxes; pure tt
before_lifecycle restore = pure tt

-- The last lifecycle call of a deletion says "delete", also for "delete-empty".
abbrev pub final_action : AgentAction → AgentAction
final_action delete_empty = delete
final_action action = action

unfoldable pub act_on_agent : AgentAction → M (Unit {0})
act_on_agent action = do
  hold_target
  start_apply
  before_lifecycle action
  call (lifecycle (final_action action))
  assign (λ w. record w { applied = true })

unfoldable pub work : Kind → Bool → M (Unit {0})
work agent_apply known = apply_release agent_apply known
work models_apply known = apply_release models_apply known
work (sandbox action) known = act_on_sandbox action
work (agent action) known = act_on_agent action

unfoldable pub body : M (Unit {0})
body w = (do checkpoint "prepare" (some running); work w.kind w.has_release) w
