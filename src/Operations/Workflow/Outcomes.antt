-- ===== src/Operations/Workflow/Outcomes.antt =====
-- How `run` of operations/main.py leaves its job, whatever the services answer.
use opencode_cloud.Prelude.{Bool, true, none, arith}
use opencode_cloud.Operations.Workflow.World.{
  Kind, agent_apply, models_apply, sandbox, agent, AgentAction, archive, restore, delete,
  delete_empty, SandboxAction, Reply, Res, returned, raised, World, ◌>>=◌, ◌>>◌, assign, call,
  checkpoint,
}
use opencode_cloud.Operations.Workflow.Body.{
  hold_target, start_apply, fetch_previous, fetch_release, verify_applied, commit_release,
  check_call, apply_call, apply_release, act_on_sandbox, note_checkpoint, delete_data,
  before_lifecycle, act_on_agent, work, body,
}
use opencode_cloud.Operations.Workflow.Keeps.{
  Early, Live, Keeps, Keeps-call-Early, Keeps-checkpoint_Early, Keeps-checkpoint_running, Ends,
  Runs, Runs-late, Runs-bind, Early-then, early_rules, late_rules,
}

hold_target-Early : Keeps Early hold_target
unfolding hold_target
hold_target-Early = search early_rules

fetch_previous-Early : (k : Kind) → Keeps Early (fetch_previous k)
unfolding fetch_previous
fetch_previous-Early agent_apply = search early_rules
fetch_previous-Early _ = search early_rules

fetch_release-Early : (known : Bool) → Keeps Early (fetch_release known)
unfolding fetch_release
fetch_release-Early known = search early_rules

verify_applied-Live : (k : Kind) (r : Reply) → Keeps Live (verify_applied k r)
unfolding verify_applied
verify_applied-Live agent_apply r = search late_rules
verify_applied-Live _ r = search late_rules

commit_release-Live : Keeps Live commit_release
unfolding commit_release
commit_release-Live = search late_rules depth 7

start_apply-Runs : Runs Early start_apply Live
unfolding start_apply ◌>>=◌ checkpoint assign
start_apply-Runs = record { at = λ w h. ground arith }

apply_release-Runs : (k : Kind) (known : Bool) → Runs Early (apply_release k known) Live
unfolding apply_release
apply_release-Runs k known = Early-then _ _ (fetch_previous-Early k) λ _.
    Early-then _ _ (fetch_release-Early known) λ release.
      Early-then _ _ (Keeps-checkpoint_Early "validate") λ _.
        Early-then _ _ (Keeps-call-Early (check_call k)) λ _.
          Early-then _ _ hold_target-Early
            λ _. Runs-bind _ _ start_apply-Runs λ _. Runs-late _ (after_apply release)
  where
    after_apply :
        (release : Reply)
        → Keeps Live (do
          call (apply_call k)
          assign (λ w. record w { applied = true })
          checkpoint "verify" none
          verify_applied k release
          checkpoint "commit" none
          commit_release)
    after_apply release = search (late_rules, verify_applied-Live, commit_release-Live) depth 9

act_on_sandbox-Runs : (a : SandboxAction) → Runs Early (act_on_sandbox a) Live
unfolding act_on_sandbox
act_on_sandbox-Runs a = Runs-bind _ _ start_apply-Runs λ _. Runs-late _ (search late_rules)

before_lifecycle-Live : (a : AgentAction) → Keeps Live (before_lifecycle a)
unfolding before_lifecycle delete_data note_checkpoint
before_lifecycle-Live archive = search late_rules
before_lifecycle-Live restore = search late_rules
before_lifecycle-Live delete = search late_rules depth 9
before_lifecycle-Live delete_empty = search late_rules depth 9

act_on_agent-Runs : (a : AgentAction) → Runs Early (act_on_agent a) Live
unfolding act_on_agent
act_on_agent-Runs a = Early-then _ _ hold_target-Early λ _.
    Runs-bind _ _ start_apply-Runs λ _. Runs-late _ (search (late_rules, before_lifecycle-Live))

work-Runs : (k : Kind) (known : Bool) → Runs Early (work k known) Live
unfolding work
work-Runs agent_apply known = apply_release-Runs agent_apply known
work-Runs models_apply known = apply_release-Runs models_apply known
work-Runs (sandbox a) known = act_on_sandbox-Runs a
work-Runs (agent a) known = act_on_agent-Runs a

-- Whatever is answered, the `try` block ends with the job in progress or cancelled, and with it
-- `applying` if the application has started.
pub body-Live : (w : World) → Early w → Live (body w).1
unfolding body
body-Live w h = live _ _ (
    (Early-then _ _ (Keeps-checkpoint_running "prepare") (λ _. work-Runs w.kind w.has_release)).at w
      h)
  where
    live : (r : Res (Unit {0})) (w' : World) → Ends Live (r, w') → Live w'
    live (returned a) w' l = l
    live (raised e) w' l = l
