-- ===== src/Operations/Workflow/Calm.antt =====
-- A worker of operations/main.py that is never stopped: what `body` leaves ahead.
use opencode_cloud.Prelude.{ℕ, String, Bool, true, Option, none, some, ◌≡◌, ◌≢◌, refl, arith}
use opencode_cloud.Operations.Database.{Status}
use opencode_cloud.Operations.Workflow.World.{
  Kind, models_apply, agent_apply, agent, sandbox, archive, restore, delete, delete_empty,
  AgentAction, Call, Reply, stopped, raised, World, assign, cancel_job, call, checkpoint,
}
use opencode_cloud.Operations.Workflow.Body.{
  hold_target, start_apply, fetch_previous, fetch_release, verify_applied, commit_release,
  apply_release, act_on_sandbox, note_checkpoint, delete_data, before_lifecycle, act_on_agent, work,
  body,
}
use opencode_cloud.Operations.Workflow.Keeps.{Keeps, Keeps-bind, keeps_rules}

-- No call ends in a stop of the worker.
pub record Calm (w : World) : Type 0 where
  pub at : (i : ℕ) → (w.env i).outcome ≢ raised stopped

env-call : (c : Call) (w : World) → (call c w).1.env ≡ w.env
unfolding call cancel_job
env-call c w = ground arith

env-checkpoint :
    (name : String) (s : Option Status) (w : World) → (checkpoint name s w).1.env ≡ w.env
unfolding checkpoint
env-checkpoint name none w = ground arith
env-checkpoint name (some s) w = ground arith

pub Calm-call : (c : Call) → Keeps Calm (call c)
Calm-call c = record { at = λ w h. record { at = λ i. rw (env-call c w) (h.at i) } }

Calm-checkpoint : (name : String) (s : Option Status) → Keeps Calm (checkpoint name s)
Calm-checkpoint name s = record {
  at = λ w h. record { at = λ i. rw (env-checkpoint name s w) (h.at i) };
}

Calm-assign : (f : World → World) → ((w : World) → (f w).env ≡ w.env) → Keeps Calm (assign f)
unfolding assign
Calm-assign f e = record { at = λ w h. record { at = λ i. rw (e w) (h.at i) } }

Calm-release : (r : Reply) → Keeps Calm (assign (λ w. record w { release = some r }))
Calm-release r = Calm-assign _ (λ w. refl)

Calm-quiesce_started : Keeps Calm (assign (λ w. record w { quiesce_started = true }))
Calm-quiesce_started = Calm-assign _ (λ w. refl)

Calm-apply_started : Keeps Calm (assign (λ w. record w { apply_started = true }))
Calm-apply_started = Calm-assign _ (λ w. refl)

Calm-previous : Keeps Calm (assign (λ w. record w { previous = true }))
Calm-previous = Calm-assign _ (λ w. refl)

Calm-applied : Keeps Calm (assign (λ w. record w { applied = true }))
Calm-applied = Calm-assign _ (λ w. refl)

Calm-commit_started : Keeps Calm (assign (λ w. record w { commit_started = true }))
Calm-commit_started = Calm-assign _ (λ w. refl)

Calm-commit_state_known : Keeps Calm (assign (λ w. record w { commit_state_known = true }))
Calm-commit_state_known = Calm-assign _ (λ w. refl)

Calm-note : (name : String) → Keeps Calm (assign (λ w. record w { checkpoint = name }))
Calm-note name = Calm-assign _ (λ w. refl)

ruleset calm_rules = (
  keeps_rules, Calm-call, Calm-checkpoint, Calm-release, Calm-quiesce_started, Calm-apply_started,
  Calm-previous, Calm-applied, Calm-commit_started, Calm-commit_state_known, Calm-note,
)

hold_target-Calm : Keeps Calm hold_target
unfolding hold_target
hold_target-Calm = search calm_rules

start_apply-Calm : Keeps Calm start_apply
unfolding start_apply
start_apply-Calm = search calm_rules

fetch_previous-Calm : (k : Kind) → Keeps Calm (fetch_previous k)
unfolding fetch_previous
fetch_previous-Calm agent_apply = search calm_rules
fetch_previous-Calm _ = search calm_rules

fetch_release-Calm : (known : Bool) → Keeps Calm (fetch_release known)
unfolding fetch_release
fetch_release-Calm known = search calm_rules

verify_applied-Calm : (k : Kind) (r : Reply) → Keeps Calm (verify_applied k r)
unfolding verify_applied
verify_applied-Calm agent_apply r = search calm_rules
verify_applied-Calm _ r = search calm_rules

commit_release-Calm : Keeps Calm commit_release
unfolding commit_release
commit_release-Calm = search calm_rules depth 7

before_lifecycle-Calm : (a : AgentAction) → Keeps Calm (before_lifecycle a)
unfolding before_lifecycle delete_data note_checkpoint
before_lifecycle-Calm archive = search calm_rules
before_lifecycle-Calm restore = search calm_rules
before_lifecycle-Calm delete = search calm_rules depth 9
before_lifecycle-Calm delete_empty = search calm_rules depth 9

ruleset parts = (
  calm_rules, hold_target-Calm, start_apply-Calm, fetch_previous-Calm, fetch_release-Calm,
  verify_applied-Calm, commit_release-Calm, before_lifecycle-Calm,
)

work-Calm : (k : Kind) (known : Bool) → Keeps Calm (work k known)
unfolding work apply_release act_on_sandbox act_on_agent
work-Calm agent_apply known = search parts depth 15
work-Calm models_apply known = search parts depth 15
work-Calm (sandbox a) known = search parts depth 9
work-Calm (agent a) known = search parts depth 9

pub body-Calm : (w : World) → Calm w → Calm (body w).1
unfolding body
body-Calm w h = (Keeps-bind _ _ (Calm-checkpoint _ _) (λ _. work-Calm w.kind w.has_release)).at w h
